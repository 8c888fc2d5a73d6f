-- ===== src/Agent/NetNs/Consistent.antt =====
-- With the file system unchanged since the last reset, the cache answers as `stat` does, and findLink
-- is the first link with the same fields and the same namespace id.
use bpfman_operator.Shared.{
  Bool, true, false, ◌&&◌, ℕ, String, Option, none, some, List, [], ◌∷◌, ◌==◌, nat_eq, string_eq,
  option_eq, if◌then◌else◌, ◌≡◌, refl, ap, sym, ◌∙◌, arith, All, Bool-cases, Option-cases, inl, inr,
  beq→eq, beq_refl,
}
use bpfman_operator.Api.Links.{Link}
use bpfman_operator.Agent.Bpfman.{netns_id_error, ok, err}
use bpfman_operator.Agent.Update.Matching.{find_index, shift}
use bpfman_operator.Agent.NetNs.{
  NetNsCache, lookup, net_ns_path, Stat, get_net_ns_id, find_by_netns, find_link, next,
}

module _ (stat : Stat) where
  -- Every entry is what `stat` answers.
  abbrev pub IsConsistent : NetNsCache → Type 0
  IsConsistent cache = All (λ (e : String × ℕ). stat e.0 ≡ some e.1) cache

  lookup-IsConsistent :
      (path : String) (cache : NetNsCache) (id : ℕ)
      → IsConsistent cache
      → lookup path cache ≡ some id
      → stat path ≡ some id
  lookup-IsConsistent path [] id c h = cc
  lookup-IsConsistent path ((key, id') ∷ cache) id c h = elim (Bool-cases (key == path)) [
    | inl e ↦ ap stat (sym (beq→eq key path e)) ∙ c.0 ∙ ground arith
    | inr e ↦ lookup-IsConsistent path cache id c.1 (rw e at h)
  ]

  -- The answer is `stat`'s, and the cache stays consistent.
  get_net_ns_id-eq :
      (path : String) (cache : NetNsCache)
      → IsConsistent cache
      → ((get_net_ns_id stat path cache).0 ≡ stat (net_ns_path path))
        × IsConsistent (get_net_ns_id stat path cache).1
  unfolding get_net_ns_id
  get_net_ns_id-eq path cache c = elim (Option-cases (lookup (net_ns_path path) cache)) [
    | inr (id, e) ↦ rw (e) (sym (lookup-IsConsistent (net_ns_path path) cache id c e), c)
    | inl e ↦ elim (Option-cases (stat (net_ns_path path))) [
      | inl f ↦ rw (e, f) (refl, c)
      | inr (id, f) ↦ rw (e, f) (refl, (f, c))
    ]
  ]

  -- The cache returns for a path the id that it returned before, whatever `stat` answers by then.
  pub get_net_ns_id-cached :
      (later : Stat) (path : String) (cache : NetNsCache) (id : ℕ)
      → (get_net_ns_id stat path cache).0 ≡ some id
      → get_net_ns_id later path (get_net_ns_id stat path cache).1
        ≡ (some id, (get_net_ns_id stat path cache).1)
  unfolding get_net_ns_id
  get_net_ns_id-cached later path cache id h =
      elim (Option-cases (lookup (net_ns_path path) cache)) [
        | inr (id', e) ↦ rw e (rw e (ground (arith, h)))
        | inl e ↦ elim (Option-cases (stat (net_ns_path path))) [
          | inl f ↦ ground (arith, h)
          | inr (id', f) ↦ rw (e, f) (rw (beq_refl (net_ns_path path)) (ground (arith, h)))
        ]
      ]

module _ {D : Type 0} (same_fields : D → D → Bool) (netns_path : D → String) (stat : Stat) where
  abbrev pub netns_id : D → Option ℕ
  netns_id d = stat (net_ns_path (netns_path d))

  abbrev is_some : Option ℕ → Bool
  is_some none = false
  is_some (some id) = true

  abbrev pub has_netns : D → Bool
  has_netns d = is_some (netns_id d)

  -- Same fields and same namespace, of a link whose namespace is known.
  abbrev pub same_link : D → D → Bool
  same_link new old = same_fields new old && netns_id old == netns_id new

  next_parts :
      (x : Option ℕ × NetNsCache)
      → ((next same_fields netns_path stat x).0 ≡ shift x.0)
        × ((next same_fields netns_path stat x).1 ≡ x.1)
  next_parts (none, cache) = (refl, refl)
  next_parts (some i, cache) = (refl, refl)

  find_by_netns-eq :
      (d : D) (id : ℕ) (links : List (Link D)) (cache : NetNsCache)
      → IsConsistent stat cache
      → ((find_by_netns same_fields netns_path stat d id links cache).0
          ≡ find_index
              (λ (old : Link D). same_fields d old.details && netns_id old.details == some id)
              links)
        × IsConsistent stat (find_by_netns same_fields netns_path stat d id links cache).1
  unfolding find_by_netns
  find_by_netns-eq d id [] cache c = (refl, c)
  find_by_netns-eq d id (a ∷ links) cache c = elim (Bool-cases (same_fields d a.details)) [
    | inl e ↦
        let (answer, c') = get_net_ns_id-eq stat (netns_path a.details) cache c in
        let (ih, c'') =
          find_by_netns-eq d id links (get_net_ns_id stat (netns_path a.details) cache).1 c' in
        elim (Bool-cases (netns_id a.details == some id)) [
          | inl f ↦ rw (e, answer, f, find_by_netns) (refl, c')
          | inr f ↦
              let x =
                find_by_netns same_fields netns_path stat d id links
                  (get_net_ns_id stat (netns_path a.details) cache).1 in
              let (p, q) = next_parts x in
              rw (e, answer, f, find_by_netns) (rw (p, q) (ap shift ih, c''))
        ]
    | inr e ↦
        let (ih, c') = find_by_netns-eq d id links cache c in
        let (p, q) = next_parts (find_by_netns same_fields netns_path stat d id links cache) in
        rw (e, find_by_netns) (rw (p, q) (ap shift ih, c'))
  ]

  -- findLink: an error if the namespace of the new link is not known, and else the first old link with
  -- the same fields and the same namespace.
  pub find_link-eq :
      (links : List (Link D)) (l : Link D) (cache : NetNsCache)
      → IsConsistent stat cache
      → ((find_link same_fields netns_path stat links l cache).0 ≡ (
          if has_netns l.details
          then ok (find_index (λ (old : Link D). same_link l.details old.details) links)
          else err (netns_id_error (netns_path l.details))))
        × IsConsistent stat (find_link same_fields netns_path stat links l cache).1
  unfolding find_link
  find_link-eq links l cache c =
      let (answer, c') = get_net_ns_id-eq stat (netns_path l.details) cache c in
      let cache' = (get_net_ns_id stat (netns_path l.details) cache).1 in
      elim (Option-cases (netns_id l.details)) [
        | inl f ↦ rw (answer, f, find_link) (refl, c')
        | inr (id, f) ↦
            let (p, c'') = find_by_netns-eq l.details id links cache' c' in
            rw (answer, f, find_link) (ap ok p, c'')
      ]

  pub same_link_refl :
      ((d : D) → same_fields d d ≡ true) → (d : D) → has_netns d ≡ true → same_link d d ≡ true
  same_link_refl fields d h = rw (fields d) (beq_refl (netns_id d))
