-- ===== src/Agent/Interfaces/Discovery.antt =====
-- Which interfaces getDiscoveredInterfaces returns.
use Prim.Native.String.{◌++◌ as append}
use bpfman_operator.Shared.{
  Bool, true, false, not, ◌||◌, Option, none, some, length, nat_eq, if◌then◌else◌, refl, ◌∙◌, ap₂,
  ◌&&◌, String, List, [], ◌∷◌, contains, string_eq, ◌==◌, any, ◌≡◌, ap, arith, Bool-cases, inl, inr,
  beq→eq, beq_refl,
}
use bpfman_operator.Agent.Text.{trim, between_slashes}
use bpfman_operator.Agent.Interfaces.{
  classify, compile_source, interface_in_allowed_list, interface_in_exclude_list,
  InterfaceDiscovery, RegexpLib, Interface, DiscoveredInterface, discovered_eq, discover,
  discovered, is_selected, setup_allowed_interfaces_lists, get_discovered_interfaces,
}

-- No entry occurs twice.
abbrev pub AreDistinct : List DiscoveredInterface → Type 0
AreDistinct [] = Unit
AreDistinct (i ∷ is) = (contains i is ≡ false) × AreDistinct is

module _ (lib : RegexpLib) where
  open lib use {Regexp}

  -- Whether an entry of the map selects `key`.
  abbrev selects :
      InterfaceDiscovery → List Regexp → List String → DiscoveredInterface → Interface × Bool → Bool
  selects config regexps matches key entry =
      is_selected lib config regexps matches entry && discovered lib entry.0 == key

  module _ (config : InterfaceDiscovery) (regexps : List Regexp) (matches : List String) where
    contains-discover :
        (seen : List DiscoveredInterface) (entries : List (Interface × Bool))
        (key : DiscoveredInterface)
        → contains key (discover lib config regexps matches seen entries)
          ≡ (not (contains key seen) && any (selects config regexps matches key) entries)
    unfolding discover
    contains-discover seen [] key = ground arith
    contains-discover seen (entry ∷ entries) key =
        let k = discovered lib entry.0 in
        let skip = contains-discover seen entries key in
        let take = contains-discover (k ∷ seen) entries key in
        elim (Bool-cases (k == key)) [
          | inl e ↦
              let p = beq→eq k key e in ground (arith, skip, take, ap (λ x. contains x seen) p, e)
          | inr e ↦ ground (arith, skip, take, e)
        ]

    distinct-discover :
        (seen : List DiscoveredInterface) (entries : List (Interface × Bool))
        → AreDistinct (discover lib config regexps matches seen entries)
    unfolding discover
    distinct-discover seen [] = tt
    distinct-discover seen (entry ∷ entries) =
        let k = discovered lib entry.0 in
        let skip = distinct-discover seen entries in
        let take = distinct-discover (k ∷ seen) entries in
        elim (Bool-cases (is_selected lib config regexps matches entry)) [
          | inr e ↦ rw e skip
          | inl e ↦ elim (Bool-cases (contains k seen)) [
            | inl f ↦ rw (e, f) skip
            | inr f ↦
                let again = contains-discover (k ∷ seen) entries k in
                rw (e, f) (ground (arith, again, beq_refl k), take)
          ]
        ]

  -- A definition names an interface: a pattern between slashes matches the name, any other text is it.
  abbrev names : String → String → Bool
  names intf definition = elim (between_slashes (trim definition)) [
    | none ↦ trim definition == intf
    | some source ↦ elim (lib.compile source) [ none ↦ false | some re ↦ lib.match_string re intf ]
  ]

  abbrev is_broken : String → Bool
  is_broken definition = elim (between_slashes (trim definition)) [
    | none ↦ false
    | some source ↦ elim (lib.compile source) [ none ↦ true | some re ↦ false ]
  ]

  -- The definitions before the first pattern that does not compile.
  abbrev usable : List String → List String
  usable [] = []
  usable (definition ∷ definitions) =
      let rest = usable definitions in if is_broken definition then [] else definition ∷ rest

  abbrev is_named : List String → String → Bool
  is_named definitions intf = length definitions == 0 || any (names intf) definitions

  -- Whether an entry of the map stands for `key` and is asked for: it is present, its name is not in the
  -- list of excluded ones, and there is no usable definition of an allowed one or some such names it.
  abbrev pub is_wanted : InterfaceDiscovery → DiscoveredInterface → Interface × Bool → Bool
  is_wanted config key (intf, present) =
      present
      && (not (contains intf.name config.exclude_interfaces)
          && (is_named (usable config.allowed_interfaces) intf.name
              && (intf.name == key.interface_name
                  && (if intf.ns_name == "" then "" else append "/run/netns/" intf.ns_name)
                    == key.net_ns_path)))

  abbrev any_of : List Regexp × List String → String → Bool
  any_of (regexps, matches) intf =
      any (λ re. lib.match_string re intf) regexps || any (λ n. n == intf) matches

  abbrev are_empty : List Regexp × List String → Bool
  are_empty (regexps, matches) = length regexps == 0 && length matches == 0

  classify-any :
      (intf definition : String) (definitions : List String) (source : Option String)
      (compiled : Option Regexp) (rest : List Regexp × List String)
      → between_slashes (trim definition) ≡ source
      → compile_source lib source ≡ compiled
      → any_of rest intf ≡ any (names intf) (usable definitions)
      → are_empty rest ≡ (length (usable definitions) == 0)
      → let out = classify lib (trim definition) source compiled rest in
        (any_of out intf ≡ any (names intf) (usable (definition ∷ definitions)))
        × (are_empty out ≡ (length (usable (definition ∷ definitions)) == 0))
  classify-any intf definition definitions none compiled (regexps, matches) e k h l =
      let sound : is_broken definition ≡ false = rw (e, is_broken) refl in
      let name : names intf definition ≡ (trim definition == intf) = rw (e, names) refl in
      (ground (arith, sound, name, h), ground (arith, sound, l))
  classify-any intf definition definitions (some source) none (regexps, matches) e k h l =
      let broken : is_broken definition ≡ true = rw (e, k, is_broken) refl in
      (ground (arith, broken), ground (arith, broken))
  classify-any intf definition definitions (some source) (some re) (regexps, matches) e k h l =
      let sound : is_broken definition ≡ false = rw (e, k, is_broken) refl in
      let name : names intf definition ≡ lib.match_string re intf = rw (e, k, names) refl in
      (ground (arith, sound, name, h), ground (arith, sound, l))

  allowed-any :
      (intf : String) (definitions : List String)
      → let out = setup_allowed_interfaces_lists lib definitions in
        (any_of out intf ≡ any (names intf) (usable definitions))
        × (are_empty out ≡ (length (usable definitions) == 0))
  unfolding setup_allowed_interfaces_lists
  allowed-any intf [] = (refl, refl)
  allowed-any intf (definition ∷ definitions) =
      let (h, l) = allowed-any intf definitions in
      classify-any intf definition definitions _ _ (setup_allowed_interfaces_lists lib definitions)
        refl refl h l

  allowed-is_named :
      (intf : String) (definitions : List String)
      → let (regexps, matches) = setup_allowed_interfaces_lists lib definitions in
        interface_in_allowed_list lib intf regexps matches ≡ is_named (usable definitions) intf
  unfolding interface_in_allowed_list
  allowed-is_named intf definitions =
      let (h, l) = allowed-any intf definitions in ground (arith, h, l)

  excluded-contains :
      (intf : String) (excluded : List String)
      → any (λ i. i == intf) excluded ≡ contains intf excluded
  excluded-contains intf [] = refl
  excluded-contains intf (i ∷ excluded) = ap (λ b. i == intf || b) (excluded-contains intf excluded)

  selects-is_wanted :
      (config : InterfaceDiscovery) (key : DiscoveredInterface) (entry : Interface × Bool)
      → let (regexps, matches) = setup_allowed_interfaces_lists lib config.allowed_interfaces in
        selects config regexps matches key entry ≡ is_wanted config key entry
  unfolding interface_in_exclude_list
  selects-is_wanted config key (intf, present) =
      let allowed = allowed-is_named intf.name config.allowed_interfaces in
      let excluded = excluded-contains intf.name config.exclude_interfaces in
      elim (Bool-cases (intf.ns_name == "")) [
        | inl e ↦ rw (allowed, excluded) (rw e (ground arith))
        | inr e ↦ rw (allowed, excluded) (rw e (ground arith))
      ]

  any-same :
      (p q : Interface × Bool → Bool) (entries : List (Interface × Bool))
      → ((entry : Interface × Bool) → p entry ≡ q entry)
      → any p entries ≡ any q entries
  any-same p q [] h = refl
  any-same p q (entry ∷ entries) h = ap₂ (λ a b. a || b) (h entry) (any-same p q entries h)

  -- An interface is returned exactly if an entry of the map stands for it that is present, whose name is
  -- not in the list of excluded ones, and which the list of allowed ones names, by a pattern or as it is;
  -- a list without a usable definition names all. Usable are the definitions before the first pattern
  -- that does not compile. None is returned twice.
  pub discovered_exactly :
      (config : InterfaceDiscovery) (entries : List (Interface × Bool))
      → ((key : DiscoveredInterface)
          → contains key (get_discovered_interfaces lib config entries)
            ≡ any (is_wanted config key) entries)
        × AreDistinct (get_discovered_interfaces lib config entries)
  unfolding get_discovered_interfaces
  discovered_exactly config entries =
      let (regexps, matches) = setup_allowed_interfaces_lists lib config.allowed_interfaces in
      (
        λ key.
            contains-discover config regexps matches [] entries key
            ∙ any-same (selects config regexps matches key) (is_wanted config key) entries
                (selects-is_wanted config key),
        distinct-discover config regexps matches [] entries,
      )
