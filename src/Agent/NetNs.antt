-- ===== src/Agent/NetNs.antt =====
-- Network namespace ids and their cache: ReconcilerNetNsCache of controllers/bpfman-agent/common.go,
-- and findLink of the kinds of program that compare links by it.
pub mod Consistent
use bpfman_operator.Shared.{
  Bool, true, false, ◌&&◌, ℕ, zero, suc, String, Option, none, some, List, [], ◌∷◌, ◌==◌, nat_eq,
  string_eq, option_eq, if◌then◌else◌,
}
use bpfman_operator.Api.Links.{Link}
use bpfman_operator.Agent.Bpfman.{Error, netns_id_error, Result, ok, err}

-- The map from paths to inode numbers.
abbrev pub NetNsCache : Type 0
NetNsCache = List (String × ℕ)

abbrev pub lookup : String → NetNsCache → Option ℕ
lookup path [] = none
lookup path ((key, id) ∷ cache) = if key == path then some id else lookup path cache

abbrev pub host_path : String
host_path = "/host/proc/1/ns/net"

abbrev pub net_ns_path : String → String
net_ns_path path = if path == "" then host_path else path

-- Reset
abbrev pub reset : NetNsCache
reset = []

-- `os.Stat` of a path, with the conversion of its result: `none` where either fails.
abbrev pub Stat : Type 0
Stat = String → Option ℕ

abbrev from_stat : String → Option ℕ → NetNsCache → Option ℕ × NetNsCache
from_stat path none cache = (none, cache)
from_stat path (some id) cache = (some id, (path, id) ∷ cache)

abbrev from_cache : Stat → String → Option ℕ → NetNsCache → Option ℕ × NetNsCache
from_cache stat path (some id) cache = (some id, cache)
from_cache stat path none cache = from_stat path (stat path) cache

-- GetNetNsId
unfoldable pub get_net_ns_id : Stat → String → NetNsCache → Option ℕ × NetNsCache
get_net_ns_id stat path cache =
    from_cache stat (net_ns_path path) (lookup (net_ns_path path) cache) cache

-- findLink of the XDP, TC and TCX reconcilers, which differ in the fields that they compare.
module _ {D : Type 0} (same_fields : D → D → Bool) (netns_path : D → String) (stat : Stat) where
  abbrev next : Option ℕ × NetNsCache → Option ℕ × NetNsCache
  next (none, cache) = (none, cache)
  next (some i, cache) = (some (suc i), cache)

  -- The loop. The old link's id is looked up only if the fields agree.
  find_by_netns : D → ℕ → List (Link D) → NetNsCache → Option ℕ × NetNsCache
  find_by_netns d id [] cache = (none, cache)
  find_by_netns d id (a ∷ links) cache = elim (same_fields d a.details) [
    | false ↦ next (find_by_netns d id links cache)
    | true ↦
        let (old, cache') = get_net_ns_id stat (netns_path a.details) cache in
        elim (old == some id) [
          | true ↦ (some 0, cache')
          | false ↦ next (find_by_netns d id links cache')
        ]
  ]

  abbrev found : (Option ℕ × NetNsCache) → Result (Option ℕ) × NetNsCache
  found (i, cache) = (ok i, cache)

  abbrev with_id : D → Option ℕ → List (Link D) → NetNsCache → Result (Option ℕ) × NetNsCache
  with_id d none links cache = (err (netns_id_error (netns_path d)), cache)
  with_id d (some id) links cache = found (find_by_netns d id links cache)

  unfoldable pub find_link : List (Link D) → Link D → NetNsCache → Result (Option ℕ) × NetNsCache
  unfolding find_by_netns get_net_ns_id
  find_link links link cache =
      let (id, cache') = get_net_ns_id stat (netns_path link.details) cache in
      with_id link.details id links cache'
