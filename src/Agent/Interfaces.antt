-- ===== src/Agent/Interfaces.antt =====
-- Which interfaces a link selects: getInterfaces, getDiscoveredInterfaces and their helpers in
-- controllers/bpfman-agent/common.go. Regular expressions, the discovered interfaces and the
-- node's primary interface are parameters.
pub mod Discovery
use Prim.Native.String.{◌++◌ as append}
use bpfman_operator.Shared.{
  Bool, true, false, not, ◌&&◌, ◌||◌, ℕ, String, Option, none, some, List, [], ◌∷◌, ◌++◌, ◌==◌,
  nat_eq, string_eq, length, ltb, contains, any, if◌then◌else◌, Eq, ◌≡◌, ◌↔◌, arith, beq_refl,
  beq→eq, refl, ap₂,
}
use bpfman_operator.Agent.Bpfman.{Error, no_interfaces_selected, Result, ok, err}
use bpfman_operator.Agent.Text.{trim, between_slashes}

pub record InterfaceDiscovery : Type 0 where
  pub interface_auto_discovery : Option Bool
  pub exclude_interfaces : List String
  pub allowed_interfaces : List String

pub record InterfaceSelector : Type 0 where
  pub interfaces_discovery_config : Option InterfaceDiscovery
  pub interfaces : List String
  pub primary_node_interface : Option Bool

-- `regexp.Compile` and `MatchString`.
pub record RegexpLib : Type 1 where
  pub Regexp : Type 0
  pub compile : String → Option Regexp
  pub match_string : Regexp → String → Bool

-- What the program reads of the library's `ifaces.Interface`.
pub record Interface : Type 0 where
  pub name : String
  pub ns_name : String

pub record DiscoveredInterface : Type 0 where
  pub interface_name : String
  pub net_ns_path : String

abbrev pub discovered_beq : DiscoveredInterface → DiscoveredInterface → Bool
discovered_beq a b = a.interface_name == b.interface_name && a.net_ns_path == b.net_ns_path

pub discovered_beq_iff : (a b : DiscoveredInterface) → (discovered_beq a b ≡ true) ↔ (a ≡ b)
discovered_beq_iff a b = ground (
  arith,
  string_eq.beq_iff a.interface_name b.interface_name,
  string_eq.beq_iff a.net_ns_path b.net_ns_path,
)

instance abbrev pub discovered_eq : Eq DiscoveredInterface
discovered_eq = record { beq = discovered_beq; beq_iff = discovered_beq_iff }

-- interfaceInExcludeList
unfoldable pub interface_in_exclude_list : InterfaceDiscovery → String → Bool
interface_in_exclude_list config intf = any (λ i. i == intf) config.exclude_interfaces

-- isInterfacesDiscoveryEnabled, of the selector's config.
unfoldable pub is_discovery_enabled : Option InterfaceDiscovery → Bool
is_discovery_enabled none = false
is_discovery_enabled (some config) = elim config.interface_auto_discovery [
  | none ↦ false
  | some b ↦ b
]

module _ (lib : RegexpLib) where
  open lib use {Regexp}

  abbrev add_regexp : Regexp → List Regexp × List String → List Regexp × List String
  add_regexp re (regexps, matches) = (re ∷ regexps, matches)

  abbrev add_match : String → List Regexp × List String → List Regexp × List String
  add_match definition (regexps, matches) = (regexps, definition ∷ matches)

  -- One definition: a text between slashes is compiled, any other stands for itself.
  abbrev classify :
      String → Option String → Option Regexp → List Regexp × List String → List Regexp × List String
  classify definition none compiled rest = add_match definition rest
  classify definition (some source) none rest = ([], [])
  classify definition (some source) (some re) rest = add_regexp re rest

  abbrev compile_source : Option String → Option Regexp
  compile_source none = none
  compile_source (some source) = lib.compile source

  -- setupAllowedInterfacesLists. A pattern that does not compile ends the loop.
  unfoldable pub setup_allowed_interfaces_lists : List String → List Regexp × List String
  unfolding trim between_slashes
  setup_allowed_interfaces_lists [] = ([], [])
  setup_allowed_interfaces_lists (definition ∷ definitions) =
      let rest = setup_allowed_interfaces_lists definitions in
      let source = between_slashes (trim definition) in
      classify (trim definition) source (compile_source source) rest

  -- interfaceInAllowedList
  unfoldable pub interface_in_allowed_list : String → List Regexp → List String → Bool
  interface_in_allowed_list intf regexps matches =
      if length regexps == 0 && length matches == 0
      then true
      else if any (λ re. lib.match_string re intf) regexps
      then true
      else any (λ n. n == intf) matches

  -- The path of a discovered interface's namespace.
  abbrev pub net_ns_path_of : String → String
  net_ns_path_of ns_name = if not (ns_name == "") then append "/run/netns/" ns_name else ""

  abbrev pub discovered : Interface → DiscoveredInterface
  discovered intf = record { interface_name = intf.name; net_ns_path = net_ns_path_of intf.ns_name }

  -- Whether an entry of the map is to be used.
  abbrev pub is_selected : InterfaceDiscovery → List Regexp → List String → Interface × Bool → Bool
  is_selected config regexps matches (intf, present) =
      present
      && (not (interface_in_exclude_list config intf.name)
          && interface_in_allowed_list intf.name regexps matches)

  -- The body of `Range` over the map's entries, in the order in which it gives them.
  discover :
      InterfaceDiscovery
      → List Regexp
      → List String
      → List DiscoveredInterface
      → List (Interface × Bool)
      → List DiscoveredInterface
  discover config regexps matches seen [] = []
  discover config regexps matches seen (entry ∷ entries) =
      let key = discovered entry.0 in
      let skip = discover config regexps matches seen entries in
      let take = key ∷ discover config regexps matches (key ∷ seen) entries in
      if is_selected config regexps matches entry
      then if not (contains key seen) then take else skip
      else skip

  -- getDiscoveredInterfaces
  unfoldable pub get_discovered_interfaces :
      InterfaceDiscovery → List (Interface × Bool) → List DiscoveredInterface
  unfolding discover setup_allowed_interfaces_lists interface_in_exclude_list
      interface_in_allowed_list
  get_discovered_interfaces config entries =
      let (regexps, matches) = setup_allowed_interfaces_lists config.allowed_interfaces in
      discover config regexps matches [] entries

abbrev one_interface : Result String → Result (List String)
one_interface (err e) = err e
one_interface (ok i) = ok (i ∷ [])

-- getInterfaces. The primary interface is used if the pointer is set, whatever it points to.
unfoldable pub get_interfaces : Result String → InterfaceSelector → Result (List String)
get_interfaces primary selector =
    if ltb 0 (length selector.interfaces)
    then ok selector.interfaces
    else elim selector.primary_node_interface [
      | some _ ↦ one_interface primary
      | none ↦ err no_interfaces_selected
    ]
