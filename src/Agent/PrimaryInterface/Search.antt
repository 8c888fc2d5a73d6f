-- ===== src/Agent/PrimaryInterface/Search.antt =====
-- The nested loops of GetPrimaryNodeInterface as one search.
use bpfman_operator.Shared.{
  Bool, String, Option, none, some, List, [], ◌∷◌, ◌++◌, ◌==◌, string_eq, if◌then◌else◌, any, map,
  keep, ◌≡◌, ap, refl, ◌∙◌, arith, Bool-cases, inl, inr,
}
use bpfman_operator.Agent.PrimaryInterface.{
  Addr, NetInterface, NodeAddress, is_address, name_if_found, name_of_interface, or_else,
  among_interfaces, among_addresses, get_primary_node_interface,
}

abbrev pub is_internal : NodeAddress → Bool
is_internal a = a.address_type == "InternalIP"

abbrev pub readable : Option (List Addr) → List Addr
readable none = []
readable (some addrs) = addrs

-- An internal address of the node with an interface: for each address, all interfaces.
abbrev pub candidates : List NodeAddress → List NetInterface → List (NodeAddress × NetInterface)
candidates [] ifaces = []
candidates (a ∷ addresses) ifaces = map (λ i. (a, i)) ifaces ++ candidates addresses ifaces

module _ (ip_equal : (ip address : String) → Bool) where
  abbrev pub has_address : NodeAddress × NetInterface → Bool
  has_address (a, i) = any (is_address ip_equal a.address) (readable i.addrs)

  -- The interface's name of the first candidate that has the address.
  abbrev pub first_name : List (NodeAddress × NetInterface) → Option String
  first_name [] = none
  first_name ((a, i) ∷ cs) =
      let rest = first_name cs in if has_address (a, i) then some i.name else rest

  found-any :
      (address name : String) (addrs : List Addr)
      → name_if_found ip_equal address name addrs
        ≡ (if any (is_address ip_equal address) addrs then some name else none)
  found-any address name [] = refl
  found-any address name (a ∷ addrs) = ground (arith, found-any address name addrs)

  interface-any :
      (address name : String) (addrs : Option (List Addr))
      → name_of_interface ip_equal address name addrs
        ≡ (if any (is_address ip_equal address) (readable addrs) then some name else none)
  interface-any address name none = refl
  interface-any address name (some addrs) = found-any address name addrs

  interfaces-first :
      (a : NodeAddress) (ifaces : List NetInterface) (cs : List (NodeAddress × NetInterface))
      → or_else ip_equal (among_interfaces ip_equal a.address ifaces) (first_name cs)
        ≡ first_name (map (λ i. (a, i)) ifaces ++ cs)
  interfaces-first a [] cs = refl
  interfaces-first a (i ∷ ifaces) cs =
      let rest = interfaces-first a ifaces cs in
      let here = interface-any a.address i.name i.addrs in
      elim (Bool-cases (has_address (a, i))) [
        | inl e ↦
            let named : name_of_interface ip_equal a.address i.name i.addrs ≡ some i.name =
              here ∙ (rw e refl) in
            rw named (rw e refl)
        | inr e ↦
            let unnamed : name_of_interface ip_equal a.address i.name i.addrs ≡ none =
              here ∙ (rw e refl) in
            rw unnamed (rw e rest)
      ]

  addresses-first :
      (addresses : List NodeAddress) (ifaces : List NetInterface)
      → among_addresses ip_equal addresses ifaces
        ≡ first_name (candidates (keep is_internal addresses) ifaces)
  unfolding among_addresses
  addresses-first [] ifaces = refl
  addresses-first (a ∷ addresses) ifaces =
      let rest = addresses-first addresses ifaces in
      elim (Bool-cases (is_internal a)) [
        | inl e ↦ rw e (
            ap (or_else ip_equal (among_interfaces ip_equal a.address ifaces)) rest
            ∙ interfaces-first a ifaces (candidates (keep is_internal addresses) ifaces))
        | inr e ↦ rw e rest
      ]

  -- Of the pairs of an internal address and an interface, the addresses in the node's order and for each
  -- the interfaces in the host's, GetPrimaryNodeInterface returns the interface of the first pair in which
  -- the interface has the address, and fails if there is none.
  pub get_primary_node_interface-eq :
      (addresses : List NodeAddress) (ifaces : List NetInterface)
      → get_primary_node_interface ip_equal (some ifaces) addresses
        ≡ first_name (candidates (keep is_internal addresses) ifaces)
  unfolding get_primary_node_interface
  get_primary_node_interface-eq addresses ifaces = addresses-first addresses ifaces
