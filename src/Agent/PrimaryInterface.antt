-- ===== src/Agent/PrimaryInterface.antt =====
-- The node's primary interface: controllers/bpfman-agent/internal/iface.go. The host's interfaces and the
-- comparison of IP addresses are parameters.
pub mod Search
use bpfman_operator.Shared.{
  Bool, true, false, String, Option, none, some, List, [], ◌∷◌, ◌==◌, string_eq, if◌then◌else◌,
}

-- `net.Addr`, by its dynamic type, with the text of the IP.
pub data Addr : Type 0 where
  ip_addr : (text : String) → Addr
  ip_net : (ip : String) → Addr
  other_addr : Addr

-- `addrs` is `none` where Addrs fails.
pub record NetInterface : Type 0 where
  pub name : String
  pub addrs : Option (List Addr)

pub record NodeAddress : Type 0 where
  pub address_type : String
  pub address : String

-- `ip_equal` is `ip.Equal(net.ParseIP(address))`.
module _ (ip_equal : (ip address : String) → Bool) where
  abbrev pub is_address : String → Addr → Bool
  is_address address (ip_addr text) = address == text
  is_address address (ip_net ip) = ip_equal ip address
  is_address address other_addr = false

  -- The innermost loop.
  abbrev pub name_if_found : String → String → List Addr → Option String
  name_if_found address name [] = none
  name_if_found address name (a ∷ addrs) =
      let rest = name_if_found address name addrs in
      if is_address address a then some name else rest

  -- An interface whose addresses cannot be read is passed over.
  abbrev pub name_of_interface : String → String → Option (List Addr) → Option String
  name_of_interface address name none = none
  name_of_interface address name (some addrs) = name_if_found address name addrs

  abbrev pub or_else : Option String → Option String → Option String
  or_else none rest = rest
  or_else (some name) rest = some name

  abbrev pub among_interfaces : String → List NetInterface → Option String
  among_interfaces address [] = none
  among_interfaces address (i ∷ ifaces) =
      or_else (name_of_interface address i.name i.addrs) (among_interfaces address ifaces)

  unfoldable pub among_addresses : List NodeAddress → List NetInterface → Option String
  among_addresses [] ifaces = none
  among_addresses (a ∷ addresses) ifaces =
      let rest = among_addresses addresses ifaces in
      if a.address_type == "InternalIP"
      then or_else (among_interfaces a.address ifaces) rest
      else rest

  -- GetPrimaryNodeInterface; the interfaces are `none` where they cannot be read.
  unfoldable pub get_primary_node_interface :
      Option (List NetInterface) → List NodeAddress → Option String
  unfolding among_addresses
  get_primary_node_interface none addresses = none
  get_primary_node_interface (some ifaces) addresses = among_addresses addresses ifaces
