-- ===== src/Examples/Credentials.antt =====
-- A pull secret, an image, and a node with two interfaces.
use Prim.Native.String.{◌++◌ as append}
use bpfman_operator.Shared.{
  pos, String, Option, none, some, List, [], ◌∷◌, ◌==◌, string_eq, keep, ◌≡◌, ◌↔◌, ◌⊎◌, refl,
}
use bpfman_operator.Agent.Bpfman.{Error, Result, ok, err, BytecodeLocation, image}
use bpfman_operator.Agent.Credentials.{AuthLib, Secret, decode_container_config_field_auth}
use bpfman_operator.Agent.Credentials.RoundTrip.{
  IsDecoded, decode_container_config_field_auth-encode,
}
use bpfman_operator.Agent.Bytecode.{ByteCodeImage, ByteCodeSelector, get_bytecode}
use bpfman_operator.Agent.Bytecode.Failures.{IsUnreadable, get_bytecode_iff}
use bpfman_operator.Agent.PrimaryInterface.{
  NetInterface, NodeAddress, ip_net, ip_addr, get_primary_node_interface, among_addresses,
}
use bpfman_operator.Agent.PrimaryInterface.Search.{
  is_internal, candidates, first_name, get_primary_node_interface-eq,
}

-- Texts that stand for themselves.
abbrev lib : AuthLib
lib = record {
  std_decode = λ s. some s;
  raw_std_decode = λ s. some s;
  unmarshal_auths = λ bytes.
      some (
        ("quay.io", record { username = "user"; password = "secret"; email = ""; auth = "" }) ∷ []);
  unmarshal_config = λ bytes. none;
}

lib-IsDecoded : IsDecoded lib (λ s. s)
lib-IsDecoded = record { padded = λ s padded. refl; unpadded = λ s unpadded. refl }

decode_container_config_field_auth-encode_example :
    decode_container_config_field_auth lib (append "user" (append ":" "pass:word"))
    ≡ some ("user", "pass:word")
decode_container_config_field_auth-encode_example =
    decode_container_config_field_auth-encode lib (λ s. s) lib-IsDecoded "user" "pass:word" refl

abbrev bytecode_image : ByteCodeImage
bytecode_image = record {
  url = "quay.io/bpfman-bytecode/go-xdp-counter";
  image_pull_policy = "Always";
  image_pull_secret = some (record { name = "pull"; namespace = "bpfman" });
}

abbrev selector : ByteCodeSelector
selector = record { image = some bytecode_image; path = none }

abbrev parse_named : String → Option String
parse_named url = some "quay.io"

abbrev get_secret : String → String → Option Secret
get_secret name namespace = some (record {
  secret_type = "kubernetes.io/dockerconfigjson";
  contents = (".dockerconfigjson", "{}") ∷ [];
})

get_bytecode_iff_example :
    ((r : Result BytecodeLocation) × (get_bytecode lib parse_named get_secret selector ≡ some r))
    × (((e : Error) × (get_bytecode lib parse_named get_secret selector ≡ some (err e))) ↔ (
        (parse_named bytecode_image.url ≡ none)
        ⊎ IsUnreadable lib parse_named get_secret bytecode_image.image_pull_secret))
get_bytecode_iff_example = get_bytecode_iff lib parse_named get_secret selector bytecode_image refl

-- An entry with a user name and a password, and without an `auth`, has no effect.
unused_password :
    get_bytecode lib parse_named get_secret selector
    ≡ some (ok (image "quay.io/bpfman-bytecode/go-xdp-counter" (pos 0) "" ""))
unfolding get_bytecode
unused_password = refl

abbrev interfaces : List NetInterface
interfaces =
    record { name = "lo"; addrs = some (ip_net "127.0.0.1" ∷ []) }
    ∷ record { name = "down"; addrs = none }
    ∷ record { name = "eth0"; addrs = some (ip_addr "10.0.0.1" ∷ ip_net "10.0.0.2" ∷ []) }
    ∷ []

abbrev addresses : List NodeAddress
addresses =
    record { address_type = "Hostname"; address = "127.0.0.1" }
    ∷ record { address_type = "InternalIP"; address = "10.0.0.2" }
    ∷ []

get_primary_node_interface-eq_example :
    get_primary_node_interface (λ ip address. ip == address) (some interfaces) addresses
    ≡ first_name (λ ip address. ip == address) (candidates (keep is_internal addresses) interfaces)
get_primary_node_interface-eq_example =
    get_primary_node_interface-eq (λ ip address. ip == address) addresses interfaces

primary :
    get_primary_node_interface (λ ip address. ip == address) (some interfaces) addresses
    ≡ some "eth0"
unfolding get_primary_node_interface among_addresses
primary = refl
