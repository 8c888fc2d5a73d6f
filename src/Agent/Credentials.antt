-- ===== src/Agent/Credentials.antt =====
-- Registry credentials in pull secrets: controllers/bpfman-agent/internal/auth.go. The base64 and JSON
-- libraries and the API server's secrets are parameters.
pub mod RoundTrip
use bpfman_operator.Shared.{
  Bool, true, false, ◌&&◌, String, Option, none, some, List, [], ◌∷◌, ◌==◌, string_eq,
  if◌then◌else◌, Dict, look_up, not, trim_space, has_last, split_two,
}

pub record ContainerConfigEntry : Type 0 where
  pub username : String
  pub password : String
  pub email : String

abbrev pub ContainerConfig : Type 0
ContainerConfig = Dict ContainerConfigEntry

pub record ContainerConfigEntryWithAuth : Type 0 where
  pub username : String
  pub password : String
  pub email : String
  pub auth : String

pub record Secret : Type 0 where
  pub secret_type : String
  pub contents : Dict String

-- base64.StdEncoding and RawStdEncoding; encoding/json, as far as UnmarshalJSON of the entries: the map
-- under "auths" of a ContainerConfigJSON, and a ContainerConfig.
pub record AuthLib : Type 0 where
  pub std_decode : String → Option String
  pub raw_std_decode : String → Option String
  pub unmarshal_auths : String → Option (Dict ContainerConfigEntryWithAuth)
  pub unmarshal_config : String → Option (Dict ContainerConfigEntryWithAuth)

module _ (lib : AuthLib) where
  abbrev pub split_decoded : Option String → Option (String × String)
  split_decoded none = none
  split_decoded (some decoded) = split_two b':' decoded

  abbrev pub decoded_field : String → Option String
  decoded_field field =
      if has_last b'=' (trim_space field) then lib.std_decode field else lib.raw_std_decode field

  -- decodeContainerConfigFieldAuth
  unfoldable pub decode_container_config_field_auth : String → Option (String × String)
  decode_container_config_field_auth field = split_decoded (decoded_field field)

  abbrev pub entry_of : Option (String × String) → Option ContainerConfigEntry
  entry_of none = none
  entry_of (some (username, password)) =
      some (record { username = username; password = password; email = "" })

  -- UnmarshalJSON
  unfoldable pub unmarshal_json : ContainerConfigEntryWithAuth → Option ContainerConfigEntry
  unfolding decode_container_config_field_auth
  unmarshal_json tmp =
      if tmp.auth == ""
      then some (record { username = ""; password = ""; email = "" })
      else entry_of (decode_container_config_field_auth tmp.auth)

  abbrev pub with_entry :
      String → Option ContainerConfigEntry → Option ContainerConfig → Option ContainerConfig
  with_entry key none rest = none
  with_entry key (some entry) none = none
  with_entry key (some entry) (some rest) = some ((key, entry) ∷ rest)

  abbrev pub entries : Dict ContainerConfigEntryWithAuth → Option ContainerConfig
  entries [] = some []
  entries ((key, tmp) ∷ m) = let rest = entries m in with_entry key (unmarshal_json tmp) rest

  -- json.Unmarshal, with the entries' own UnmarshalJSON.
  abbrev pub unmarshalled : Option (Dict ContainerConfigEntryWithAuth) → Option ContainerConfig
  unmarshalled none = none
  unmarshalled (some m) = entries m

  -- Data that is there and not empty.
  abbrev pub present : Option String → Option String
  present none = none
  present (some bytes) = if bytes == "" then none else some bytes

  abbrev pub of_type : Bool → Option String → Option String
  of_type is_type none = none
  of_type is_type (some bytes) = if is_type then some bytes else none

  abbrev pub docker_config_json : Secret → Option String
  docker_config_json s =
      of_type (s.secret_type == "kubernetes.io/dockerconfigjson")
        (present (look_up ".dockerconfigjson" s.contents))

  abbrev pub docker_config : Secret → Option String
  docker_config s =
      of_type (s.secret_type == "kubernetes.io/dockercfg")
        (present (look_up ".dockercfg" s.contents))

  -- A map that is nil, and the pointer to it is not, where the secret has neither.
  abbrev pub credentials : Option String → Option String → Option ContainerConfig
  credentials (some bytes) _ = unmarshalled (lib.unmarshal_auths bytes)
  credentials none (some bytes) = unmarshalled (lib.unmarshal_config bytes)
  credentials none none = some []

  abbrev pub secret_credentials : Option Secret → Option ContainerConfig
  secret_credentials none = none
  secret_credentials (some s) = credentials (docker_config_json s) (docker_config s)

  -- ParseAuth; `get_secret` reads by name and namespace.
  unfoldable pub parse_auth :
      ((name namespace : String) → Option Secret) → String → String → Option ContainerConfig
  unfolding unmarshal_json
  parse_auth get_secret name namespace = secret_credentials (get_secret name namespace)
