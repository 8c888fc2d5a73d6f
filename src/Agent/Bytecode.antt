-- ===== src/Agent/Bytecode.antt =====
-- Where the daemon finds an application's bytecode: GetBytecode of
-- controllers/bpfman-agent/internal/bpfman_core.go. The image references are a library's.
pub mod Failures
use bpfman_operator.Shared.{
  Bool, true, false, ◌||◌, ℤ, pos, String, Option, none, some, List, [], ◌∷◌, ◌==◌, string_eq,
  if◌then◌else◌, look_up,
}
use bpfman_operator.Agent.Bpfman.{Result, ok, err, bytecode_error, BytecodeLocation, image, file}
use bpfman_operator.Agent.Credentials.{
  AuthLib, Secret, ContainerConfig, ContainerConfigEntry, parse_auth,
}

pub record ImagePullSecretSelector : Type 0 where
  pub name : String
  pub namespace : String

pub record ByteCodeImage : Type 0 where
  pub url : String
  pub image_pull_policy : String
  pub image_pull_secret : Option ImagePullSecretSelector

pub record ByteCodeSelector : Type 0 where
  pub image : Option ByteCodeImage
  pub path : Option String

-- imagePullPolicyConversion
unfoldable pub image_pull_policy_conversion : String → ℤ
image_pull_policy_conversion policy =
    if policy == "Always" then pos 0 else if policy == "Never" then pos 2 else pos 1

-- The key of a registry's domain in the credentials.
abbrev pub registry_key : String → String
registry_key domain =
    if domain == "docker.io" || domain == "" then "https://index.docker.io/v1/" else domain

-- `(*creds)[domain]`: the empty entry for a missing key.
abbrev pub user_and_password : Option ContainerConfigEntry → String × String
user_and_password none = ("", "")
user_and_password (some cred) = (cred.username, cred.password)

-- `parse_named` is reference.ParseNamed, with the domain of the reference.
module _ (lib : AuthLib) (parse_named : String → Option String)
    (get_secret : (name namespace : String) → Option Secret) where
  abbrev pub credentials_for : String → Option ContainerConfig → Option (String × String)
  credentials_for domain none = none
  credentials_for domain (some creds) =
      some (user_and_password (look_up (registry_key domain) creds))

  abbrev pub pull_credentials : String → Option ImagePullSecretSelector → Option (String × String)
  pull_credentials domain none = some ("", "")
  pull_credentials domain (some s) =
      credentials_for domain (parse_auth lib get_secret s.name s.namespace)

  abbrev pub located : ByteCodeImage → Option (String × String) → Result BytecodeLocation
  located b none = err bytecode_error
  located b (some (username, password)) =
      ok (image b.url (image_pull_policy_conversion b.image_pull_policy) username password)

  abbrev pub referred : ByteCodeImage → Option String → Result BytecodeLocation
  referred b none = err bytecode_error
  referred b (some domain) = located b (pull_credentials domain b.image_pull_secret)

  abbrev pub at_path : Option String → Option (Result BytecodeLocation)
  at_path none = none
  at_path (some path) = some (ok (file path))

  abbrev pub selected : Option String → Option ByteCodeImage → Option (Result BytecodeLocation)
  selected path none = at_path path
  selected path (some b) = some (referred b (parse_named b.url))

  -- GetBytecode; `none` where it dereferences a nil path.
  unfoldable pub get_bytecode : ByteCodeSelector → Option (Result BytecodeLocation)
  unfolding image_pull_policy_conversion parse_auth
  get_bytecode b = selected b.path b.image
