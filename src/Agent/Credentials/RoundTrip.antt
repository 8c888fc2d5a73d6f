-- ===== src/Agent/Credentials/RoundTrip.antt =====
-- What decodeContainerConfigFieldAuth reads of an encoded user name and password.
use Prim.Native.String.{◌++◌ as append}
use Prim.Native.String.append.{nil, cons}
use bpfman_operator.Shared.{
  true, false, String, some, trim_space, has_last, has_char, split_two, split_two-append, ◌≡◌, ap,
  ◌∙◌, Bool-cases, inl, inr,
}
use bpfman_operator.Agent.Credentials.{AuthLib, split_decoded, decode_container_config_field_auth}

-- An encoding that the base64 library reads: with padding by StdEncoding, without by RawStdEncoding.
pub record IsDecoded (lib : AuthLib) (encode : String → String) : Type 0 where
  pub padded :
      (s : String)
      → has_last b'=' (trim_space (encode s)) ≡ true
      → lib.std_decode (encode s) ≡ some s
  pub unpadded :
      (s : String)
      → has_last b'=' (trim_space (encode s)) ≡ false
      → lib.raw_std_decode (encode s) ≡ some s

module _ (lib : AuthLib) (encode : String → String) (laws : IsDecoded lib encode) where
  -- Of `username:password`, encoded with or without padding, decodeContainerConfigFieldAuth gives back the
  -- two, if the user name has no colon; the password may have some.
  pub decode_container_config_field_auth-encode :
      (username password : String)
      → has_char b':' username ≡ false
      → decode_container_config_field_auth lib (encode (append username (append ":" password)))
        ≡ some (username, password)
  unfolding decode_container_config_field_auth
  decode_container_config_field_auth-encode username password apart =
      let joined = append username (append ":" password) in
      let colon : append ":" password ≡ String.◌∷◌ ":" password =
        (λ i. cons ":" "" password i) ∙ ap (String.◌∷◌ ":") (λ i. nil password i) in
      let parts : split_two b':' joined ≡ some (username, password) =
        ap (λ t. split_two b':' (append username t)) colon
        ∙ split_two-append ":" username password apart in
      elim (Bool-cases (has_last b'=' (trim_space (encode joined)))) [
        | inl e ↦ rw e (ap (split_decoded lib) (laws.padded joined e) ∙ parts)
        | inr e ↦ rw e (ap (split_decoded lib) (laws.unpadded joined e) ∙ parts)
      ]
