-- ===== src/Agent/Bytecode/Failures.antt =====
-- When GetBytecode fails.
use bpfman_operator.Shared.{
  Bool, true, false, not, ◌≢◌, ◌||◌, subst, ◌==◌, string_eq, any, Dict, look_up, [], ◌∷◌,
  Option-cases, Bool-cases, arith, sym, String, Option, none, some, ◌≡◌, ◌↔◌, ◌⊎◌, inl, inr, ap,
  refl, ◌∙◌,
}
use bpfman_operator.Agent.Bpfman.{Result, err, bytecode_error, BytecodeLocation, Error}
use bpfman_operator.Agent.Credentials.{
  AuthLib, Secret, ContainerConfig, ContainerConfigEntry, ContainerConfigEntryWithAuth, parse_auth,
  unmarshal_json, decode_container_config_field_auth, entries, unmarshalled, with_entry,
  secret_credentials, credentials, docker_config, docker_config_json, of_type, present,
}
use bpfman_operator.Agent.Bytecode.{
  ImagePullSecretSelector, ByteCodeImage, ByteCodeSelector, credentials_for, pull_credentials,
  located, referred, selected, get_bytecode,
}

different : (b : Bool) → b ≡ true → b ≡ false → ⊥
different b h k = cc

module _ (lib : AuthLib) (parse_named : String → Option String)
    (get_secret : (name namespace : String) → Option Secret) where
  -- The base64 text of an entry is no user name and password.
  abbrev is_bad_entry : String × ContainerConfigEntryWithAuth → Bool
  is_bad_entry (key, tmp) = elim (decode_container_config_field_auth lib tmp.auth) [
    | none ↦ not (tmp.auth == "")
    | some (username, password) ↦ false
  ]

  -- The text is no map of entries, or one of the entries is bad.
  abbrev IsBad : Option (Dict ContainerConfigEntryWithAuth) → Type 0
  IsBad none = Unit
  IsBad (some m) = any is_bad_entry m ≡ true

  -- The secret is of the type, and has text that is not empty under the key.
  abbrev HasData : String → String → Secret → String → Type 0
  HasData secret_type key secret text =
      (secret.secret_type ≡ secret_type) × (look_up key secret.contents ≡ some text) × (text ≢ "")

  -- The pull secret is not there, or it is of one of the two types of Docker's credentials and what it has
  -- under that type's key cannot be decoded.
  abbrev pub IsUnreadableSecret : Option Secret → Type 0
  IsUnreadableSecret none = Unit
  IsUnreadableSecret (some secret) =
      ((text : String) × HasData "kubernetes.io/dockerconfigjson" ".dockerconfigjson" secret text
        × IsBad (lib.unmarshal_auths text))
      ⊎ ((text : String) × HasData "kubernetes.io/dockercfg" ".dockercfg" secret text
          × IsBad (lib.unmarshal_config text))

  abbrev pub IsUnreadable : Option ImagePullSecretSelector → Type 0
  IsUnreadable none = ⊥
  IsUnreadable (some s) = IsUnreadableSecret (get_secret s.name s.namespace)

  bad_entry_iff :
      (key : String) (tmp : ContainerConfigEntryWithAuth)
      → (unmarshal_json lib tmp ≡ none) ↔ (is_bad_entry (key, tmp) ≡ true)
  unfolding unmarshal_json
  bad_entry_iff key tmp = elim (Option-cases (decode_container_config_field_auth lib tmp.auth)) [
    | inl e ↦ elim (Bool-cases (tmp.auth == "")) [
      | inl unset ↦ rw (e, unset, unmarshal_json, is_bad_entry) (λ h. cc, λ h. cc)
      | inr set ↦ rw (e, set, unmarshal_json, is_bad_entry) (λ _. refl, λ _. refl)
    ]
    | inr (pair, e) ↦ elim (Bool-cases (tmp.auth == "")) [
      | inl unset ↦ rw (e, unset, unmarshal_json, is_bad_entry) (λ h. cc, λ h. cc)
      | inr set ↦ rw (e, set, unmarshal_json, is_bad_entry) (λ h. cc, λ h. cc)
    ]
  ]

  with_entry_iff :
      (key : String) (entry : Option ContainerConfigEntry) (rest : Option ContainerConfig)
      → (with_entry lib key entry rest ≡ none) ↔ ((entry ≡ none) ⊎ (rest ≡ none))
  with_entry_iff key none rest = (λ _. inl refl, λ _. refl)
  with_entry_iff key (some entry) none = (λ _. inr refl, λ _. refl)
  with_entry_iff key (some entry) (some rest) = (λ h. cc, λ h. elim h [ inl e ↦ cc | inr e ↦ cc ])

  or_iff : (a b : Bool) → ((a ≡ true) ⊎ (b ≡ true)) ↔ ((a || b) ≡ true)
  or_iff a b = ground arith

  entries_iff :
      (m : Dict ContainerConfigEntryWithAuth) → (entries lib m ≡ none) ↔ (any is_bad_entry m ≡ true)
  entries_iff [] = (λ h. cc, λ h. cc)
  entries_iff ((key, tmp) ∷ m) =
      let (forth, back) = bad_entry_iff key tmp in
      let (forth', back') = entries_iff m in
      let (split, join) = with_entry_iff key (unmarshal_json lib tmp) (entries lib m) in
      let (bad, some_bad) = or_iff (is_bad_entry (key, tmp)) (any is_bad_entry m) in
      (
        λ h. bad (elim (split h) [ inl e ↦ inl (forth e) | inr e ↦ inr (forth' e) ]),
        λ h. join (elim (some_bad h) [ inl e ↦ inl (back e) | inr e ↦ inr (back' e) ]),
      )

  unmarshalled_iff :
      (m : Option (Dict ContainerConfigEntryWithAuth)) → (unmarshalled lib m ≡ none) ↔ IsBad m
  unmarshalled_iff none = (λ _. tt, λ _. refl)
  unmarshalled_iff (some m) = entries_iff m

  of_type_iff :
      (secret_type key : String) (secret : Secret) (text : String)
      → (of_type lib (secret.secret_type == secret_type) (present lib (look_up key secret.contents))
          ≡ some text)
        ↔ HasData secret_type key secret text
  of_type_iff secret_type key secret text = elim (Option-cases (look_up key secret.contents)) [
    | inl e ↦ rw e (λ h. cc, λ (a, b, full). cc)
    | inr (x, e) ↦
        let (empty, _) = string_eq.beq_iff x "" in
        let (is_type, type_is) = string_eq.beq_iff secret.secret_type secret_type in
        let (_, beq_empty) = string_eq.beq_iff x "" in
        elim (Bool-cases (x == "")) [
          | inl k ↦
              rw (e, k)
                (
                  λ h. cc,
                  λ (a, b, full). absurd (full ((let same : x ≡ text = cc in sym same) ∙ empty k)),
                )
          | inr k ↦ elim (Bool-cases (secret.secret_type == secret_type)) [
            | inl t ↦
                rw (e, k, t)
                  (
                    λ h. (
                      is_type t,
                      h,
                      λ none_there.
                          (let same : x ≡ text = cc in
                            let clash : true ≡ false = sym (beq_empty (same ∙ none_there)) ∙ k in
                            cc),
                    ),
                    λ (a, b, full). b,
                  )
            | inr t ↦
                rw (e, k, t)
                  (λ h. cc, λ (a, b, full). (let clash : true ≡ false = sym (type_is a) ∙ t in cc))
          ]
        ]
  ]

  abbrev HasJson : Secret → String → Type 0
  HasJson = HasData "kubernetes.io/dockerconfigjson" ".dockerconfigjson"

  abbrev HasConfig : Secret → String → Type 0
  HasConfig = HasData "kubernetes.io/dockercfg" ".dockercfg"

  not-both : (secret : Secret) (t t' : String) → HasJson secret t → HasConfig secret t' → ⊥
  not-both secret t t' (json, there, full) (config, there', full') =
      different (string_eq.beq "kubernetes.io/dockerconfigjson" "kubernetes.io/dockercfg")
        ((string_eq.beq_iff "kubernetes.io/dockerconfigjson" "kubernetes.io/dockercfg").1
          (sym json ∙ config))
        refl

  credentials_iff :
      (secret : Secret) (j c : Option String)
      → ((t : String) → (j ≡ some t) ↔ HasJson secret t)
      → ((t : String) → (c ≡ some t) ↔ HasConfig secret t)
      → (credentials lib j c ≡ none) ↔ IsUnreadableSecret (some secret)
  credentials_iff secret (some t) c js cs = (
    λ h. inl (t, (js t).0 refl, (unmarshalled_iff (lib.unmarshal_auths t)).0 h),
    λ h. elim h [
      | inl (t', has, bad) ↦
          let same : some t ≡ some t' = (js t').1 has in
          let same' : t ≡ t' = cc in
          (unmarshalled_iff (lib.unmarshal_auths t)).1
            (subst (λ x. IsBad (lib.unmarshal_auths x)) (sym same') bad)
      | inr (t', has, bad) ↦ absurd (not-both secret t t' ((js t).0 refl) has)
    ],
  )
  credentials_iff secret none (some t) js cs = (
    λ h. inr (t, (cs t).0 refl, (unmarshalled_iff (lib.unmarshal_config t)).0 h),
    λ h. elim h [
      | inl (t', has, bad) ↦ absurd (not-both secret t' t has ((cs t).0 refl))
      | inr (t', has, bad) ↦
          let same : some t ≡ some t' = (cs t').1 has in
          let same' : t ≡ t' = cc in
          (unmarshalled_iff (lib.unmarshal_config t)).1
            (subst (λ x. IsBad (lib.unmarshal_config x)) (sym same') bad)
    ],
  )
  credentials_iff secret none none js cs = (
    λ h. cc,
    λ h. elim h [
      | inl (t, has, bad) ↦ (let no : none ≡ some t = (js t).1 has in cc)
      | inr (t, has, bad) ↦ (let no : none ≡ some t = (cs t).1 has in cc)
    ],
  )

  secret_iff :
      (secret : Option Secret) → (secret_credentials lib secret ≡ none) ↔ IsUnreadableSecret secret
  secret_iff none = (λ _. tt, λ _. refl)
  secret_iff (some secret) =
      credentials_iff secret (docker_config_json lib secret) (docker_config lib secret)
        (of_type_iff "kubernetes.io/dockerconfigjson" ".dockerconfigjson" secret)
        (of_type_iff "kubernetes.io/dockercfg" ".dockercfg" secret)

  parse_auth_iff :
      (name namespace : String)
      → (parse_auth lib get_secret name namespace ≡ none)
        ↔ IsUnreadableSecret (get_secret name namespace)
  unfolding parse_auth
  parse_auth_iff name namespace = secret_iff (get_secret name namespace)

  credentials_for_iff :
      (domain : String) (creds : Option ContainerConfig)
      → (credentials_for lib parse_named get_secret domain creds ≡ none) ↔ (creds ≡ none)
  credentials_for_iff domain none = (λ _. refl, λ _. refl)
  credentials_for_iff domain (some creds) = (λ h. cc, λ h. cc)

  pull_credentials_iff :
      (domain : String) (s : Option ImagePullSecretSelector)
      → (pull_credentials lib parse_named get_secret domain s ≡ none) ↔ IsUnreadable s
  pull_credentials_iff domain none = (λ h. cc, λ h. elim h [ ])
  pull_credentials_iff domain (some s) =
      let (forth, back) =
        credentials_for_iff domain (parse_auth lib get_secret s.name s.namespace) in
      let (forth', back') = parse_auth_iff s.name s.namespace in
      (λ h. forth' (forth h), λ h. back (back' h))

  located_iff :
      (i : ByteCodeImage) (creds : Option (String × String))
      → ((e : Error) × (located lib parse_named get_secret i creds ≡ err e)) ↔ (creds ≡ none)
  located_iff i none = (λ _. refl, λ _. (bytecode_error, refl))
  located_iff i (some (username, password)) = (λ (e, h). cc, λ h. cc)

  referred_iff :
      (i : ByteCodeImage) (domain : Option String)
      → ((e : Error) × (referred lib parse_named get_secret i domain ≡ err e))
        ↔ ((domain ≡ none) ⊎ IsUnreadable i.image_pull_secret)
  referred_iff i none = (λ _. inl refl, λ _. (bytecode_error, refl))
  referred_iff i (some domain) =
      let creds = pull_credentials lib parse_named get_secret domain i.image_pull_secret in
      let known = pull_credentials_iff domain i.image_pull_secret in
      let fails = located_iff i creds in
      (
        λ h. inr (known.0 (fails.0 h)),
        λ h. elim h [
          | inl e ↦ (let d : some domain ≡ none = e in cc)
          | inr u ↦ fails.1 (known.1 u)
        ],
      )

  -- For an image GetBytecode returns, and with an error exactly if its URL is no reference, or it has a
  -- pull secret that is not there, or that is of one of the two types of Docker's credentials and has text
  -- under that type's key that is no map of entries or has an entry whose base64 text is no user name and
  -- password; not if the secret has no credentials, or none for the registry.
  pub get_bytecode_iff :
      (b : ByteCodeSelector) (i : ByteCodeImage)
      → b.image ≡ some i
      → ((r : Result BytecodeLocation) × (get_bytecode lib parse_named get_secret b ≡ some r))
        × (((e : Error) × (get_bytecode lib parse_named get_secret b ≡ some (err e)))
            ↔ ((parse_named i.url ≡ none) ⊎ IsUnreadable i.image_pull_secret))
  unfolding get_bytecode
  get_bytecode_iff b i has_image =
      let known = referred_iff i (parse_named i.url) in
      let r = referred lib parse_named get_secret i (parse_named i.url) in
      let given : get_bytecode lib parse_named get_secret b ≡ some r =
        ap (selected lib parse_named get_secret b.path) has_image in
      (
        (r, given),
        (
          λ (e, h). known.0 (e, (let same : r ≡ err e = cc in same)),
          λ cause. (let (e, h) = known.1 cause in (e, given ∙ ap some h)),
        ),
      )
