-- ===== src/Operator/Startup/Present.antt =====
-- What ensureDefaultConfig leaves.
use bpfman_operator.Shared.{Bool, true, String, ◌≡◌, ◌⊎◌, inl, inr, ap, refl}
use bpfman_operator.Operator.Config.{Config, Got, found, not_found, failed, ConfigApi}
use bpfman_operator.Operator.Startup.{config_name, default_config, ensured, ensure_default_config}

module _ (api : ConfigApi) (create_config : Config → api.Cluster → Bool × api.Cluster) where
  open api use {Cluster}

  -- A Config that is created can be read by its name.
  pub record IsCreating : Type 0 where
    pub created :
        (config : Config) (c c' : Cluster)
        → create_config config c ≡ (true, c')
        → api.get_config config.name c' ≡ found config

  module _ (laws : IsCreating) (bpfman_image bpfman_agent_image : String) where
    -- There was a Config and nothing is written, or there was none and the default one is there.
    abbrev pub IsPresent : Cluster → Got Config → Cluster → Type 0
    IsPresent c got c' =
        ((existing : Config) × (got ≡ found existing) × (c ≡ c'))
        ⊎ ((got ≡ not_found)
            × (api.get_config config_name c'
                ≡ found (default_config bpfman_image bpfman_agent_image)))

    ensured-IsPresent :
        (got : Got Config) (c c' : Cluster)
        → ensured api create_config got (default_config bpfman_image bpfman_agent_image) c
          ≡ (true, c')
        → IsPresent c got c'
    unfolding default_config
    ensured-IsPresent (found existing) c c' h = inl (existing, refl, ap (λ r. r.1) h)
    ensured-IsPresent not_found c c' h =
        inr (refl, laws.created (default_config bpfman_image bpfman_agent_image) c c' h)
    ensured-IsPresent failed c c' h = cc

    -- Where ensureDefaultConfig returns no error, either there was a Config, and nothing is written, or
    -- there was none, and the default one can be read afterwards.
    pub ensure_default_config-IsPresent :
        (c c' : Cluster)
        → ensure_default_config api create_config bpfman_image bpfman_agent_image c ≡ (true, c')
        → IsPresent c (api.get_config config_name c) c'
    unfolding ensure_default_config
    ensure_default_config-IsPresent c c' h = ensured-IsPresent (api.get_config config_name c) c c' h
