-- ===== src/Operator/Config/DaemonSets.antt =====
-- The two DaemonSets, configured from the Config: configureBpfmanDs, configureMetricsProxyDs,
-- copyImagePullPolicy and healthProbeAddress of controllers/bpfman-operator/config.go.
pub mod Restarts
pub mod Policies
use Prim.Native.String.{◌++◌ as append}
use text.Mathlib.Text.{find?}
use bpfman_operator.Shared.{
  Bool, true, false, not, ◌&&◌, ◌||◌, ℕ, ℤ, pos, negsuc, String, Option, none, some, List, [], ◌∷◌,
  ◌++◌, map, ◌==◌, nat_eq, string_eq, ltb, if◌then◌else◌, Dict, put_all, maps_equal,
}
use bpfman_operator.Agent.Text.{int32_string}
use bpfman_operator.Operator.Objects.{
  Kind, daemon_set, Object, Container, VolumeMount, VolumeSource, secret, Volume, PodSpec,
  pod_spec_eq, DaemonSetSpec,
}
use bpfman_operator.Operator.Config.{Config}

-- healthProbeAddress. Of a port in range, `%d` has five digits at most.
unfoldable pub health_probe_address : ℤ → String
unfolding int32_string
health_probe_address (negsuc n) = ""
health_probe_address (pos n) =
    if n == 0 || ltb 65535 n then "" else append ":" (int32_string (pos n))

-- `strings.Contains`
abbrev has_text : Option ℕ → Bool
has_text none = false
has_text (some i) = true

abbrev pub probe_argument : String → String → String
probe_argument address arg =
    if has_text (find? arg "health-probe-bind-address")
    then append "--health-probe-bind-address=" address
    else arg

abbrev pub probe_arguments : String → List String → List String
probe_arguments address args = if address == "" then args else map (probe_argument address) args

-- The body of the loop over the init containers.
abbrev pub configure_init_container : Config → Container → Container
configure_init_container config c =
    if c.name == "mount-bpffs" then record c { image = config.agent.image } else c

-- The switch in the loop over the containers.
abbrev pub configure_container : Config → String → Container → Container
configure_container config address c =
    if c.name == "bpfman"
    then record c { image = config.daemon.image }
    else if c.name == "bpfman-agent"
    then record c { image = config.agent.image; args = probe_arguments address c.args }
    else if c.name == "node-driver-registrar"
    then (if config.daemon.csi_registrar_image == ""
        then c
        else record c { image = config.daemon.csi_registrar_image })
    else c

-- BPFMAN_IMAGE_PULL_POLICY, unless it is empty.
abbrev pub with_pull_policy : String → Container → Container
with_pull_policy policy c = if policy == "" then c else record c { image_pull_policy = policy }

abbrev pub new_annotations : Config → Dict String
new_annotations config =
    ("bpfman.io.bpfman.log.level", config.daemon.log_level)
    ∷ ("bpfman.io.bpfman.agent.log.level", config.agent.log_level)
    ∷ ("bpfman.io.bpfman.toml", config.configuration)
    ∷ []

-- configureBpfmanDs. `policy` is the value of BPFMAN_IMAGE_PULL_POLICY.
unfoldable pub configure_bpfman_ds :
    (policy : String) → Config → Object daemon_set → Object daemon_set
unfolding health_probe_address
configure_bpfman_ds policy config ds = record {
  metadata = record ds.metadata { name = "bpfman-daemon"; namespace = config.namespace };
  body = record {
    annotations = put_all (new_annotations config) ds.body.annotations;
    pod = record ds.body.pod {
      automount_service_account_token = some true;
      init_containers =
          map (λ (c : Container). with_pull_policy policy (configure_init_container config c))
            ds.body.pod.init_containers;
      containers =
          map
            (λ (c : Container).
              with_pull_policy policy (
                configure_container config (health_probe_address config.agent.health_probe_port) c))
            ds.body.pod.containers;
    };
    other = ds.body.other;
  };
}

abbrev tls_mount : VolumeMount
tls_mount = record {
  name = "agent-metrics-tls";
  mount_path = "/tmp/k8s-webhook-server/serving-certs";
  read_only = true;
}

abbrev tls_volume : Volume
tls_volume = record { name = "agent-metrics-tls"; source = secret "agent-metrics-tls" 420 }

abbrev configure_proxy_container : Config → Bool → Container → Container
configure_proxy_container config is_openshift c =
    if c.name == "metrics-proxy"
    then record c {
      image = config.agent.image;
      volume_mounts = if is_openshift then c.volume_mounts ++ tls_mount ∷ [] else c.volume_mounts;
    }
    else c

abbrev proxy_annotations : Bool → Dict String
proxy_annotations is_openshift =
    if is_openshift
    then ("service.beta.openshift.io/serving-cert-secret-name", "agent-metrics-tls") ∷ []
    else []

-- configureMetricsProxyDs
unfoldable pub configure_metrics_proxy_ds :
    (policy : String) → Config → Bool → Object daemon_set → Object daemon_set
configure_metrics_proxy_ds policy config is_openshift ds = record {
  metadata = record ds.metadata { name = "bpfman-metrics-proxy"; namespace = config.namespace };
  body = record {
    annotations = put_all (proxy_annotations is_openshift) ds.body.annotations;
    pod = record ds.body.pod {
      automount_service_account_token = some true;
      containers =
          map
            (λ (c : Container).
              with_pull_policy policy (configure_proxy_container config is_openshift c))
            ds.body.pod.containers;
      volumes =
          if is_openshift then ds.body.pod.volumes ++ tls_volume ∷ [] else ds.body.pod.volumes;
    };
    other = ds.body.other;
  };
}

abbrev pub with_policy_of : Container → Container → Container
with_policy_of src dst =
    if dst.image_pull_policy == ""
    then record dst { image_pull_policy = src.image_pull_policy }
    else dst

-- One of the loops of copyImagePullPolicy.
abbrev pub copy_policies : List Container → List Container → List Container
copy_policies src [] = []
copy_policies [] (d ∷ dst) = d ∷ dst
copy_policies (s ∷ src) (d ∷ dst) = with_policy_of s d ∷ copy_policies src dst

-- copyImagePullPolicy
unfoldable pub copy_image_pull_policy : PodSpec → PodSpec → PodSpec
copy_image_pull_policy src dst = record dst {
  init_containers = copy_policies src.init_containers dst.init_containers;
  containers = copy_policies src.containers dst.containers;
}

-- `equality.Semantic.DeepEqual` on the specs.
abbrev pub specs_equal : DaemonSetSpec → DaemonSetSpec → Bool
specs_equal a b = maps_equal a.annotations b.annotations && (a.pod == b.pod && a.other == b.other)

abbrev pub differs : Object daemon_set → Object daemon_set → Bool × Object daemon_set
differs existing desired = (not (specs_equal existing.body desired.body), desired)

-- What both DaemonSets give assureResource to compare by.
unfoldable pub daemon_set_needs_update :
    Object daemon_set → Object daemon_set → Bool × Object daemon_set
unfolding copy_image_pull_policy
daemon_set_needs_update existing desired = differs existing (record desired {
  body = record desired.body { pod = copy_image_pull_policy existing.body.pod desired.body.pod };
})
