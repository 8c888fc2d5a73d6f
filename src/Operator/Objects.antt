-- ===== src/Operator/Objects.antt =====
-- The Kubernetes objects that the operator keeps for a Config: what controllers/bpfman-operator/config.go
-- reads or writes of them. `other` is the rest of a manifest that is read from a file.
use bpfman_operator.Shared.{
  Bool, ℕ, String, Option, List, Dict, Eq, eq_of_discrete, discrete_of_eq, nat_eq, string_eq,
}

-- What a read from the API server gives.
pub data Got (A : Type 0) : Type 0 where
  found : (value : A) → Got A
  not_found : Got A
  failed : Got A

pub data Kind : Type 0 where
  config_map csi_driver security_context_constraints daemon_set service service_monitor : Kind
  cluster_role_binding cluster_role role role_binding : Kind

pub record OwnerReference : Type 0 where
  pub kind : String
  pub name : String
  pub uid : String
  pub controller : Bool

pub record ObjectMeta : Type 0 where
  pub name : String
  pub namespace : String
  pub labels : Dict String
  pub annotations : Dict String
  pub owner_references : List OwnerReference
  pub resource_version : String

pub record VolumeMount : Type 0 where
  pub name : String
  pub mount_path : String
  pub read_only : Bool

pub record Container : Type 0 where
  pub name : String
  pub image : String
  pub image_pull_policy : String
  pub args : List String
  pub volume_mounts : List VolumeMount
  pub other : String

pub data VolumeSource : Type 0 where
  secret : (secret_name : String) → (default_mode : ℕ) → VolumeSource
  other_source : (text : String) → VolumeSource

pub record Volume : Type 0 where
  pub name : String
  pub source : VolumeSource

pub record PodSpec : Type 0 where
  pub automount_service_account_token : Option Bool
  pub init_containers : List Container
  pub containers : List Container
  pub volumes : List Volume
  pub other : String

-- `DaemonSetSpec`: the annotations and the spec of its template, and the rest.
pub record DaemonSetSpec : Type 0 where
  pub annotations : Dict String
  pub pod : PodSpec
  pub other : String

pub record ServicePort : Type 0 where
  pub name : String
  pub port : ℕ
  pub protocol : String
  pub target_port : String

pub record ServiceSpec : Type 0 where
  pub cluster_ip : String
  pub cluster_ips : List String
  pub ports : List ServicePort
  pub selector : Dict String

pub record TlsConfig : Type 0 where
  pub ca_file : String
  pub server_name : Option String
  pub insecure_skip_verify : Option Bool

pub record Endpoint : Type 0 where
  pub path : String
  pub port : String
  pub scheme : Option String
  pub bearer_token_file : String
  pub tls_config : Option TlsConfig

pub record ServiceMonitorSpec : Type 0 where
  pub endpoints : List Endpoint
  pub match_labels : Dict String

pub record PolicyRule : Type 0 where
  pub api_groups : List String
  pub resource_names : List String
  pub resources : List String
  pub verbs : List String

pub record RoleRef : Type 0 where
  pub api_group : String
  pub kind : String
  pub name : String

pub record Subject : Type 0 where
  pub kind : String
  pub name : String
  pub namespace : String

-- `RoleBinding` and `ClusterRoleBinding`.
pub record Binding : Type 0 where
  pub role_ref : RoleRef
  pub subjects : List Subject

pub record SecurityContextConstraints : Type 0 where
  pub allow_host_dir_volume_plugin : Bool
  pub allow_host_ipc : Bool
  pub allow_host_network : Bool
  pub allow_host_pid : Bool
  pub allow_host_ports : Bool
  pub allow_privilege_escalation : Option Bool
  pub allow_privileged_container : Bool
  pub required_drop_capabilities : List String
  pub run_as_user : String
  pub se_linux_context : String
  pub supplemental_groups : String
  pub fs_group : String
  pub volumes : List String

-- What an object of the kind has beside its metadata. A `CSIDriver` is read from a file.
abbrev pub Body : Kind → Type 0
Body config_map = Dict String
Body csi_driver = String
Body security_context_constraints = SecurityContextConstraints
Body daemon_set = DaemonSetSpec
Body service = ServiceSpec
Body service_monitor = ServiceMonitorSpec
Body cluster_role_binding = Binding
Body cluster_role = List PolicyRule
Body role = List PolicyRule
Body role_binding = Binding

pub record Object (k : Kind) : Type 0 where
  pub metadata : ObjectMeta
  pub body : Body k

unfoldable pub owner_reference-discrete : Discrete OwnerReference
owner_reference-discrete = hlevel (discrete_of_eq string_eq)

instance unfoldable pub owner_reference_eq : Eq OwnerReference
unfolding owner_reference-discrete
owner_reference_eq = eq_of_discrete owner_reference-discrete

unfoldable pub pod_spec-discrete : Discrete PodSpec
pod_spec-discrete = hlevel (discrete_of_eq nat_eq, discrete_of_eq string_eq)

instance unfoldable pub pod_spec_eq : Eq PodSpec
unfolding pod_spec-discrete
pod_spec_eq = eq_of_discrete pod_spec-discrete

unfoldable pub service_port-discrete : Discrete ServicePort
service_port-discrete = hlevel (discrete_of_eq nat_eq, discrete_of_eq string_eq)

instance unfoldable pub service_port_eq : Eq ServicePort
unfolding service_port-discrete
service_port_eq = eq_of_discrete service_port-discrete

unfoldable pub endpoint-discrete : Discrete Endpoint
endpoint-discrete = hlevel (discrete_of_eq string_eq)

instance unfoldable pub endpoint_eq : Eq Endpoint
unfolding endpoint-discrete
endpoint_eq = eq_of_discrete endpoint-discrete

unfoldable pub policy_rule-discrete : Discrete PolicyRule
policy_rule-discrete = hlevel (discrete_of_eq string_eq)

instance unfoldable pub policy_rule_eq : Eq PolicyRule
unfolding policy_rule-discrete
policy_rule_eq = eq_of_discrete policy_rule-discrete

unfoldable pub role_ref-discrete : Discrete RoleRef
role_ref-discrete = hlevel (discrete_of_eq string_eq)

instance unfoldable pub role_ref_eq : Eq RoleRef
unfolding role_ref-discrete
role_ref_eq = eq_of_discrete role_ref-discrete

unfoldable pub subject-discrete : Discrete Subject
subject-discrete = hlevel (discrete_of_eq string_eq)

instance unfoldable pub subject_eq : Eq Subject
unfolding subject-discrete
subject_eq = eq_of_discrete subject-discrete

unfoldable pub constraints-discrete : Discrete SecurityContextConstraints
constraints-discrete = hlevel (discrete_of_eq string_eq)

instance unfoldable pub constraints_eq : Eq SecurityContextConstraints
unfolding constraints-discrete
constraints_eq = eq_of_discrete constraints-discrete
