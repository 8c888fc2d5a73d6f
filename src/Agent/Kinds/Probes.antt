-- ===== src/Agent/Kinds/Probes.antt =====
-- Kprobe, kretprobe, tracepoint, fentry and fexit programs, which only a ClusterBpfApplication has:
-- controllers/bpfman-agent/cl_{kprobe,kretprobe,tracepoint,fentry,fexit}_program.go.
use bpfman_operator.Shared.{
  Bool, true, ◌&&◌, ℤ, int_eq, uint64_of, String, none, some, List, [], ◌∷◌, ◌==◌, string_eq, ◌≡◌,
  refl, beq_refl,
}
use bpfman_operator.Api.Links.{Link}
use bpfman_operator.Agent.Bpfman.{
  Result, ok, BpfmanProgramType, AttachInfo, kprobe_attach_info, tracepoint_attach_info,
  fentry_attach_info, fexit_attach_info, LoadInfo,
}
use bpfman_operator.Agent.Update.{LinkSource}
use bpfman_operator.Agent.Update.Matching.{Matching}
use bpfman_operator.Agent.Kinds.{AgentEnv, AgentState}
use bpfman_operator.Agent.Kinds.Plain.{plain_source, plain_matching}

-- The fields of `ClKprobeAttachInfo`, and of `ClKprobeAttachInfoState` beside the common ones.
pub record KprobeDetails : Type 0 where
  pub function : String
  pub offset : ℤ

pub record KretprobeDetails : Type 0 where
  pub function : String

pub record TracepointDetails : Type 0 where
  pub name : String

-- A fentry or fexit link has no fields of its own.
pub data NoDetails : Type 0 where
  no_details : NoDetails

-- The fields that findLink compares.
unfoldable pub kprobe_same_fields : KprobeDetails → KprobeDetails → Bool
kprobe_same_fields a b = a.function == b.function && a.offset == b.offset

unfoldable pub kretprobe_same_fields : KretprobeDetails → KretprobeDetails → Bool
kretprobe_same_fields a b = a.function == b.function

unfoldable pub tracepoint_same_fields : TracepointDetails → TracepointDetails → Bool
tracepoint_same_fields a b = a.name == b.name

-- findLink of fentry and fexit takes the first link that there is.
unfoldable pub fentry_same_fields : NoDetails → NoDetails → Bool
fentry_same_fields a b = true

pub kprobe_same_fields_refl : (d : KprobeDetails) → kprobe_same_fields d d ≡ true
unfolding kprobe_same_fields
kprobe_same_fields_refl d = rw (beq_refl d.function, beq_refl d.offset)

-- getExpectedLinks: one link with the entry's fields.
unfoldable pub one_expected : {D : Type 0} → D → Result (List D)
one_expected d = ok (d ∷ [])

module _ (env : AgentEnv) where
  unfoldable pub kprobe_source : LinkSource AgentState KprobeDetails KprobeDetails
  unfolding kprobe_same_fields one_expected
  kprobe_source = plain_source kprobe_same_fields env one_expected

  unfoldable pub kretprobe_source : LinkSource AgentState KretprobeDetails KretprobeDetails
  unfolding kretprobe_same_fields one_expected
  kretprobe_source = plain_source kretprobe_same_fields env one_expected

  unfoldable pub tracepoint_source : LinkSource AgentState TracepointDetails TracepointDetails
  unfolding tracepoint_same_fields one_expected
  tracepoint_source = plain_source tracepoint_same_fields env one_expected

  unfoldable pub fentry_source : LinkSource AgentState NoDetails NoDetails
  unfolding fentry_same_fields one_expected
  fentry_source = plain_source fentry_same_fields env one_expected

  unfoldable pub kprobe_matching : Matching kprobe_source
  unfolding kprobe_source plain_matching
  kprobe_matching = plain_matching kprobe_same_fields env one_expected kprobe_same_fields_refl

  unfoldable pub kretprobe_matching : Matching kretprobe_source
  unfolding kretprobe_source kretprobe_same_fields plain_matching
  kretprobe_matching =
      plain_matching kretprobe_same_fields env one_expected (λ d. beq_refl d.function)

  unfoldable pub tracepoint_matching : Matching tracepoint_source
  unfolding tracepoint_source tracepoint_same_fields plain_matching
  tracepoint_matching =
      plain_matching tracepoint_same_fields env one_expected (λ d. beq_refl d.name)

  unfoldable pub fentry_matching : Matching fentry_source
  unfolding fentry_source fentry_same_fields plain_matching
  fentry_matching = plain_matching fentry_same_fields env one_expected (λ d. refl)

-- The request's `oneof` in getAttachRequest of each.
unfoldable pub kprobe_attach_request : Link KprobeDetails → AttachInfo
kprobe_attach_request l = kprobe_attach_info l.details.function (uint64_of l.details.offset) l.uuid

-- The offset is left at its default, 0.
unfoldable pub kretprobe_attach_request : Link KretprobeDetails → AttachInfo
kretprobe_attach_request l = kprobe_attach_info l.details.function 0 l.uuid

unfoldable pub tracepoint_attach_request : Link TracepointDetails → AttachInfo
tracepoint_attach_request l = tracepoint_attach_info l.details.name l.uuid

unfoldable pub fentry_attach_request : Link NoDetails → AttachInfo
fentry_attach_request l = fentry_attach_info l.uuid

unfoldable pub fexit_attach_request : Link NoDetails → AttachInfo
fexit_attach_request l = fexit_attach_info l.uuid

-- getProgramLoadInfo of each.
unfoldable pub kprobe_load_info : String → LoadInfo
kprobe_load_info name = record {
  name = name;
  program_type = BpfmanProgramType.kprobe;
  fn_name = none;
}

unfoldable pub tracepoint_load_info : String → LoadInfo
tracepoint_load_info name = record {
  name = name;
  program_type = BpfmanProgramType.tracepoint;
  fn_name = none;
}

unfoldable pub fentry_load_info : (name function : String) → LoadInfo
fentry_load_info name function = record {
  name = name;
  program_type = BpfmanProgramType.fentry;
  fn_name = some function;
}

unfoldable pub fexit_load_info : (name function : String) → LoadInfo
fexit_load_info name function = record {
  name = name;
  program_type = BpfmanProgramType.fexit;
  fn_name = some function;
}
