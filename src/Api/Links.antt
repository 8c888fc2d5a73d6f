-- ===== src/Api/Links.antt =====
-- Links and their statuses: apis/v1alpha1/shared_types.go.
use bpfman_operator.Shared.{
  Bool, true, ℕ, String, Option, Eq, ◌==◌, ◌≡◌, ◌↔◌, arith, nat_eq, string_eq,
}

pub data LinkStatus : Type 0 where
  ap_attach_attached ap_attach_not_attached ap_attach_error ap_detach_error : LinkStatus

-- `==`, through the position in the enumeration.
abbrev pub link_status_index : LinkStatus → ℕ
link_status_index ap_attach_attached = 0
link_status_index ap_attach_not_attached = 1
link_status_index ap_attach_error = 2
link_status_index ap_detach_error = 3

abbrev pub link_status_beq : LinkStatus → LinkStatus → Bool
link_status_beq a b = link_status_index a == link_status_index b

pub link_status_beq_iff : (a b : LinkStatus) → (link_status_beq a b ≡ true) ↔ (a ≡ b)
link_status_beq_iff a b = ground arith

instance abbrev pub link_status_eq : Eq LinkStatus
link_status_eq = record { beq = link_status_beq; beq_iff = link_status_beq_iff }

pub data ProgramLinkStatus : Type 0 where
  prog_attach_pending prog_attach_success prog_attach_error update_attach_info_error :
      ProgramLinkStatus

-- `==`, through the position in the enumeration.
abbrev pub program_link_status_index : ProgramLinkStatus → ℕ
program_link_status_index prog_attach_pending = 0
program_link_status_index prog_attach_success = 1
program_link_status_index prog_attach_error = 2
program_link_status_index update_attach_info_error = 3

abbrev pub program_link_status_beq : ProgramLinkStatus → ProgramLinkStatus → Bool
program_link_status_beq a b = program_link_status_index a == program_link_status_index b

pub program_link_status_beq_iff :
    (a b : ProgramLinkStatus) → (program_link_status_beq a b ≡ true) ↔ (a ≡ b)
program_link_status_beq_iff a b = ground arith

instance abbrev pub program_link_status_eq : Eq ProgramLinkStatus
program_link_status_eq = record {
  beq = program_link_status_beq;
  beq_iff = program_link_status_beq_iff;
}

-- `LinkId *uint32` is an option: `none` is the nil pointer.
pub record AttachInfoStateCommon : Type 0 where
  pub should_attach : Bool
  pub uuid : String
  pub link_id : Option ℕ
  pub link_status : LinkStatus

-- Each `*AttachInfoState` struct embeds `AttachInfoStateCommon` and adds the fields of its kind of
-- program, here `details`.
pub record Link (D : Type 0) : Type 0 where
  pub common : AttachInfoStateCommon
  pub open common use *
  pub details : D
