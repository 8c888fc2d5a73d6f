-- ===== src/Agent/Listings.antt =====
-- What the daemon lists: ListBpfmanPrograms, GetBpfmanProgram and their like, and the annotations of
-- a program, of controllers/bpfman-agent/internal/bpfman_core.go. The gRPC client is a parameter.
pub mod Found
use Prim.Native.String.{◌++◌ as append}
use bpfman_operator.Shared.{
  Bool, true, false, ℕ, pos, String, Option, none, some, List, [], ◌∷◌, ◌==◌, nat_eq, length, Dict,
  look_up, put, if◌then◌else◌,
}
use bpfman_operator.Api.ProgramTypes.{program_type_string, type_names}
use bpfman_operator.Agent.Text.{uint64_string}

-- AllPrograms, the last of the enumeration
abbrev pub all_programs : ℕ
all_programs = length type_names

pub record KernelInfo : Type 0 where
  pub id : ℕ
  pub name : String
  pub program_type : ℕ
  pub loaded_at : String
  pub tag : String
  pub gpl_compatible : Bool
  pub map_ids : List ℕ
  pub btf_id : ℕ
  pub bytes_xlated : ℕ
  pub jited : Bool
  pub bytes_jited : ℕ
  pub bytes_memlock : ℕ
  pub verified_insns : ℕ

-- `ListResponse_ListResult`, of whose `Info` only the metadata are read.
pub record ListResult : Type 0 where
  pub info_metadata : Option (Dict String)
  pub kernel_info : Option KernelInfo

pub record ListRequest : Type 0 where
  pub program_type : Option ℕ
  pub bpfman_programs_only : Option Bool
  pub match_metadata : Dict String

pub data ListError : Type 0 where
  list_failed : ListError
  no_uuid : ListError
  no_program : (uuid : String) → ListError
  multiple_programs : (uuid : String) (instances : ℕ) → ListError

pub data Listing (A : Type 0) : Type 0 where
  failed : (what : ListError) → Listing A
  listed : (value : A) → Listing A

-- List of the daemon: `none` is an error.
pub record ListClient : Type 1 where
  pub Daemon : Type 0
  pub list : ListRequest → Daemon → Option (List ListResult) × Daemon

abbrev pub uuid_metadata_key : String
uuid_metadata_key = "bpfman.io/uuid"

-- The uuid of a result, if it has an `Info`.
abbrev pub uuid_of : ListResult → Option (Option String)
uuid_of result = elim result.info_metadata [
  | none ↦ none
  | some metadata ↦ some (look_up uuid_metadata_key metadata)
]

abbrev next_entry : Option (Option String) → ListResult → Dict ListResult → Option (Dict ListResult)
next_entry none result out = some out
next_entry (some none) result out = none
next_entry (some (some uuid)) result out = some (put uuid result out)

-- The loop over the results; `none` is a result without a uuid.
unfoldable pub results_by_uuid : List ListResult → Dict ListResult → Option (Dict ListResult)
results_by_uuid [] out = some out
results_by_uuid (result ∷ results) out = elim (next_entry (uuid_of result) result out) [
  | none ↦ none
  | some out' ↦ results_by_uuid results out'
]

abbrev or_no_uuid : Option (Dict ListResult) → Listing (Dict ListResult)
or_no_uuid none = failed no_uuid
or_no_uuid (some out) = listed out

abbrev pub keyed : Option (List ListResult) → Listing (Dict ListResult)
keyed none = failed list_failed
keyed (some results) = or_no_uuid (results_by_uuid results [])

abbrev bpfman_programs_request : ℕ → ListRequest
bpfman_programs_request program_type = record {
  program_type = if program_type == all_programs then none else some program_type;
  bpfman_programs_only = some true;
  match_metadata = [];
}

abbrev only_one : String → Option (List ListResult) → Listing ListResult
only_one uuid none = failed list_failed
only_one uuid (some []) = failed (no_program uuid)
only_one uuid (some (result ∷ [])) = listed result
only_one uuid (some (result ∷ other ∷ more)) =
    failed (multiple_programs uuid (length (result ∷ other ∷ more)))

abbrev all_results : Option (List ListResult) → Listing (List ListResult)
all_results none = failed list_failed
all_results (some results) = listed results

module _ (client : ListClient) where
  open client use {Daemon}

  -- ListBpfmanPrograms; ListBpfmanAttachments has the same text.
  unfoldable pub list_bpfman_programs : ℕ → Daemon → Listing (Dict ListResult) × Daemon
  unfolding results_by_uuid
  list_bpfman_programs program_type d =
      let (results, d') = client.list (bpfman_programs_request program_type) d in
      (keyed results, d')

  -- GetBpfmanProgram
  unfoldable pub get_bpfman_program : String → Daemon → Listing ListResult × Daemon
  get_bpfman_program uuid d =
      let (results, d') =
        client.list
          (record {
            program_type = none;
            bpfman_programs_only = none;
            match_metadata = (uuid_metadata_key, uuid) ∷ [];
          })
          d in
      (only_one uuid results, d')

  -- ListAllPrograms
  unfoldable pub list_all_programs : Daemon → Listing (List ListResult) × Daemon
  list_all_programs d =
      let (results, d') =
        client.list
          (record { program_type = none; bpfman_programs_only = none; match_metadata = [] }) d in
      (all_results results, d')

-- `%v` of a Boolean and of a slice of numbers
abbrev bool_string : Bool → String
bool_string true = "true"
bool_string false = "false"

abbrev more_ids : List ℕ → String
more_ids [] = "]"
more_ids (i ∷ ids) = append " " (append (uint64_string i) (more_ids ids))

abbrev ids_string : List ℕ → String
ids_string [] = "[]"
ids_string (i ∷ ids) = append "[" (append (uint64_string i) (more_ids ids))

-- Build_kernel_info_annotations; a nil map is empty.
unfoldable pub build_kernel_info_annotations : ListResult → Dict String
unfolding program_type_string
build_kernel_info_annotations p = elim p.kernel_info [
  | none ↦ []
  | some info ↦
      ("Kernel-ID", uint64_string info.id)
      ∷ ("Name", info.name)
      ∷ ("Type", program_type_string info.program_type)
      ∷ ("Loaded-At", info.loaded_at)
      ∷ ("Tag", info.tag)
      ∷ ("GPL-Compatible", bool_string info.gpl_compatible)
      ∷ ("Map-IDs", ids_string info.map_ids)
      ∷ ("BTF-ID", uint64_string info.btf_id)
      ∷ ("Size-Translated-Bytes", uint64_string info.bytes_xlated)
      ∷ ("JITed", bool_string info.jited)
      ∷ ("Size-JITed-Bytes", uint64_string info.bytes_jited)
      ∷ ("Kernel-Allocated-Memory-Bytes", uint64_string info.bytes_memlock)
      ∷ ("Verified-Instruction-Count", uint64_string info.verified_insns)
      ∷ []
]
