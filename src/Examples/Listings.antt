-- ===== src/Examples/Listings.antt =====
-- A daemon that lists three programs, two of them with one uuid.
use bpfman_operator.Shared.{
  true, false, none, some, List, [], ◌∷◌, ◌≡◌, refl, nat_eq, String, option_eq, string_eq, look_up,
}
use bpfman_operator.Api.ProgramTypes.{program_type_string}
use bpfman_operator.Agent.Listings.{
  KernelInfo, ListResult, ListClient, failed, listed, multiple_programs, uuid_metadata_key,
  all_programs, results_by_uuid, list_bpfman_programs, get_bpfman_program, list_all_programs,
  build_kernel_info_annotations,
}

abbrev kernel_info : KernelInfo
kernel_info = record {
  id = 7;
  name = "xdp_pass";
  program_type = 6;
  loaded_at = "now";
  tag = "beef";
  gpl_compatible = true;
  map_ids = 1 ∷ 20 ∷ [];
  btf_id = 0;
  bytes_xlated = 96;
  jited = false;
  bytes_jited = 0;
  bytes_memlock = 4096;
  verified_insns = 12;
}

abbrev listed_as : String → ListResult
listed_as uuid = record {
  info_metadata = some ((uuid_metadata_key, uuid) ∷ []);
  kernel_info = some kernel_info;
}

abbrev unmanaged : ListResult
unmanaged = record { info_metadata = none; kernel_info = none }

abbrev lister : ListClient
lister = record { Daemon = List ListResult; list = λ request d. (some d, d) }

abbrev results : List ListResult
results = listed_as "a" ∷ unmanaged ∷ listed_as "a" ∷ []

list_bpfman_programs_test :
    list_bpfman_programs lister all_programs results ≡ (listed (("a", listed_as "a") ∷ []), results)
unfolding list_bpfman_programs results_by_uuid
list_bpfman_programs_test = refl

get_bpfman_program_test :
    get_bpfman_program lister "a" results ≡ (failed (multiple_programs "a" 3), results)
unfolding get_bpfman_program
get_bpfman_program_test = refl

list_all_programs_test : list_all_programs lister results ≡ (listed results, results)
unfolding list_all_programs
list_all_programs_test = refl

annotations_test : look_up "Map-IDs" (build_kernel_info_annotations (listed_as "a")) ≡ some "[1 20]"
unfolding build_kernel_info_annotations program_type_string
annotations_test = refl
