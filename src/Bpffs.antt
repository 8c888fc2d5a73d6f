-- ===== src/Bpffs.antt =====
-- The BPF file system: internal/bpffs/bpffs.go, and handleMountBPFFS of cmd/bpfman-agent/main.go. The
-- kernel is a parameter.
pub mod Mounted
use Prim.Native.String.{◌++◌ as append}
use Prim.Native.Char.{code}
use bpfman_operator.Shared.{
  Bool, true, false, ◌&&◌, ℕ, String, Option, none, some, List, [], ◌∷◌, ◌==◌, nat_eq, string_eq,
  fields, get_elem?, if◌then◌else◌, any,
}

abbrev cons_front : String → Option (String × String) → Option (String × String)
cons_front c none = none
cons_front c (some (front, back)) = some (append c front, back)

-- `strings.Index(line, " - ")`, and what stands before and after it.
abbrev pub cut_separator : String → Option (String × String)
cut_separator String.[] = none
cut_separator (String.◌∷◌ c String.[]) = none
cut_separator (String.◌∷◌ c (String.◌∷◌ d String.[])) = none
cut_separator (String.◌∷◌ c (String.◌∷◌ d (String.◌∷◌ e s))) =
    let rest = cut_separator (String.◌∷◌ d (String.◌∷◌ e s)) in
    if code c == 32 && (code d == 45 && code e == 32)
    then some ("", s)
    else cons_front (String.◌∷◌ c String.[]) rest

abbrev is_text : String → Option String → Bool
is_text s none = false
is_text s (some t) = t == s

-- The mount point is the fifth field before the separator, the type the first one after it.
abbrev is_bpf_at : String → Option (String × String) → Bool
is_bpf_at mount_point none = false
is_bpf_at mount_point (some (front, back)) =
    is_text mount_point (get_elem? (fields front) 4) && is_text "bpf" (get_elem? (fields back) 0)

-- A line of mountinfo: whether it is a bpffs at the mount point.
unfoldable pub is_bpf_line : String → String → Bool
is_bpf_line mount_point line = is_bpf_at mount_point (cut_separator line)

-- The scan of the lines, and whether it ends in an error.
abbrev pub scan : String → List String → Bool → Option Bool
scan mount_point lines scan_failed =
    if any (is_bpf_line mount_point) lines
    then some true
    else if scan_failed
    then none
    else some false

-- What `os.Stat` says.
pub data Stat : Type 0 where
  directory other_file missing stat_failed : Stat

-- The kernel: the lines of a mountinfo file, with whether reading ends in an error, and the calls, which
-- return whether they succeed.
pub record Kernel : Type 1 where
  pub State : Type 0
  pub mount_info : (path : String) → State → Option (List String × Bool)
  pub stat : (path : String) → State → Stat
  pub mkdir_all : (path : String) → State → Bool × State
  pub mount : (path : String) → State → Bool × State
  pub unmount : (path : String) → State → Bool × State

module _ (kernel : Kernel) where
  open kernel use {State}

  abbrev pub mounted_in : String → Option (List String × Bool) → Option Bool
  mounted_in mount_point none = none
  mounted_in mount_point (some (lines, scan_failed)) = scan mount_point lines scan_failed

  -- IsMounted
  unfoldable pub is_mounted : (mount_info_path mount_point : String) → State → Option Bool
  unfolding is_bpf_line
  is_mounted mount_info_path mount_point s =
      mounted_in mount_point (kernel.mount_info mount_info_path s)

  abbrev pub mount_made : String → Bool × State → Bool × State
  mount_made mount_point (true, s) = kernel.mount mount_point s
  mount_made mount_point (false, s) = (false, s)

  abbrev pub mount_at : String → Stat → State → Bool × State
  mount_at mount_point directory s = kernel.mount mount_point s
  mount_at mount_point other_file s = (false, s)
  mount_at mount_point missing s = mount_made mount_point (kernel.mkdir_all mount_point s)
  mount_at mount_point stat_failed s = (false, s)

  -- Mount
  unfoldable pub mount : String → State → Bool × State
  mount mount_point s = mount_at mount_point (kernel.stat mount_point s) s

  -- Unmount
  abbrev pub unmount : String → State → Bool × State
  unmount mount_point s = kernel.unmount mount_point s

  abbrev pub ensured : String → Option Bool → State → Bool × State
  ensured mount_point none s = (false, s)
  ensured mount_point (some true) s = (true, s)
  ensured mount_point (some false) s = mount mount_point s

  -- EnsureMounted
  unfoldable pub ensure_mounted : (mount_info_path mount_point : String) → State → Bool × State
  unfolding is_mounted mount
  ensure_mounted mount_info_path mount_point s =
      ensured mount_point (is_mounted mount_info_path mount_point s) s

  module _ (mount_info_path mount_point : String) where
    abbrev line : String → String
    line text = append text (append mount_point "\n")

    -- After a failed mount: another process may have mounted in between.
    abbrev pub raced : String → Option Bool → ℕ × String
    raced message none = (1, "")
    raced message (some false) = (1, "")
    raced message (some true) = (0, append message (line "bpffs already mounted at "))

    abbrev pub mount_done : String → Bool × State → (ℕ × String) × State
    mount_done message (true, s) = ((0, append message (line "bpffs mounted at ")), s)
    mount_done message (false, s) = (raced message (is_mounted mount_info_path mount_point s), s)

    abbrev pub unmount_done : Bool × State → (ℕ × String) × State
    unmount_done (true, s) = mount_done (line "bpffs unmounted at ") (mount mount_point s)
    unmount_done (false, s) = ((1, ""), s)

    abbrev pub handle_mounted : Bool → Option Bool → State → (ℕ × String) × State
    handle_mounted remount none s = ((1, ""), s)
    handle_mounted false (some true) s = ((0, line "bpffs already mounted at "), s)
    handle_mounted true (some true) s = unmount_done (unmount mount_point s)
    handle_mounted remount (some false) s = mount_done "" (mount mount_point s)

    -- handleMountBPFFS: the exit code and the message; it returns an error exactly with the code 1.
    unfoldable pub handle_mount_bpffs : Bool → State → (ℕ × String) × State
    unfolding is_mounted mount
    handle_mount_bpffs remount s =
        handle_mounted remount (is_mounted mount_info_path mount_point s) s
