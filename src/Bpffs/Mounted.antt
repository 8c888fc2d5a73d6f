-- ===== src/Bpffs/Mounted.antt =====
-- What handleMountBPFFS and EnsureMounted leave.
use bpfman_operator.Shared.{
  Bool, true, false, ℕ, String, Option, none, some, List, any, ◌≡◌, ap, subst, refl, ◌∙◌, arith,
}
use bpfman_operator.Bpffs.{
  Stat, directory, other_file, missing, stat_failed, Kernel, is_bpf_line, is_mounted, mount_made,
  mount_at, mount, raced, mount_done, unmount_done, handle_mounted, handle_mount_bpffs, ensured,
  ensure_mounted, mounted_in,
}

-- A mount that succeeds stands in the mountinfo file.
pub record Shows (kernel : Kernel) (mount_info_path mount_point : String) : Type 0 where
  pub shows :
      (s s' : kernel.State)
      → kernel.mount mount_point s ≡ (true, s')
      → (lines : List String) × (scan_failed : Bool) × (kernel.mount_info mount_info_path s'
          ≡ some (lines, scan_failed))
        × (any (is_bpf_line mount_point) lines ≡ true)

module _ (kernel : Kernel) (mount_info_path mount_point : String)
    (laws : Shows kernel mount_info_path mount_point) where
  open kernel use {State}

  abbrev pub IsThere : State → Type 0
  IsThere s = is_mounted kernel mount_info_path mount_point s ≡ some true

  kernel_mount-IsThere : (s s' : State) → kernel.mount mount_point s ≡ (true, s') → IsThere s'
  unfolding is_mounted
  kernel_mount-IsThere s s' h =
      let (lines, scan_failed, read, found) = laws.shows s s' h in
      ap (mounted_in kernel mount_point) read ∙ (rw found refl)

  mount_made-IsThere :
      (r : Bool × State) (s' : State) → mount_made kernel mount_point r ≡ (true, s') → IsThere s'
  mount_made-IsThere (true, s) s' h = kernel_mount-IsThere s s' h
  mount_made-IsThere (false, s) s' h = cc

  mount_at-IsThere :
      (stat : Stat) (s s' : State) → mount_at kernel mount_point stat s ≡ (true, s') → IsThere s'
  mount_at-IsThere directory s s' h = kernel_mount-IsThere s s' h
  mount_at-IsThere other_file s s' h = cc
  mount_at-IsThere missing s s' h = mount_made-IsThere (kernel.mkdir_all mount_point s) s' h
  mount_at-IsThere stat_failed s s' h = cc

  mount-IsThere : (s s' : State) → mount kernel mount_point s ≡ (true, s') → IsThere s'
  unfolding mount
  mount-IsThere s s' h = mount_at-IsThere (kernel.stat mount_point s) s s' h

  abbrev IsDone : (ℕ × String) × State → State → Type 0
  IsDone ((code, message), s) s' = (code ≡ 0) × (s ≡ s')

  raced-IsThere :
      (message : String) (s : State) (mounted : Option Bool)
      → is_mounted kernel mount_info_path mount_point s ≡ mounted
      → (raced kernel mount_info_path mount_point message mounted).0 ≡ 0
      → IsThere s
  raced-IsThere message s none read h = ground arith
  raced-IsThere message s (some false) read h = ground arith
  raced-IsThere message s (some true) read h = read

  mount_done-IsThere :
      (message : String) (r : Bool × State) (s' : State)
      → ((s : State) → r ≡ (true, s) → IsThere s)
      → IsDone (mount_done kernel mount_info_path mount_point message r) s'
      → IsThere s'
  unfolding is_mounted
  mount_done-IsThere message (true, s) s' there (h, same) = subst IsThere same (there s refl)
  mount_done-IsThere message (false, s) s' there (h, same) =
      subst IsThere same
        (raced-IsThere message s (is_mounted kernel mount_info_path mount_point s) refl h)

  unmount_done-IsThere :
      (r : Bool × State) (s' : State)
      → IsDone (unmount_done kernel mount_info_path mount_point r) s'
      → IsThere s'
  unfolding is_mounted
  unmount_done-IsThere (true, s) s' h =
      mount_done-IsThere _ (mount kernel mount_point s) s' (λ t made. mount-IsThere s t made) h
  unmount_done-IsThere (false, s) s' (h, same) = ground arith

  handle_mounted-IsThere :
      (remount : Bool) (mounted : Option Bool) (s s' : State)
      → is_mounted kernel mount_info_path mount_point s ≡ mounted
      → IsDone (handle_mounted kernel mount_info_path mount_point remount mounted s) s'
      → IsThere s'
  unfolding is_mounted
  handle_mounted-IsThere remount none s s' read (h, same) = ground arith
  handle_mounted-IsThere false (some true) s s' read (h, same) = subst IsThere same read
  handle_mounted-IsThere true (some true) s s' read h =
      unmount_done-IsThere (kernel.unmount mount_point s) s' h
  handle_mounted-IsThere remount (some false) s s' read h =
      mount_done-IsThere "" (mount kernel mount_point s) s' (λ t made. mount-IsThere s t made) h

  -- Where handleMountBPFFS exits with the code 0, also after a remount and after a failed mount, a bpffs
  -- is mounted at the mount point: IsMounted finds it.
  pub handle_mount_bpffs-IsThere :
      (remount : Bool) (s s' : State) (message : String)
      → handle_mount_bpffs kernel mount_info_path mount_point remount s ≡ ((0, message), s')
      → is_mounted kernel mount_info_path mount_point s' ≡ some true
  unfolding handle_mount_bpffs
  handle_mount_bpffs-IsThere remount s s' message h =
      handle_mounted-IsThere remount (is_mounted kernel mount_info_path mount_point s) s s' refl
        (ap (λ r. r.0.0) h, ap (λ r. r.1) h)

  ensured-IsThere :
      (mounted : Option Bool) (s s' : State)
      → is_mounted kernel mount_info_path mount_point s ≡ mounted
      → ensured kernel mount_point mounted s ≡ (true, s')
      → IsThere s'
  ensured-IsThere none s s' read h = cc
  ensured-IsThere (some true) s s' read h = subst IsThere (ap (λ r. r.1) h) read
  ensured-IsThere (some false) s s' read h = mount-IsThere s s' h

  -- After an EnsureMounted without an error, another one does nothing and succeeds.
  pub ensure_mounted-again :
      (s s' : State)
      → ensure_mounted kernel mount_info_path mount_point s ≡ (true, s')
      → ensure_mounted kernel mount_info_path mount_point s' ≡ (true, s')
  unfolding ensure_mounted
  ensure_mounted-again s s' h =
      let there = ensured-IsThere (is_mounted kernel mount_info_path mount_point s) s s' refl h in
      ap (λ mounted. ensured kernel mount_point mounted s') there
