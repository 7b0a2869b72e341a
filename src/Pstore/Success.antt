-- ===== src/Pstore/Success.antt =====
-- On a disk that works the tool succeeds, whatever the rules are.
use android_device_xiaomi_la.Common.{
  ℕ, ◌<◌, ◌≡◌, refl, ap, ◌∙◌, Bool, true, ◌&&◌, ◌||◌, List, [], ◌∷◌, Option, none, some,
  Option-cases, Bool-cases, inl, inr, length, Text, equal, arith,
}
use android_device_xiaomi_la.Pstore.Names.{Config, Action, by_default, keep, move, action_for}
use android_device_xiaomi_la.Pstore.Kernel.{
  Kernel, Log, truncating, appending, opens, writes, closes, unlinks, unmounts, removes_dir,
  unlinked,
}
use android_device_xiaomi_la.Pstore.Clean.{
  mnt, dst, path_of, heading, is_dots, unlink_source, move_file, open_dst, append_file, perform,
  clean_file, clean_files, finish, list_files, replace_dst, clean, is_fs_mounted, dir_not_empty,
  reverse_onto,
}
use android_device_xiaomi_la.Pstore.Removes.{removable}
use android_device_xiaomi_la.Pstore.Outcome.{listing, before_scan, clean_removes}
use android_device_xiaomi_la.Pstore.Contents.{IsDisk, filecopy_sends}
use android_device_xiaomi_la.Pstore.Report.{IsWilling}

unlinked-before_scan :
    (kernel : Kernel) (p : Text) (log : Log)
    → unlinked p (before_scan kernel log)
      ≡ ((kernel.exists dst log && equal p dst) || unlinked p log)
unlinked-before_scan kernel p log = ground arith

module _ (kernel : Kernel) (content : Text → Text) (disk : IsDisk kernel content)
    (willing : IsWilling kernel) (config : Config) (n : ℕ)
    (rounds : (path : Text) → length (content path) < n) where
  -- A step of the loop ends well.
  abbrev GoesOn : Option (Bool × Option ℕ × Log) → Type 0
  GoesOn out = (d : Option ℕ) × (log : Log) × (out ≡ some (true, d, log))

  append_file-GoesOn :
      (name : Text) (fd : ℕ) (log : Log) → GoesOn (append_file kernel config n name (some fd) log)
  unfolding append_file unlink_source
  append_file-GoesOn name fd log =
      let path = path_of mnt name in
      let log1 = writes fd (heading name) (kernel.write fd (heading name) log) ∷ log in
      let (log2, copied, _) = filecopy_sends kernel content disk n path fd log1 (rounds path) in
      let u = willing.can_unlink path log2 in
      (some fd, unlinks path true ∷ log2, ground (arith, copied))

  perform-GoesOn :
      (action : Action) (name : Text) (d : Option ℕ) (log : Log)
      → GoesOn (perform kernel config n action name d log)
  unfolding perform move_file open_dst unlink_source
  perform-GoesOn (move to) name d log =
      let path = path_of mnt name in
      elim (Option-cases (kernel.open_file truncating (path_of to name) log)) [
        | inl o ↦
            let log1 = opens truncating (path_of to name) none ∷ log in
            let u = willing.can_unlink path log1 in (d, unlinks path true ∷ log1, ground (arith, o))
        | inr (fd, o) ↦
            let log1 = opens truncating (path_of to name) (some fd) ∷ log in
            let (log2, copied, _) =
              filecopy_sends kernel content disk n path fd log1 (rounds path) in
            let u = willing.can_unlink path (closes fd ∷ log2) in
            (d, unlinks path true ∷ (closes fd ∷ log2), ground (arith, o, copied))
      ]
  perform-GoesOn keep name d log = (d, log, refl)
  perform-GoesOn by_default name (some fd) log = append_file-GoesOn name fd log
  perform-GoesOn by_default name none log =
      elim (Option-cases (kernel.open_file appending dst log)) [
        | inl bad ↦ absurd (ground (arith, disk.can_open dst log))
        | inr (fd, o) ↦
            let (d, log', e) = append_file-GoesOn name fd (opens appending dst (some fd) ∷ log) in
            (d, log', ground (arith, o, e))
      ]

  clean_files-GoesOn :
      (names : List Text) (d : Option ℕ) (log : Log)
      → GoesOn (clean_files kernel config n names d log)
  unfolding clean_files clean_file
  clean_files-GoesOn [] d log = (d, log, refl)
  clean_files-GoesOn (name ∷ names) d log = elim (Bool-cases (is_dots name)) [
    | inl y ↦ let (d2, log2, e) = clean_files-GoesOn names d log in (d2, log2, ground (arith, e))
    | inr f ↦
        let (d1, log1, one) = perform-GoesOn (action_for config name) name d log in
        let (d2, log2, all) = clean_files-GoesOn names d1 log1 in
        (d2, log2, ground (arith, one, all))
  ]

  module _ (x : Text) (names : List Text) (log : Log)
      (mounted : is_fs_mounted kernel config mnt log ≡ true)
      (full : dir_not_empty kernel config log ≡ some true)
      (listed : kernel.scandir (before_scan kernel log) ≡ some (x ∷ names)) where
    clean_succeeds : (log' : Log) × (clean kernel config n log ≡ some (true, log'))
    unfolding clean replace_dst list_files finish
    clean_succeeds =
        let log1 = before_scan kernel log in
        let u = willing.can_unlink dst log in
        let (d, log2, done) = clean_files-GoesOn (reverse_onto (x ∷ names) []) none log1 in
        let v = willing.can_umount log2 in
        let log3 = unmounts true ∷ log2 in
        (removes_dir (kernel.rmdir log3) ∷ log3, ground (arith, mounted, full, listed, done))

    -- On a disk that works, where files can be removed and MNT can be unmounted, a run over a pstore
    -- that is mounted and not empty reports success, whatever the rules are; and a path is then
    -- removed exactly if it is that of a listed file that is not "." or ".." and has no rule `keep`,
    -- or is the old DST, or was removed before.
    pub clean_removes_listed :
        (p : Text)
        → (log' : Log) × (clean kernel config n log ≡ some (true, log'))
          × (unlinked p log' ≡ (
              removable config p (x ∷ names)
              || ((kernel.exists dst log && equal p dst) || unlinked p log)))
    clean_removes_listed p =
        let (log', done) = clean_succeeds in
        let removed = clean_removes p kernel config n log log' full done in
        let l : listing kernel (before_scan kernel log) ≡ x ∷ names = ground (arith, listed) in
        (
          log',
          done,
          removed
              ∙ ap (λ ns. removable config p ns || unlinked p (before_scan kernel log)) l
              ∙ ap (λ b. removable config p (x ∷ names) || b) (unlinked-before_scan kernel p log),
        )
