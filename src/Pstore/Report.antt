-- ===== src/Pstore/Report.antt =====
-- What the tool writes: a heading and the contents of each file, from the last name to the first. The
-- bytes that write accepts are taken together, whatever their descriptors.
use android_device_xiaomi_la.Common.{
  ℕ, ◌<◌, ◌≡◌, refl, sym, ap, ◌∙◌, true, List, [], ◌∷◌, ◌++◌, Option, none, some, Option-cases,
  Bool-cases, inl, inr, length, Text, arith, if◌then◌else◌,
}
use mathlib.Core.List.{append_assoc, append-nil}
use android_device_xiaomi_la.Pstore.Names.{
  Config, by_default, rules, perform_rule_check, action_for,
}
use android_device_xiaomi_la.Pstore.Kernel.{
  Kernel, Log, appending, opens, writes, unlinks, unmounts, removes_dir, sent,
}
use android_device_xiaomi_la.Pstore.Copies.{take_full}
use android_device_xiaomi_la.Pstore.Clean.{
  mnt, dst, path_of, heading, is_dots, unlink_source, open_dst, append_file, perform, clean_file,
  clean_files, finish, list_files, replace_dst, clean, is_fs_mounted, dir_not_empty, reverse_onto,
}
use android_device_xiaomi_la.Pstore.Outcome.{before_scan}
use android_device_xiaomi_la.Pstore.Contents.{IsDisk, filecopy_sends}

-- Files can be removed, and MNT can be unmounted.
pub record IsWilling (kernel : Kernel) : Type 0 where
  pub can_unlink : (path : Text) (log : Log) → kernel.unlink path log ≡ true
  pub can_umount : (log : Log) → kernel.umount log ≡ true

module _ (kernel : Kernel) (content : Text → Text) (disk : IsDisk kernel content)
    (willing : IsWilling kernel) where
  -- What is written for a file.
  abbrev pub entry : Text → Text
  entry name = if is_dots name then [] else heading name ++ content (path_of mnt name)

  abbrev pub report : List Text → Text
  report [] = []
  report (name ∷ names) = entry name ++ report names

  module _ (config : Config) (n : ℕ) (rounds : (path : Text) → length (content path) < n) where
    append_file_sends :
        (name : Text) (fd : ℕ) (log : Log)
        → (log' : Log) × (append_file kernel config n name (some fd) log
            ≡ some (true, some fd, log'))
          × (sent log' ≡ sent log ++ (heading name ++ content (path_of mnt name)))
    unfolding append_file unlink_source
    append_file_sends name fd log =
        let path = path_of mnt name in
        let w = disk.full.accepts fd (heading name) log in
        let log1 = writes fd (heading name) (kernel.write fd (heading name) log) ∷ log in
        let (log2, copied, sends) =
          filecopy_sends kernel content disk n path fd log1 (rounds path) in
        let u = willing.can_unlink path log2 in
        let h : sent log1 ≡ sent log ++ heading name =
          rw w (ap (λ t. sent log ++ t) (take_full kernel (heading name))) in
        (
          unlinks path true ∷ log2,
          ground (arith, copied, u),
          sends
              ∙ ap (λ t. t ++ content path) h
              ∙ append_assoc (sent log) (heading name) (content path),
        )

    module _ (no_rules : rules config ≡ none) where
      all_default : (name : Text) → action_for config name ≡ by_default
      unfolding action_for perform_rule_check
      all_default name = rw no_rules refl

      clean_file_sends :
          (name : Text) (d : Option ℕ) (log : Log)
          → (d' : Option ℕ) × (log' : Log) × (clean_file kernel config n name d log
              ≡ some (true, d', log'))
            × (sent log' ≡ sent log ++ entry name)
      unfolding clean_file perform open_dst
      clean_file_sends name d log = elim (Bool-cases (is_dots name)) [
        | inl y ↦ (d, log, ground arith, rw y (sym (append-nil (sent log))))
        | inr f ↦ elim (Option-cases d) [
          | inr (fd, o) ↦
              let (log', done, sends) = append_file_sends name fd log in
              (some fd, log', ground (arith, all_default name, done), rw f sends)
          | inl o ↦ elim (Option-cases (kernel.open_file appending dst log)) [
            | inl bad ↦ absurd (ground (arith, disk.can_open dst log))
            | inr (fd, op) ↦
                let (log', done, sends) =
                  append_file_sends name fd (opens appending dst (some fd) ∷ log) in
                (some fd, log', ground (arith, all_default name, done), rw f sends)
          ]
        ]
      ]

      clean_files_sends :
          (names : List Text) (d : Option ℕ) (log : Log)
          → (d' : Option ℕ) × (log' : Log) × (clean_files kernel config n names d log
              ≡ some (true, d', log'))
            × (sent log' ≡ sent log ++ report names)
      unfolding clean_files
      clean_files_sends [] d log = (d, log, refl, sym (append-nil (sent log)))
      clean_files_sends (name ∷ names) d log =
          let (d1, log1, one, sends1) = clean_file_sends name d log in
          let (d2, log2, all, sends2) = clean_files_sends names d1 log1 in
          (
            d2,
            log2,
            ground (arith, one, all),
            sends2
                ∙ ap (λ t. t ++ report names) sends1
                ∙ append_assoc (sent log) (entry name) (report names),
          )

      -- On a disk that works, where files can be removed and MNT can be unmounted, and with no rules, a
      -- run over a pstore that is mounted and not empty reports success, and has written, from the
      -- last name to the first, each file's heading and its contents; more rounds for a copy than any
      -- file has bytes are enough.
      clean-report :
          (x : Text) (names : List Text) (log : Log)
          → is_fs_mounted kernel config mnt log ≡ true
          → dir_not_empty kernel config log ≡ some true
          → kernel.scandir (before_scan kernel log) ≡ some (x ∷ names)
          → (log' : Log) × (clean kernel config n log ≡ some (true, log'))
            × (sent log' ≡ sent log ++ report (reverse_onto (x ∷ names) []))
      unfolding clean replace_dst list_files finish
      clean-report x names log mounted full listed =
          let log1 = before_scan kernel log in
          let u = willing.can_unlink dst log in
          let (d, log2, done, sends) = clean_files_sends (reverse_onto (x ∷ names) []) none log1 in
          let v = willing.can_umount log2 in
          let log3 = unmounts true ∷ log2 in
          let same : sent log1 ≡ sent log = ground arith in
          (
            removes_dir (kernel.rmdir log3) ∷ log3,
            ground (arith, mounted, full, listed, u, v, done),
            sends ∙ ap (λ t. t ++ report (reverse_onto (x ∷ names) [])) same,
          )
