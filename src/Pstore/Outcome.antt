-- ===== src/Pstore/Outcome.antt =====
-- What a run of the tool has removed when it ends.
use android_device_xiaomi_la.Common.{
  ◌≡◌, Bool, true, false, ◌||◌, List, [], ◌∷◌, Option, none, some, Option-cases, inl, inr, Text,
  equal, equal_refl, refl, ℕ, arith, if◌then◌else◌,
}
use android_device_xiaomi_la.Pstore.Names.{Config}
use android_device_xiaomi_la.Pstore.Kernel.{Kernel, Log, opens, truncating, unlinks, unlinked, sent}
use android_device_xiaomi_la.Pstore.Clean.{
  mnt, dst, path_of, move_file, unlink_source, clean_files, error1, list_files, replace_dst, clean,
  dir_not_empty, reverse_onto, after_files,
}
use android_device_xiaomi_la.Pstore.Removes.{
  removable, removable-reverse_onto, clean_files-Removed, Removed, unlinked-error2, unlinked-finish,
  error2_good,
}

-- What scandir lists, and the calls before it.
abbrev pub listing : Kernel → Log → List Text
listing kernel log = elim (kernel.scandir log) [ none ↦ [] | some names ↦ names ]

abbrev pub before_scan : Kernel → Log → Log
before_scan kernel log = if kernel.exists dst log then unlinks dst true ∷ log else log

module _ (p : Text) (kernel : Kernel) (config : Config) where
  after_files-Removed :
      (n : ℕ) (names : List Text) (log log' : Log) (good : Bool)
      → after_files kernel config (clean_files kernel config n names none log) ≡ some (good, log')
      → Removed p kernel config good names log log'
  after_files-Removed n names log log' good e =
      elim (Option-cases (clean_files kernel config n names none log)) [
        | inl c ↦ ground arith
        | inr ((true, d, log1), c) ↦ ground (
          arith,
          clean_files-Removed p kernel config n names none d log log1 true c,
          unlinked-finish p kernel config log1,
        )
        | inr ((false, d, log1), c) ↦ ground (
          arith,
          clean_files-Removed p kernel config n names none d log log1 false c,
          unlinked-error2 p kernel config d log1,
          error2_good p kernel config d log1,
        )
      ]

  list_files-Removed :
      (n : ℕ) (log log' : Log) (good : Bool)
      → list_files kernel config n log ≡ some (good, log')
      → Removed p kernel config good (listing kernel log) log log'
  unfolding list_files
  list_files-Removed n log log' good e = elim (Option-cases (kernel.scandir log)) [
    | inl s ↦
        ground
          (arith, unlinked-error2 p kernel config none log, error2_good p kernel config none log)
    | inr ([], s) ↦
        ground
          (arith, unlinked-error2 p kernel config none log, error2_good p kernel config none log)
    | inr (x ∷ names, s) ↦ ground (
      arith,
      after_files-Removed n (reverse_onto (x ∷ names) []) log log' good,
      removable-reverse_onto config p (x ∷ names) [],
    )
  ]

  -- Of a pstore that is not empty, a run that reports success has removed exactly the old DST, if it
  -- was there, and every listed file but "." and ".." and those with the rule `keep`.
  pub clean_removes :
      (n : ℕ) (log log' : Log)
      → dir_not_empty kernel config log ≡ some true
      → clean kernel config n log ≡ some (true, log')
      → unlinked p log' ≡ (
          removable config p (listing kernel (before_scan kernel log))
          || unlinked p (before_scan kernel log))
  unfolding clean replace_dst error1
  clean_removes n log log' full e =
      let log1 = before_scan kernel log in
      ground (
        arith,
        list_files-Removed n log1 log' true,
        error2_good p kernel config none (unlinks dst false ∷ log),
      )

  -- However a run ends, it has removed nothing but DST and listed files that are not "." or ".." and
  -- have no rule `keep`.
  pub clean_spares :
      (n : ℕ) (log log' : Log) (good : Bool)
      → clean kernel config n log ≡ some (good, log')
      → unlinked p log' ≡ true
      → (removable config p (listing kernel (before_scan kernel log))
          || (equal p dst || unlinked p log))
        ≡ true
  unfolding clean replace_dst error1
  clean_spares n log log' good e u =
      let log1 = before_scan kernel log in
      elim (Option-cases (dir_not_empty kernel config log)) [
        | inl s ↦ ground (arith, unlinked-error2 p kernel config none log)
        | inr (false, s) ↦ ground (arith, unlinked-finish p kernel config log)
        | inr (true, s) ↦ ground (
          arith,
          list_files-Removed n log1 log' good,
          unlinked-error2 p kernel config none (unlinks dst false ∷ log),
        )
      ]

module _ (kernel : Kernel) (config : Config) where
  -- With the rule `move` and a destination that cannot be opened, nothing is written, and the file is
  -- removed all the same.
  move_file_loses :
      (n : ℕ) (to name : Text) (d : Option ℕ) (log : Log)
      → kernel.open_file truncating (path_of to name) log ≡ none
      → kernel.unlink (path_of mnt name) (opens truncating (path_of to name) none ∷ log) ≡ true
      → (log' : Log) × (move_file kernel config n to name d log ≡ some (true, d, log'))
        × (sent log' ≡ sent log)
        × (unlinked (path_of mnt name) log' ≡ true)
  unfolding move_file unlink_source
  move_file_loses n to name d log o u =
      let log1 = opens truncating (path_of to name) none ∷ log in
      (
        unlinks (path_of mnt name) true ∷ log1,
        ground arith,
        refl,
        ground (arith, equal_refl (path_of mnt name)),
      )
