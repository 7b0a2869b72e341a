-- ===== src/Pstore/Balance.antt =====
-- The copies close what they open, and leave the mount point alone.
use android_device_xiaomi_la.Common.{
  ℕ, zero, suc, ◌+◌, ◌≡◌, Bool, true, false, List, [], ◌∷◌, Option, none, some, Option-cases,
  Bool-cases, inl, inr, Text, arith,
}
use android_device_xiaomi_la.Pstore.Names.{Config, Action, by_default, keep, move, action_for}
use android_device_xiaomi_la.Pstore.Kernel.{
  Kernel, Log, opens, reads, writes, reading, truncating, appending, count_opens, count_closes,
  count_unmounts, count_rmdirs, unmounted,
}
use android_device_xiaomi_la.Pstore.Copy.{write_chunk, copy_round, copy_loop, filecopy}
use android_device_xiaomi_la.Pstore.Clean.{
  mnt, dst, path_of, heading, is_dots, unlink_source, move_file, open_dst, append_file, perform,
  clean_file, clean_files,
}

-- Whether DST is open.
abbrev pub held : Option ℕ → ℕ
held none = 0
held (some fd) = 1

-- The mount point was left alone, and with `more` closed descriptors before and `less` after, as many
-- are open as before.
abbrev pub Balanced : ℕ → ℕ → Log → Log → Type 0
Balanced more less log log' =
    (count_unmounts log' ≡ count_unmounts log)
    × (count_rmdirs log' ≡ count_rmdirs log)
    × (unmounted log' ≡ unmounted log)
    × (count_opens log' + count_closes log + more ≡ count_opens log + count_closes log' + less)

module _ (kernel : Kernel) where
  copy_loop-Balanced :
      (n src dst : ℕ) (log log' : Log) (good : Bool)
      → copy_loop kernel n src dst log ≡ some (good, log')
      → Balanced 1 0 log log'
  unfolding copy_loop copy_round write_chunk
  copy_loop-Balanced zero src dst log log' good e = ground arith
  copy_loop-Balanced (suc n) src dst log log' good e = elim (Option-cases (kernel.read src log)) [
    | inl r ↦ ground arith
    | inr (bytes, r) ↦
        let written = kernel.write dst bytes (reads src (some bytes) ∷ log) in
        let log2 = writes dst bytes written ∷ reads src (some bytes) ∷ log in
        ground (arith, copy_loop-Balanced n src dst log2 log' good)
  ]

  filecopy-Balanced :
      (n : ℕ) (path : Text) (dst : ℕ) (log log' : Log) (good : Bool)
      → filecopy kernel n path dst log ≡ some (good, log')
      → Balanced 0 0 log log'
  unfolding filecopy
  filecopy-Balanced n path dst log log' good e =
      elim (Option-cases (kernel.open_file reading path log)) [
        | inl o ↦ ground arith
        | inr (src, o) ↦
            ground
              (arith, copy_loop-Balanced n src dst (opens reading path (some src) ∷ log) log' good)
      ]

module _ (kernel : Kernel) (config : Config) where
  move_file-Balanced :
      (n : ℕ) (to name : Text) (d d' : Option ℕ) (log log' : Log) (good : Bool)
      → move_file kernel config n to name d log ≡ some (good, d', log')
      → Balanced (held d) (held d') log log'
  unfolding move_file unlink_source
  move_file-Balanced n to name d d' log log' good e =
      elim (Option-cases (kernel.open_file truncating (path_of to name) log)) [
        | inl o ↦ ground arith
        | inr (fd, o) ↦
            let log1 = opens truncating (path_of to name) (some fd) ∷ log in
            elim (Option-cases (filecopy kernel n (path_of mnt name) fd log1)) [
              | inl c ↦ ground arith
              | inr ((copied, log2), c) ↦
                  ground
                    (arith, filecopy-Balanced kernel n (path_of mnt name) fd log1 log2 copied c)
            ]
      ]

  append_file-Balanced :
      (n : ℕ) (name : Text) (d d' : Option ℕ) (log log' : Log) (good : Bool)
      → append_file kernel config n name d log ≡ some (good, d', log')
      → Balanced (held d) (held d') log log'
  unfolding append_file unlink_source
  append_file-Balanced n name none d' log log' good e = ground arith
  append_file-Balanced n name (some fd) d' log log' good e =
      let log1 = writes fd (heading name) (kernel.write fd (heading name) log) ∷ log in
      elim (Option-cases (filecopy kernel n (path_of mnt name) fd log1)) [
        | inl c ↦ ground arith
        | inr ((copied, log2), c) ↦
            ground (arith, filecopy-Balanced kernel n (path_of mnt name) fd log1 log2 copied c)
      ]

  perform-Balanced :
      (n : ℕ) (action : Action) (name : Text) (d d' : Option ℕ) (log log' : Log) (good : Bool)
      → perform kernel config n action name d log ≡ some (good, d', log')
      → Balanced (held d) (held d') log log'
  unfolding perform open_dst
  perform-Balanced n (move to) name d d' log log' good e =
      move_file-Balanced n to name d d' log log' good e
  perform-Balanced n keep name d d' log log' good e = ground arith
  perform-Balanced n by_default name (some fd) d' log log' good e =
      append_file-Balanced n name (some fd) d' log log' good e
  perform-Balanced n by_default name none d' log log' good e =
      elim (Option-cases (kernel.open_file appending dst log)) [
        | inl o ↦
            ground (
              arith,
              append_file-Balanced n name none d' (opens appending dst none ∷ log) log' good,
            )
        | inr (fd, o) ↦ ground (
          arith,
          append_file-Balanced n name (some fd) d' (opens appending dst (some fd) ∷ log) log' good,
        )
      ]

  clean_file-Balanced :
      (n : ℕ) (name : Text) (d d' : Option ℕ) (log log' : Log) (good : Bool)
      → clean_file kernel config n name d log ≡ some (good, d', log')
      → Balanced (held d) (held d') log log'
  unfolding clean_file
  clean_file-Balanced n name d d' log log' good e =
      let action = action_for config name in
      elim (Bool-cases (is_dots name)) [
        | inl y ↦ ground arith
        | inr no_dots ↦ ground (arith, perform-Balanced n action name d d' log log' good)
      ]

  pub clean_files-Balanced :
      (n : ℕ) (names : List Text) (d d' : Option ℕ) (log log' : Log) (good : Bool)
      → clean_files kernel config n names d log ≡ some (good, d', log')
      → Balanced (held d) (held d') log log'
  unfolding clean_files
  clean_files-Balanced n [] d d' log log' good e = ground arith
  clean_files-Balanced n (name ∷ names) d d' log log' good e =
      elim (Option-cases (clean_file kernel config n name d log)) [
        | inl c ↦ ground arith
        | inr ((false, d1, log1), c) ↦
            ground (arith, clean_file-Balanced n name d d1 log log1 false c)
        | inr ((true, d1, log1), c) ↦ ground (
          arith,
          clean_file-Balanced n name d d1 log log1 true c,
          clean_files-Balanced n names d1 d' log1 log' good,
        )
      ]
