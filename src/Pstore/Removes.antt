-- ===== src/Pstore/Removes.antt =====
-- Which files the tool removes.
use android_device_xiaomi_la.Common.{
  ℕ, zero, suc, ◌≡◌, Bool, true, false, not, ◌&&◌, ◌||◌, List, [], ◌∷◌, Option, none, some,
  Option-cases, Bool-cases, inl, inr, Text, equal, arith,
}
use android_device_xiaomi_la.Pstore.Names.{Config, Action, by_default, keep, move, action_for}
use android_device_xiaomi_la.Pstore.Kernel.{
  Kernel, Log, opens, reads, writes, reading, truncating, appending, unlinked,
}
use android_device_xiaomi_la.Pstore.Copy.{write_chunk, copy_round, copy_loop, filecopy}
use android_device_xiaomi_la.Pstore.Clean.{
  mnt, dst, path_of, heading, is_dots, unlink_source, move_file, open_dst, append_file, perform,
  clean_file, clean_files, error1, error2, finish, reverse_onto,
}

abbrev pub is_keep : Action → Bool
is_keep keep = true
is_keep _ = false

module _ (p : Text) (kernel : Kernel) where
  unlinked-copy_loop :
      (n src dst : ℕ) (log log' : Log) (good : Bool)
      → copy_loop kernel n src dst log ≡ some (good, log')
      → unlinked p log' ≡ unlinked p log
  unfolding copy_loop copy_round write_chunk
  unlinked-copy_loop zero src dst log log' good e = ground arith
  unlinked-copy_loop (suc n) src dst log log' good e = elim (Option-cases (kernel.read src log)) [
    | inl r ↦ ground arith
    | inr (bytes, r) ↦
        let written = kernel.write dst bytes (reads src (some bytes) ∷ log) in
        let log2 = writes dst bytes written ∷ reads src (some bytes) ∷ log in
        ground (arith, unlinked-copy_loop n src dst log2 log' good)
  ]

  unlinked-filecopy :
      (n : ℕ) (path : Text) (dst : ℕ) (log log' : Log) (good : Bool)
      → filecopy kernel n path dst log ≡ some (good, log')
      → unlinked p log' ≡ unlinked p log
  unfolding filecopy
  unlinked-filecopy n path dst log log' good e =
      elim (Option-cases (kernel.open_file reading path log)) [
        | inl o ↦ ground arith
        | inr (src, o) ↦
            ground
              (arith, unlinked-copy_loop n src dst (opens reading path (some src) ∷ log) log' good)
      ]

module _ (config : Config) where
  -- The path is that of a file that is not to be kept.
  abbrev pub targets : Text → Text → Bool
  targets p name =
      not (is_dots name) && (not (is_keep (action_for config name)) && equal p (path_of mnt name))

  abbrev pub removable : Text → List Text → Bool
  removable p [] = false
  removable p (name ∷ names) = targets p name || removable p names

  pub removable-reverse_onto :
      (p : Text) (xs ys : List Text)
      → removable p (reverse_onto xs ys) ≡ (removable p xs || removable p ys)
  removable-reverse_onto p [] ys = ground arith
  removable-reverse_onto p (x ∷ xs) ys = ground (arith, removable-reverse_onto p xs (x ∷ ys))

module _ (p : Text) (kernel : Kernel) (config : Config) where
  unlinked-move_file :
      (n : ℕ) (to name : Text) (d d' : Option ℕ) (log log' : Log) (good : Bool)
      → move_file kernel config n to name d log ≡ some (good, d', log')
      → unlinked p log' ≡ ((good && equal p (path_of mnt name)) || unlinked p log)
  unfolding move_file unlink_source
  unlinked-move_file n to name d d' log log' good e =
      elim (Option-cases (kernel.open_file truncating (path_of to name) log)) [
        | inl o ↦ ground arith
        | inr (fd, o) ↦
            let log1 = opens truncating (path_of to name) (some fd) ∷ log in
            elim (Option-cases (filecopy kernel n (path_of mnt name) fd log1)) [
              | inl c ↦ ground arith
              | inr ((copied, log2), c) ↦
                  ground
                    (arith, unlinked-filecopy p kernel n (path_of mnt name) fd log1 log2 copied c)
            ]
      ]

  unlinked-append_file :
      (n : ℕ) (name : Text) (d d' : Option ℕ) (log log' : Log) (good : Bool)
      → append_file kernel config n name d log ≡ some (good, d', log')
      → unlinked p log' ≡ ((good && equal p (path_of mnt name)) || unlinked p log)
  unfolding append_file unlink_source
  unlinked-append_file n name none d' log log' good e = ground arith
  unlinked-append_file n name (some fd) d' log log' good e =
      let log1 = writes fd (heading name) (kernel.write fd (heading name) log) ∷ log in
      elim (Option-cases (filecopy kernel n (path_of mnt name) fd log1)) [
        | inl c ↦ ground arith
        | inr ((copied, log2), c) ↦
            ground (arith, unlinked-filecopy p kernel n (path_of mnt name) fd log1 log2 copied c)
      ]

  unlinked-perform :
      (n : ℕ) (action : Action) (name : Text) (d d' : Option ℕ) (log log' : Log) (good : Bool)
      → perform kernel config n action name d log ≡ some (good, d', log')
      → unlinked p log'
        ≡ ((good && (not (is_keep action) && equal p (path_of mnt name))) || unlinked p log)
  unfolding perform open_dst
  unlinked-perform n (move to) name d d' log log' good e =
      unlinked-move_file n to name d d' log log' good e
  unlinked-perform n keep name d d' log log' good e = ground arith
  unlinked-perform n by_default name (some fd) d' log log' good e =
      unlinked-append_file n name (some fd) d' log log' good e
  unlinked-perform n by_default name none d' log log' good e =
      let fd = kernel.open_file appending dst log in
      ground (arith, unlinked-append_file n name fd d' (opens appending dst fd ∷ log) log' good)

  unlinked-clean_file :
      (n : ℕ) (name : Text) (d d' : Option ℕ) (log log' : Log) (good : Bool)
      → clean_file kernel config n name d log ≡ some (good, d', log')
      → unlinked p log' ≡ ((good && targets config p name) || unlinked p log)
  unfolding clean_file
  unlinked-clean_file n name d d' log log' good e =
      let action = action_for config name in
      elim (Bool-cases (is_dots name)) [
        | inl y ↦ ground arith
        | inr files ↦ ground (arith, unlinked-perform n action name d d' log log' good)
      ]

  -- Whole if the loop runs to its end; else some of it.
  abbrev pub Removed : Bool → List Text → Log → Log → Type 0
  Removed good names log log' =
      ((good && not (unlinked p log')) ≡ (good && not (removable config p names || unlinked p log)))
      × ((unlinked p log' && not (removable config p names || unlinked p log)) ≡ false)

  pub clean_files-Removed :
      (n : ℕ) (names : List Text) (d d' : Option ℕ) (log log' : Log) (good : Bool)
      → clean_files kernel config n names d log ≡ some (good, d', log')
      → Removed good names log log'
  unfolding clean_files
  clean_files-Removed n [] d d' log log' good e = ground arith
  clean_files-Removed n (name ∷ names) d d' log log' good e =
      elim (Option-cases (clean_file kernel config n name d log)) [
        | inl c ↦ ground arith
        | inr ((false, d1, log1), c) ↦
            ground (arith, unlinked-clean_file n name d d1 log log1 false c)
        | inr ((true, d1, log1), c) ↦ ground (
          arith,
          unlinked-clean_file n name d d1 log log1 true c,
          clean_files-Removed n names d1 d' log1 log' good,
        )
      ]

  pub unlinked-error2 :
      (d : Option ℕ) (log : Log) → unlinked p (error2 kernel config d log).1 ≡ unlinked p log
  unfolding error2 error1
  unlinked-error2 none log = ground arith
  unlinked-error2 (some fd) log = ground arith

  pub unlinked-finish : (log : Log) → unlinked p (finish kernel config log).1 ≡ unlinked p log
  unfolding finish error1
  unlinked-finish log = ground arith

  pub error2_good : (d : Option ℕ) (log : Log) → (error2 kernel config d log).0 ≡ false
  unfolding error2 error1
  error2_good d log = ground arith
