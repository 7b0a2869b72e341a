-- ===== src/Pstore/Ends.antt =====
-- How the tool ends: what it closes, and what it does to the mount point.
use android_device_xiaomi_la.Common.{
  ℕ, ◌+◌, ◌≡◌, Bool, true, false, not, ◌&&◌, ◌≤◌, List, [], ◌∷◌, Option, none, some, Option-cases,
  Bool-cases, inl, inr, Text, arith, if◌then◌else◌,
}
use android_device_xiaomi_la.Pstore.Names.{Config}
use android_device_xiaomi_la.Pstore.Kernel.{
  Kernel, Log, unlinks, count_opens, count_closes, count_unmounts, count_rmdirs, unmounted,
}
use android_device_xiaomi_la.Pstore.Clean.{
  mnt, dst, clean_files, error1, error2, finish, list_files, replace_dst, clean, is_fs_mounted,
  dir_not_empty, reverse_onto, after_files,
}
use android_device_xiaomi_la.Pstore.Balance.{held, clean_files-Balanced}

module _ (kernel : Kernel) (config : Config) where
  -- From `log` on, with `mounted` file systems and `more` descriptors to take care of.
  pub record Exited (mounted more : ℕ) (log : Log) (out : Bool × Log) : Type 0 where
    pub removed_once : count_rmdirs out.1 ≡ count_rmdirs log + 1
    pub unmounted_once : count_unmounts out.1 ≡ count_unmounts log + mounted
    pub honest : (out.0 && not (unmounted out.1)) ≡ false
    pub no_extra_close :
        count_opens log + count_closes out.1 ≤ count_opens out.1 + count_closes log + more
    pub one_left :
        count_opens out.1 + count_closes log + more ≤ count_opens log + count_closes out.1 + 1

  error2-Exited : (d : Option ℕ) (log : Log) → Exited 1 (held d) log (error2 kernel config d log)
  unfolding error2 error1
  error2-Exited none log = ground arith
  error2-Exited (some fd) log = ground arith

  finish-Exited : (d : Option ℕ) (log : Log) → Exited 1 (held d) log (finish kernel config log)
  unfolding finish error1
  finish-Exited none log = ground arith
  finish-Exited (some fd) log = ground arith

  after_files-Exited :
      (n : ℕ) (names : List Text) (log : Log) (out : Bool × Log)
      → after_files kernel config (clean_files kernel config n names none log) ≡ some out
      → Exited 1 0 log out
  after_files-Exited n names log out e =
      elim (Option-cases (clean_files kernel config n names none log)) [
        | inl c ↦ ground arith
        | inr ((true, d, log1), c) ↦ ground (
          arith,
          clean_files-Balanced kernel config n names none d log log1 true c,
          finish-Exited d log1,
        )
        | inr ((false, d, log1), c) ↦ ground (
          arith,
          clean_files-Balanced kernel config n names none d log log1 false c,
          error2-Exited d log1,
        )
      ]

  list_files-Exited :
      (n : ℕ) (log : Log) (out : Bool × Log)
      → list_files kernel config n log ≡ some out
      → Exited 1 0 log out
  unfolding list_files
  list_files-Exited n log out e = elim (Option-cases (kernel.scandir log)) [
    | inl s ↦ ground (arith, error2-Exited none log)
    | inr ([], s) ↦ ground (arith, error2-Exited none log)
    | inr (x ∷ names, s) ↦
        ground (arith, after_files-Exited n (reverse_onto (x ∷ names) []) log out)
  ]

  replace_dst-Exited :
      (n : ℕ) (log : Log) (out : Bool × Log)
      → replace_dst kernel config n log ≡ some out
      → Exited 1 0 log out
  unfolding replace_dst
  replace_dst-Exited n log out e = ground (
    arith,
    list_files-Exited n log out,
    list_files-Exited n (unlinks dst true ∷ log) out,
    error2-Exited none (unlinks dst false ∷ log),
  )

  -- However the tool exits: it has tried to remove the mount point exactly once, to unmount exactly
  -- once if it was mounted and never if not, and it reports success only if the unmounting
  -- succeeded; it has closed no more descriptors than it opened, and left at most one open.
  pub clean-Exited :
      (n : ℕ) (log : Log) (out : Bool × Log)
      → clean kernel config n log ≡ some out
      → Exited (if is_fs_mounted kernel config mnt log then 1 else 0) 0 log out
  unfolding clean
  clean-Exited n log out e = elim (Bool-cases (is_fs_mounted kernel config mnt log)) [
    | inr unmounted_ ↦ rw unmounted_ (unfold error1 in ground arith)
    | inl y ↦ rw y (elim (Option-cases (dir_not_empty kernel config log)) [
      | inl s ↦ ground (arith, error2-Exited none log)
      | inr (false, s) ↦ ground (arith, finish-Exited none log)
      | inr (true, s) ↦ ground (arith, replace_dst-Exited n log out)
    ])
  ]
