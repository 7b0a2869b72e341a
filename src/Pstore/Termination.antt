-- ===== src/Pstore/Termination.antt =====
-- The tool ends.
use android_device_xiaomi_la.Common.{
  ℕ, ◌<◌, ◌≡◌, true, false, List, [], ◌∷◌, Option, none, some, is_some, Option-cases, inl, inr,
  Text, arith,
}
use android_device_xiaomi_la.Pstore.Names.{Config, Action, by_default, keep, move, action_for}
use android_device_xiaomi_la.Pstore.Kernel.{Kernel, Log, opens, writes, truncating, appending}
use android_device_xiaomi_la.Pstore.Copies.{IsFinite, filecopy_ends}
use android_device_xiaomi_la.Pstore.Clean.{
  mnt, dst, path_of, heading, move_file, open_dst, append_file, perform, clean_file, clean_files,
  list_files, replace_dst, clean, dir_not_empty, reverse_onto,
}
use android_device_xiaomi_la.Pstore.Outcome.{before_scan}

module _ (kernel : Kernel) (config : Config) (limit : ℕ) (fin : IsFinite kernel limit) where
  perform_ends :
      (n : ℕ) (action : Action) (name : Text) (d : Option ℕ) (log : Log)
      → limit < n
      → is_some (perform kernel config n action name d log) ≡ true
  unfolding perform move_file open_dst append_file
  perform_ends n (move to) name d log h =
      elim (Option-cases (kernel.open_file truncating (path_of to name) log)) [
        | inl o ↦ ground arith
        | inr (fd, o) ↦
            let log1 = opens truncating (path_of to name) (some fd) ∷ log in
            ground (arith, filecopy_ends kernel limit n (path_of mnt name) fd log1 fin)
      ]
  perform_ends n keep name d log h = ground arith
  perform_ends n by_default name (some fd) log h =
      let log1 = writes fd (heading name) (kernel.write fd (heading name) log) ∷ log in
      ground (arith, filecopy_ends kernel limit n (path_of mnt name) fd log1 fin)
  perform_ends n by_default name none log h =
      elim (Option-cases (kernel.open_file appending dst log)) [
        | inl o ↦ ground arith
        | inr (fd, o) ↦
            let log0 = opens appending dst (some fd) ∷ log in
            let log1 = writes fd (heading name) (kernel.write fd (heading name) log0) ∷ log0 in
            ground (arith, filecopy_ends kernel limit n (path_of mnt name) fd log1 fin)
      ]

  clean_files_ends :
      (n : ℕ) (names : List Text) (d : Option ℕ) (log : Log)
      → limit < n
      → is_some (clean_files kernel config n names d log) ≡ true
  unfolding clean_files clean_file
  clean_files_ends n [] d log h = ground arith
  clean_files_ends n (name ∷ names) d log h =
      elim (Option-cases (clean_file kernel config n name d log)) [
        | inl c ↦ ground (arith, perform_ends n (action_for config name) name d log)
        | inr ((true, d1, log1), c) ↦ ground (arith, clean_files_ends n names d1 log1)
        | inr ((false, d1, log1), c) ↦ ground arith
      ]

  -- If no file is longer than `limit` reads, one more round for each copy is enough for the tool to
  -- end, whatever the kernel answers otherwise.
  pub clean_ends : (n : ℕ) (log : Log) → limit < n → is_some (clean kernel config n log) ≡ true
  unfolding clean replace_dst list_files
  clean_ends n log h =
      let log1 = before_scan kernel log in
      elim (Option-cases (dir_not_empty kernel config log)) [
        | inl s ↦ ground arith
        | inr (false, s) ↦ ground arith
        | inr (true, s) ↦ elim (Option-cases (kernel.scandir log1)) [
          | inl none_ ↦ ground arith
          | inr ([], some_) ↦ ground arith
          | inr (x ∷ names, some_) ↦
              let e = clean_files_ends n (reverse_onto (x ∷ names) []) none log1 h in
              elim (Option-cases
                (clean_files kernel config n (reverse_onto (x ∷ names) []) none log1)) [
                  | inl c ↦ ground arith
                  | inr ((true, d, log2), c) ↦ ground arith
                  | inr ((false, d, log2), c) ↦ ground arith
                ]
        ]
      ]
