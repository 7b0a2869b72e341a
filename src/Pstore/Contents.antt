-- ===== src/Pstore/Contents.antt =====
-- A copy sends the contents of its file.
use android_device_xiaomi_la.Common.{
  ℕ, zero, suc, ◌<◌, ◌≡◌, refl, sym, ap, ◌∙◌, true, [], ◌∷◌, ◌++◌, some, is_some, Option-cases, inl,
  inr, length, length-append, Text, arith,
}
use mathlib.Core.List.{append_assoc}
use android_device_xiaomi_la.Pstore.Kernel.{
  Kernel, Log, reading, appending, opens, reads, writes, closes, sent,
}
use android_device_xiaomi_la.Pstore.Copy.{write_chunk, copy_round, copy_loop, filecopy}
use android_device_xiaomi_la.Pstore.Copies.{IsFull, take_full}

-- The bytes read since the last open, and the path that was opened.
abbrev pub progress : Log → Text
progress [] = []
progress (opens mode path fd ∷ log) = []
progress (reads fd (some bytes) ∷ log) = progress log ++ bytes
progress (_ ∷ log) = progress log

abbrev pub current : Log → Text
current [] = []
current (opens mode path fd ∷ log) = path
current (_ ∷ log) = current log

-- A disk on which opening, reading and writing succeed. While what was read of a file is a beginning
-- of its contents, read goes on with what follows, and gives nothing only at the end.
pub record IsDisk (kernel : Kernel) (content : Text → Text) : Type 0 where
  pub full : IsFull kernel
  pub can_read : (fd : ℕ) (log : Log) → is_some (kernel.read fd log) ≡ true
  pub can_open :
      (path : Text) (log : Log)
      → (is_some (kernel.open_file reading path log) ≡ true)
        × (is_some (kernel.open_file appending path log) ≡ true)
  pub goes_on :
      (fd : ℕ) (log : Log) (bytes rest : Text)
      → progress log ++ rest ≡ content (current log)
      → kernel.read fd log ≡ some bytes
      → (rest' : Text) × (rest ≡ bytes ++ rest')
  pub at_end :
      (fd : ℕ) (log : Log) (rest : Text)
      → progress log ++ rest ≡ content (current log)
      → kernel.read fd log ≡ some []
      → rest ≡ []

module _ (kernel : Kernel) (content : Text → Text) (disk : IsDisk kernel content) where
  copy_loop_sends :
      (n src dst : ℕ) (log : Log) (rest : Text)
      → progress log ++ rest ≡ content (current log)
      → length rest < n
      → (log' : Log) × (copy_loop kernel n src dst log ≡ some (true, log'))
        × (sent log' ≡ sent log ++ rest)
  unfolding copy_loop copy_round write_chunk
  copy_loop_sends zero src dst log rest at h = absurd (omega arith)
  copy_loop_sends (suc n) src dst log rest at h = elim (Option-cases (kernel.read src log)) [
    | inl r ↦ absurd (ground (arith, disk.can_read src log))
    | inr ([], r) ↦
        let log1 = reads src (some []) ∷ log in
        let w = disk.full.accepts dst [] log1 in
        let end = disk.at_end src log rest at r in
        (
          closes src ∷ writes dst [] (some 0) ∷ log1,
          ground arith,
          ap (λ x. sent log ++ x) (sym end),
        )
    | inr (b ∷ bytes, r) ↦
        let log1 = reads src (some (b ∷ bytes)) ∷ log in
        let w = disk.full.accepts dst (b ∷ bytes) log1 in
        let log2 = writes dst (b ∷ bytes) (some (length (b ∷ bytes))) ∷ log1 in
        let (rest', split) = disk.goes_on src log (b ∷ bytes) rest at r in
        let at' : progress log2 ++ rest' ≡ content (current log2) =
          append_assoc (progress log) (b ∷ bytes) rest'
          ∙ ap (λ x. progress log ++ x) (sym split)
          ∙ at in
        let fewer : length rest' < n =
          let l = ap length split in
          let k = length-append (b ∷ bytes) rest' in omega (arith, l, k, h) in
        let (log', done, sends) = copy_loop_sends n src dst log2 rest' at' fewer in
        (
          log',
          ground (arith, done),
          sends
              ∙ ap (λ x. (sent log ++ x) ++ rest') (take_full kernel (b ∷ bytes))
              ∙ append_assoc (sent log) (b ∷ bytes) rest'
              ∙ ap (λ x. sent log ++ x) (sym split),
        )
  ]

  -- A copy with more rounds than the file has bytes succeeds and sends what is in the file.
  pub filecopy_sends :
      (n : ℕ) (path : Text) (dst : ℕ) (log : Log)
      → length (content path) < n
      → (log' : Log) × (filecopy kernel n path dst log ≡ some (true, log'))
        × (sent log' ≡ sent log ++ content path)
  unfolding filecopy
  filecopy_sends n path dst log h = elim (Option-cases (kernel.open_file reading path log)) [
    | inl o ↦ absurd (ground (arith, disk.can_open path log))
    | inr (src, o) ↦
        let log1 = opens reading path (some src) ∷ log in
        let (log', done, sends) = copy_loop_sends n src dst log1 (content path) refl h in
        (log', ground (arith, done), sends)
  ]
