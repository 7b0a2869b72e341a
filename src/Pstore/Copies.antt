-- ===== src/Pstore/Copies.antt =====
-- filecopy copies, and ends.
use android_device_xiaomi_la.Common.{
  ℕ, zero, suc, ◌+◌, ◌≤◌, ◌<◌, ◌≡◌, Bool, true, false, [], ◌∷◌, ◌++◌, Option, none, some, is_some,
  Option-cases, inl, inr, length, take, Text, arith, refl, sym, ap, subst, ◌∙◌,
}
use mathlib.Core.List.{append_assoc, append-nil}
use android_device_xiaomi_la.Pstore.Kernel.{
  Kernel, Log, opens, reads, writes, closes, received, sent, count_reads, reading,
}
use android_device_xiaomi_la.Pstore.Copy.{write_chunk, copy_round, copy_loop, filecopy}

-- Every write is accepted as a whole.
pub record IsFull (kernel : Kernel) : Type 0 where
  pub accepts :
      (fd : ℕ) (bytes : Text) (log : Log) → kernel.write fd bytes log ≡ some (length bytes)

-- A file has an end: when it was read `limit` times since it was opened, nothing is left.
pub record IsFinite (kernel : Kernel) (limit : ℕ) : Type 0 where
  pub ends : (fd : ℕ) (log : Log) → limit ≤ count_reads log → (kernel.read fd log ≡ some [])

module _ (kernel : Kernel) where
  -- What was sent since `log` is what was received since.
  abbrev pub Copied : Log → Log → Type 0
  Copied log log' = (x : Text) × (received log' ≡ received log ++ x) × (sent log' ≡ sent log ++ x)

  -- What the last read gave.
  abbrev pub last_read : Log → Option Text
  last_read [] = none
  last_read (reads fd got ∷ log) = got
  last_read (_ ∷ log) = last_read log

  -- A copy that succeeds.
  abbrev Whole : Log → Option (Bool × Log) → Type 0
  Whole log (some (true, log')) = Copied log log' × (last_read log' ≡ some [])
  Whole log _ = Unit {0}

  pub take_full : (s : Text) → take (length s) s ≡ s
  take_full [] = refl
  take_full (c ∷ s) = ap (λ l. c ∷ l) (take_full s)

  -- A round that is followed by a whole copy.
  Copied-cons :
      (src dst : ℕ) (bytes : Text) (log log' : Log)
      → Copied (writes dst bytes (some (length bytes)) ∷ reads src (some bytes) ∷ log) log'
      → Copied log log'
  Copied-cons src dst bytes log log' (x, r, s) = (
    bytes ++ x,
    r ∙ append_assoc (received log) bytes x,
    s ∙ rw (take_full bytes) (append_assoc (sent log) bytes x),
  )

  Whole-cons :
      (src dst : ℕ) (bytes : Text) (log : Log) (out : Option (Bool × Log))
      → Whole (writes dst bytes (some (length bytes)) ∷ reads src (some bytes) ∷ log) out
      → Whole log out
  Whole-cons src dst bytes log none w = tt
  Whole-cons src dst bytes log (some (false, log')) w = tt
  Whole-cons src dst bytes log (some (true, log')) w = (Copied-cons src dst bytes log log' w.0, w.1)

  Whole-of : (log : Log) (o out : Option (Bool × Log)) → o ≡ out → Whole log out → Whole log o
  Whole-of log o out e w = subst (Whole log) (sym e) w

  copy_loop-Whole :
      (n src dst : ℕ) (log : Log) → IsFull kernel → Whole log (copy_loop kernel n src dst log)
  unfolding copy_loop copy_round write_chunk
  copy_loop-Whole zero src dst log full = tt
  copy_loop-Whole (suc n) src dst log full =
      let all = copy_loop kernel (suc n) src dst log in
      elim (Option-cases (kernel.read src log)) [
        | inl r ↦
            Whole-of log all (some (false, closes src ∷ reads src none ∷ log)) (ground arith) tt
        | inr ([], r) ↦
            let log1 = reads src (some []) ∷ log in
            let w = full.accepts dst [] log1 in
            Whole-of log all (some (true, closes src ∷ writes dst [] (some 0) ∷ log1))
              (ground arith) (([], refl, refl), refl)
        | inr (b ∷ bytes, r) ↦
            let log1 = reads src (some (b ∷ bytes)) ∷ log in
            let w = full.accepts dst (b ∷ bytes) log1 in
            let log2 = writes dst (b ∷ bytes) (some (length (b ∷ bytes))) ∷ log1 in
            let rest = copy_loop kernel n src dst log2 in
            Whole-of log all rest (ground arith)
              (Whole-cons src dst (b ∷ bytes) log rest (copy_loop-Whole n src dst log2 full))
      ]

  filecopy-Whole :
      (n : ℕ) (path : Text) (dst : ℕ) (log : Log)
      → IsFull kernel
      → Whole log (filecopy kernel n path dst log)
  unfolding filecopy
  filecopy-Whole n path dst log full =
      let all = filecopy kernel n path dst log in
      elim (Option-cases (kernel.open_file reading path log)) [
        | inl o ↦ Whole-of log all (some (false, opens reading path none ∷ log)) (ground arith) tt
        | inr (src, o) ↦
            let log1 = opens reading path (some src) ∷ log in
            Whole-of log all (copy_loop kernel n src dst log1) (ground arith)
              (copy_loop-Whole n src dst log1 full)
      ]

  -- If writes are accepted as a whole, a copy that reports success has sent exactly the bytes that it
  -- has received, in order, and its last read found the end of the file.
  pub filecopy-Copied :
      (n : ℕ) (path : Text) (dst : ℕ) (log log' : Log)
      → IsFull kernel
      → filecopy kernel n path dst log ≡ some (true, log')
      → Copied log log' × (last_read log' ≡ some [])
  filecopy-Copied n path dst log log' full e =
      subst (Whole log) e (filecopy-Whole n path dst log full)

  copy_loop_ends :
      (limit n src dst : ℕ) (log : Log)
      → IsFinite kernel limit
      → limit < n + count_reads log
      → 0 < n
      → is_some (copy_loop kernel n src dst log) ≡ true
  unfolding copy_loop copy_round write_chunk
  copy_loop_ends limit zero src dst log fin h p = absurd (omega arith)
  copy_loop_ends limit (suc n) src dst log fin h p = elim (Option-cases (kernel.read src log)) [
    | inl r ↦ ground arith
    | inr ([], r) ↦ ground arith
    | inr (b ∷ bytes, r) ↦
        let log1 = reads src (some (b ∷ bytes)) ∷ log in
        elim (Option-cases (kernel.write dst (b ∷ bytes) log1)) [
          | inl w ↦ ground arith
          | inr (zero, w) ↦ ground arith
          | inr (suc k, w) ↦
              let log2 = writes dst (b ∷ bytes) (some (suc k)) ∷ log1 in
              let early : count_reads log < limit = ground (arith, fin.ends src log) in
              ground (arith, copy_loop_ends limit n src dst log2 fin)
        ]
  ]

  -- If no file is longer than `limit` reads, a copy ends within one more round.
  pub filecopy_ends :
      (limit n : ℕ) (path : Text) (dst : ℕ) (log : Log)
      → IsFinite kernel limit
      → limit < n
      → is_some (filecopy kernel n path dst log) ≡ true
  unfolding filecopy
  filecopy_ends limit n path dst log fin h =
      elim (Option-cases (kernel.open_file reading path log)) [
        | inl o ↦ ground arith
        | inr (src, o) ↦
            ground (arith, copy_loop_ends limit n src dst (opens reading path (some src) ∷ log) fin)
      ]

  abbrev opened : Text → ℕ → Log → Log
  opened path src log = opens reading path (some src) ∷ log

  abbrev cut_off : ℕ → ℕ → Text → ℕ → Log → Log
  cut_off src dst bytes k log = writes dst bytes (some k) ∷ reads src (some bytes) ∷ log

  -- A write that accepts only a part of a chunk loses the rest: if the next read finds the end of the
  -- file and the empty write succeeds, the copy reports success, and only the part was sent.
  filecopy_truncates :
      (n : ℕ) (path : Text) (src dst b k : ℕ) (bytes : Text) (log : Log)
      → kernel.open_file reading path log ≡ some src
      → kernel.read src (opened path src log) ≡ some (b ∷ bytes)
      → kernel.write dst (b ∷ bytes) (reads src (some (b ∷ bytes)) ∷ opened path src log)
        ≡ some (suc k)
      → kernel.read src (cut_off src dst (b ∷ bytes) (suc k) (opened path src log)) ≡ some []
      → kernel.write dst []
          (reads src (some []) ∷ cut_off src dst (b ∷ bytes) (suc k) (opened path src log))
        ≡ some 0
      → (log' : Log) × (filecopy kernel (suc (suc n)) path dst log ≡ some (true, log'))
        × (received log' ≡ received log ++ (b ∷ bytes))
        × (sent log' ≡ sent log ++ take (suc k) (b ∷ bytes))
  unfolding filecopy copy_loop copy_round write_chunk
  filecopy_truncates n path src dst b k bytes log o r w r' w' =
      let log2 = cut_off src dst (b ∷ bytes) (suc k) (opened path src log) in
      (
        closes src ∷ cut_off src dst [] 0 log2,
        ground arith,
        append-nil (received log ++ (b ∷ bytes)),
        append-nil (sent log ++ take (suc k) (b ∷ bytes)),
      )
