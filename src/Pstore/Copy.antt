-- ===== src/Pstore/Copy.antt =====
-- pstore/pstore-clean.c: filecopy. The number of rounds of its loop is bounded; `none` when they are
-- used up.
use android_device_xiaomi_la.Common.{
  ℕ, zero, suc, Bool, true, false, [], ◌∷◌, Option, none, some, Text,
}
use android_device_xiaomi_la.Pstore.Kernel.{Kernel, Log, reading, opens, reads, writes, closes}

-- How a round of the loop ends: the loop goes on, is left at its end, or is left by an error.
pub data Round : Type 0 where
  again finished broken : Round

-- `read_ret > 0 && write_ret > 0`, unless write failed.
abbrev pub verdict : Text → Option ℕ → Round
verdict bytes none = broken
verdict [] (some n) = finished
verdict (b ∷ bytes) (some zero) = finished
verdict (b ∷ bytes) (some (suc n)) = again

module _ (kernel : Kernel) where
  -- The rest of a round, after what read gave.
  unfoldable pub write_chunk : ℕ → Option Text → Log → Round × Log
  write_chunk dstfd none log = (broken, log)
  write_chunk dstfd (some bytes) log =
      let written = kernel.write dstfd bytes log in
      (verdict bytes written, writes dstfd bytes written ∷ log)

  -- The body of the loop.
  unfoldable pub copy_round : ℕ → ℕ → Log → Round × Log
  unfolding write_chunk
  copy_round srcfd dstfd log =
      let got = kernel.read srcfd log in write_chunk dstfd got (reads srcfd got ∷ log)

  -- The loop, and what follows it; `true` stands for the result 0.
  unfoldable pub copy_loop : ℕ → ℕ → ℕ → Log → Option (Bool × Log)
  unfolding copy_round
  copy_loop zero srcfd dstfd log = none
  copy_loop (suc n) srcfd dstfd log =
      let (round, log') = copy_round srcfd dstfd log in
      elim round [
        | again ↦ copy_loop n srcfd dstfd log'
        | finished ↦ some (true, closes srcfd ∷ log')
        | broken ↦ some (false, closes srcfd ∷ log')
      ]

  unfoldable pub filecopy : ℕ → Text → ℕ → Log → Option (Bool × Log)
  unfolding copy_loop
  filecopy n srcfile dstfd log =
      let fd = kernel.open_file reading srcfile log in
      elim fd [
        | none ↦ some (false, opens reading srcfile none ∷ log)
        | some srcfd ↦ copy_loop n srcfd dstfd (opens reading srcfile (some srcfd) ∷ log)
      ]
