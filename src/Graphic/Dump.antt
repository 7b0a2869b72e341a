-- ===== src/Graphic/Dump.antt =====
-- shim/ui/GraphicBufferAllocator.cpp: dump. What snprintf makes of the formats with numbers is a
-- parameter, and so is what the device prints.
use android_device_xiaomi_la.Common.{
  ℕ, ◌<◌, ◌≡◌, Bool-cases, inl, inr, ap, ◌∙◌, sym, Bool, [], ◌∷◌, ◌++◌, ◌==◌, if◌then◌else◌, arith,
  word, add_size, take, Text, text,
}
use mathlib.Core.List.{append_assoc, append-nil}
use android_device_xiaomi_la.Graphic.Allocator.{AllocRec, AllocList, total}

pub record Printer : Type 0 where
  -- "%10p: %7.2f KiB | ..." and "%10p: unknown     | ..."
  pub known : ℕ → AllocRec → Text
  pub unknown : ℕ → AllocRec → Text
  -- "Total allocated (estimate): %.2f KB\n"
  pub summary : ℕ → Text
  -- whether the device has a dump function, and what it prints
  pub has_dump : Bool
  pub device : Text

-- snprintf into a buffer of SIZE bytes
abbrev pub printed : Text → Text
printed s = take 4095 s

module _ (printer : Printer) where
  open printer use {known, unknown, summary, has_dump, device}

  abbrev pub line : ℕ → AllocRec → Text
  line key rec = printed (if rec.size == 0 then unknown key rec else known key rec)

  -- The loop, with `result` and `total`.
  unfoldable pub dump_records : AllocList → Text → ℕ → Text × ℕ
  dump_records [] result sum = (result, sum)
  dump_records ((key, rec) ∷ l) result sum =
      dump_records l (result ++ line key rec) (add_size sum rec.size)

  unfoldable pub dump : AllocList → Text → Text
  unfolding dump_records
  dump l result =
      let (lines, sum) = dump_records l (result ++ printed (text "Allocated buffers:\n")) 0 in
      let all = lines ++ printed (summary sum) in if has_dump then all ++ device else all

  abbrev pub records : AllocList → Text
  records [] = []
  records ((key, rec) ∷ l) = line key rec ++ records l

  dump_records-text :
      (l : AllocList) (result : Text) (sum : ℕ)
      → (dump_records l result sum).0 ≡ result ++ records l
  unfolding dump_records
  dump_records-text [] result sum = sym (append-nil result)
  dump_records-text ((key, rec) ∷ l) result sum =
      dump_records-text l (result ++ line key rec) (add_size sum rec.size)
      ∙ append_assoc result (line key rec) (records l)

  dump_records-total :
      (l : AllocList) (result : Text) (sum : ℕ)
      → sum < word
      → (dump_records l result sum).1 ≡ add_size sum (total l)
  unfolding dump_records total
  dump_records-total [] result sum h = omega arith
  dump_records-total ((key, rec) ∷ l) result sum h =
      dump_records-total l (result ++ line key rec) (add_size sum rec.size) (omega arith)
      ∙ omega arith

  total-lt-word : (l : AllocList) → total l < word
  unfolding total
  total-lt-word [] = omega arith
  total-lt-word ((key, rec) ∷ l) = omega arith

  -- `dump` appends to its argument a heading, a line for each entry in the order of the list, the
  -- line with the sum of the sizes in 32 bits, and what the device prints, if it prints anything.
  dump_lem :
      (l : AllocList) (result : Text)
      → dump l result
        ≡ ((result ++ printed (text "Allocated buffers:\n")) ++ records l)
          ++ (printed (summary (total l)) ++ (if has_dump then device else []))
  unfolding dump
  dump_lem l result =
      let start = result ++ printed (text "Allocated buffers:\n") in
      let t = dump_records-text l start 0 in
      let s : (dump_records l start 0).1 ≡ total l =
        dump_records-total l start 0 (omega arith) ∙ omega (arith, total-lt-word l) in
      rw (t, s)
        (elim (Bool-cases has_dump) [
          | inl y ↦ rw y (append_assoc (start ++ records l) (printed (summary (total l))) device)
          | inr n ↦
              rw n (
                ap (λ x. (start ++ records l) ++ x)
                  (sym (append-nil (printed (summary (total l))))))
        ])
