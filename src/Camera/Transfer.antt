-- ===== src/Camera/Transfer.antt =====
-- Metadata that goes through a Parcel: what is written is read back, and a failed read leaves the
-- object alone.
use native.Mathlib.Nat.{div-mul-le_self, lt-div-mul-add}
use android_device_xiaomi_la.Common.{
  ℕ, ◌+◌, ◌-◌, ◌*◌, ◌/◌, ◌%◌, ◌≡◌, ◌≢◌, ◌≤◌, ◌<◌, ap, List, [], ◌∷◌, ◌++◌, arith, word, add_size,
  bits32, signed32, pos, Status, ok, bad_value, ◌⊎◌, inl, inr, eq_cases, subst, ◌∙◌,
}
use android_device_xiaomi_la.Camera.Library.{MetadataLib}
use android_device_xiaomi_la.Camera.Parcel.{
  ParcelLib, IsFaithful, Item, int, blob, align_to, read_block, write_block,
}

bits32-signed32 : (w : ℕ) → w < word → bits32 (signed32 w) ≡ w
bits32-signed32 w h = ground arith

div_mul_mod : (x a : ℕ) → a ≢ 0 → (x / a * a) % a ≡ 0
div_mul_mod x a h = grind arith

-- Rounding up gives the next multiple of the alignment.
align_to_lem :
    (v a : ℕ)
    → a ≢ 0
    → v + a ≤ word
    → (align_to v a % a ≡ 0) × (v ≤ align_to v a) × (align_to v a < v + a)
unfolding align_to
align_to_lem v a h fits =
    let x = add_size v (a - 1) in
    let up : x < x / a * a + a = lt-div-mul-add (omega arith) in
    let down : x / a * a ≤ x = div-mul-le_self x a in (div_mul_mod x a h, omega arith, omega arith)

module _ (lib : MetadataLib) (io : ParcelLib lib) (faith : IsFaithful lib io) where
  open lib use {Store}
  open io use {
    Parcel, write_int32, write_blob, read_int32, read_blob, alignment, compact_size, copy_block,
    allocate_copy,
  }
  open faith use {
    items, block, image, items-write_int32, items-write_blob, read_int32_item, read_blob_item,
    read_blob_image, image-copy_block, block-allocate_copy,
  }

  -- The size of the blob for a block, and where in the blob the block stands.
  abbrev pub blob_size : ℕ → Store → ℕ
  blob_size p s = add_size (compact_size s p) alignment

  -- What comes of reading in the memory `s`: a copy of `b`, or BAD_VALUE where the copy cannot be
  -- made of the bytes at some address; in both cases the parcel is read up to `rest`.
  abbrev pub Received : faith.Image → List Item → Store → Status × ℕ × Parcel × Store → Type 0
  Received b rest s (err, out, q, s') =
      (items q ≡ rest)
      × (((err ≡ bad_value)
            × (out ≡ 0)
            × ((at : ℕ) × (size : ℕ) × ((allocate_copy at size s).0 ≡ 0) × (image s at size ≡ b)))
          ⊎ ((err ≡ ok) × (out ≢ 0) × (block s' out ≡ b)))

  read_items :
      (n a o : ℕ) (rest : List Item) (q : Parcel) (s : Store)
      → items q ≡ int (signed32 n) ∷ blob n a ∷ int (signed32 o) ∷ rest
      → n < word
      → alignment < n
      → o < alignment
      → Received (image s (add_size a o) (n - alignment)) rest s (read_block lib io q s)
  unfolding read_block
  read_items n a o rest q s h hn ha ho =
      let i0 = read_int32_item (signed32 n) q (blob n a ∷ int (signed32 o) ∷ rest) h in
      let q1 = (read_int32 q).2 in
      let i1 = read_blob_item n a q1 (int (signed32 o) ∷ rest) i0.2 in
      let q2 = (read_blob n q1).2 in
      let i2 = read_int32_item (signed32 o) q2 rest i1.1 in
      let move =
        read_blob_image n a q1 (int (signed32 o) ∷ rest) s o (n - alignment) i0.2 (omega arith) in
      let e0 : bits32 (read_int32 q).1 ≡ n = ap bits32 i0.1 ∙ bits32-signed32 n hn in
      let e2 : bits32 (read_int32 q2).1 ≡ o = ap bits32 i2.1 ∙ bits32-signed32 o (omega arith) in
      let addr = (read_blob n q1).1 in
      let keep = block-allocate_copy (add_size addr o) (n - alignment) s in
      elim (eq_cases (allocate_copy (add_size addr o) (n - alignment) s).0 0) [
        | inl none ↦ (
          ground arith,
          inl (ground arith, ground arith, (add_size addr o, n - alignment, none, move)),
        )
        | inr made ↦ (ground arith, inr (ground arith))
      ]

  -- The three items that a written block leaves in an empty parcel.
  abbrev written : ℕ → Parcel → Store → ℕ → List Item
  written b p s o =
      let n = blob_size b s in
      let p1 = (write_int32 (signed32 n) p).1 in
      int (signed32 n) ∷ blob n (write_blob n p1).1 ∷ int (signed32 o) ∷ []

  -- Where writeBlob places the blob of a block.
  abbrev pub blob_at : ℕ → Parcel → Store → Status × ℕ × Parcel
  blob_at b p s = write_blob (blob_size b s) (write_int32 (signed32 (blob_size b s)) p).1

  write_items :
      (b : ℕ) (p : Parcel) (s : Store)
      → b ≢ 0
      → items p ≡ []
      → alignment ≢ 0
      → (blob_at b p s).1 + alignment ≤ word
      → (write_int32 (signed32 (blob_size b s)) p).0 ≡ ok
      → (blob_at b p s).0 ≡ ok
      → (write_block lib io b p s).0 ≡ ok
      → let a = (blob_at b p s).1 in
        let o = align_to a alignment - a in
        (items (write_block lib io b p s).1 ≡ written b p s o)
        × ((write_block lib io b p s).2 ≡ copy_block (add_size a o) (compact_size s b) b s)
  unfolding write_block
  write_items b p s nz empty az fits first placed done =
      let n = blob_size b s in
      let p1 = (write_int32 (signed32 n) p).1 in
      let i1 = items-write_int32 (signed32 n) p first in
      let a = (write_blob n p1).1 in
      let p2 = (write_blob n p1).2 in
      let i2 = items-write_blob n p1 placed in
      let up = align_to_lem a alignment az fits in
      let o = align_to a alignment - a in
      let same : (align_to a alignment + word - a) % word ≡ o = omega arith in
      let i3 = items-write_int32 (signed32 o) p2 in ground arith

  -- A block that was written to an empty parcel is read back: from any parcel that holds what was
  -- written, with anything after it, reading gives a new block with the same metadata and stops
  -- where the block ends, or BAD_VALUE if the library makes no copy of the bytes of this metadata.
  -- Conditions: the three writes succeed, the sizes and the end of the blob's padding are below
  -- 2^32, and a block is not empty.
  pub read_block-write_block :
      (b : ℕ) (p q : Parcel) (s : Store) (rest : List Item)
      → b ≢ 0
      → items p ≡ []
      → alignment ≢ 0
      → 0 < compact_size s b
      → compact_size s b + alignment < word
      → (blob_at b p s).1 + alignment ≤ word
      → (write_int32 (signed32 (blob_size b s)) p).0 ≡ ok
      → (blob_at b p s).0 ≡ ok
      → (write_block lib io b p s).0 ≡ ok
      → items q ≡ items (write_block lib io b p s).1 ++ rest
      → Received
          (block s b)
          rest
          (write_block lib io b p s).2
          (read_block lib io q (write_block lib io b p s).2)
  read_block-write_block b p q s rest nz empty az some_size small fits first placed done same =
      let a = (blob_at b p s).1 in
      let up = align_to_lem a alignment az fits in
      let o = align_to a alignment - a in
      let w = write_items b p s nz empty az fits first placed done in
      let s' = (write_block lib io b p s).2 in
      let at : items q
          ≡ int (signed32 (blob_size b s)) ∷ blob (blob_size b s) a ∷ int (signed32 o) ∷ rest =
        same ∙ ap (λ l. l ++ rest) w.0 in
      let got =
        read_items (blob_size b s) a o rest q s' at (omega arith) (omega arith) (omega arith) in
      let n : blob_size b s - alignment ≡ compact_size s b = omega arith in
      let dst : add_size a o ≡ align_to a alignment = omega arith in
      let copied = image-copy_block (align_to a alignment) b s up.0 in
      let here : image s' (add_size a o) (blob_size b s - alignment) ≡ block s b =
        rw (w.1, n, dst) copied in
      subst (λ i. Received i rest s' (read_block lib io q s')) here got

  -- NULL metadata is written as the single number 0, and read back as NULL.
  read_block-write_null :
      (p q : Parcel) (s : Store) (rest : List Item)
      → items p ≡ []
      → (write_block lib io 0 p s).0 ≡ ok
      → items q ≡ items (write_block lib io 0 p s).1 ++ rest
      → let (err, out, q', s') = read_block lib io q (write_block lib io 0 p s).2 in
        (err ≡ ok) × (out ≡ 0) × (items q' ≡ rest) × (s' ≡ s)
  unfolding write_block read_block
  read_block-write_null p q s rest empty done same =
      let i1 = items-write_int32 (pos 0) p done in
      let i0 =
        read_int32_item (pos 0) q rest
          (same ∙ ap (λ l. l ++ rest) (i1 ∙ ap (λ l. l ++ (int (pos 0) ∷ [])) empty)) in
      ground arith
