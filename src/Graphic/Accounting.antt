-- ===== src/Graphic/Accounting.antt =====
-- GraphicBufferAllocator's list of allocations against what gralloc has allocated.
use Prim.Native.Nat.{bit_and}
use android_device_xiaomi_la.Common.{
  ℕ, ◌*◌, ◌%◌, ◌<◌, ◌≤◌, ◌≡◌, refl, Bool, true, false, ltb, not, ◌&&◌, ◌||◌, List, [], ◌∷◌, arith,
  ◌==◌, word, add_size, ok, is_ok, inl, inr, ◌∙◌, Bool-cases,
}
use android_device_xiaomi_la.Graphic.Gralloc.{Gralloc}
use android_device_xiaomi_la.Graphic.Allocator.{
  AllocRec, AllocList, insert, erase, total, System, alloc, free, record_of, at_least_one,
}

-- Whether the list has an entry for a handle.
abbrev pub listed : ℕ → AllocList → Bool
listed k [] = false
listed k ((j, r) ∷ l) = k == j || listed k l

-- The first handle, if any, is above the given one.
abbrev pub starts_above : ℕ → AllocList → Bool
starts_above k [] = true
starts_above k ((j, r) ∷ l) = ltb k j

-- The handles ascend, so that none has two entries, and no entry has a side of length 0 or a size
-- beyond 32 bits.
abbrev pub IsKeyed : AllocList → Type 0
IsKeyed [] = Unit
IsKeyed ((j, r) ∷ l) =
    (starts_above j l ≡ true) × (0 < r.w) × (0 < r.h) × (r.size < word) × IsKeyed l

not_listed_below :
    (k j : ℕ) (l : AllocList) → k ≤ j → starts_above j l ≡ true → IsKeyed l → listed k l ≡ false
not_listed_below k j [] h a keyed = refl
not_listed_below k j ((i, r) ∷ l) h a keyed =
    ground (arith, not_listed_below k i l (ground arith) keyed.0 keyed.4)

listed-insert :
    (k j : ℕ) (r : AllocRec) (l : AllocList) → listed k (insert j r l) ≡ (k == j || listed k l)
unfolding insert
listed-insert k j r [] = ground arith
listed-insert k j r ((i, q) ∷ l) = ground (arith, listed-insert k j r l)

listed-erase_head :
    (k j i : ℕ) (q : AllocRec) (l : AllocList)
    → listed i l ≡ false
    → listed k (erase j l) ≡ (listed k l && not (k == j))
    → listed k (erase j ((i, q) ∷ l)) ≡ (listed k ((i, q) ∷ l) && not (k == j))
unfolding erase
listed-erase_head k j i q l below rest = ground arith

listed-erase :
    (k j : ℕ) (l : AllocList) → IsKeyed l → listed k (erase j l) ≡ (listed k l && not (k == j))
unfolding erase
listed-erase k j [] h = refl
listed-erase k j ((i, q) ∷ l) h =
    listed-erase_head k j i q l (not_listed_below i i l (omega arith) h.0 h.4)
      (listed-erase k j l h.4)

starts_above_le :
    (i j : ℕ) (l : AllocList) → i < j → starts_above j l ≡ true → starts_above i l ≡ true
starts_above_le i j [] h a = refl
starts_above_le i j ((k, r) ∷ l) h a = ground arith

starts_above-insert :
    (i j : ℕ) (r : AllocRec) (l : AllocList)
    → i < j
    → starts_above i l ≡ true
    → starts_above i (insert j r l) ≡ true
unfolding insert
starts_above-insert i j r [] h a = ground arith
starts_above-insert i j r ((k, q) ∷ l) h a = ground arith

starts_above-erase :
    (i j : ℕ) (l : AllocList)
    → starts_above i l ≡ true
    → IsKeyed l
    → starts_above i (erase j l) ≡ true
unfolding erase
starts_above-erase i j [] a h = refl
starts_above-erase i j ((k, q) ∷ l) a h = ground (arith, starts_above_le i k l (ground arith) h.0)

insert-IsKeyed :
    (j : ℕ) (r : AllocRec) (l : AllocList)
    → 0 < r.w
    → 0 < r.h
    → r.size < word
    → IsKeyed l
    → IsKeyed (insert j r l)
unfolding insert
insert-IsKeyed j r [] a b c h = (refl, a, b, c, tt)
insert-IsKeyed j r ((i, q) ∷ l) a b c h =
    ground (arith, insert-IsKeyed j r l a b c h.4, starts_above-insert i j r l)

erase-IsKeyed : (j : ℕ) (l : AllocList) → IsKeyed l → IsKeyed (erase j l)
unfolding erase
erase-IsKeyed j [] h = tt
erase-IsKeyed j ((i, q) ∷ l) h =
    ground (arith, erase-IsKeyed j l h.4, starts_above-erase i j l h.0 h.4)

-- Which handles gralloc has allocated: an allocation that succeeds adds a new one, a release that
-- succeeds removes it, and a call that fails changes nothing.
pub record IsHandled (gralloc : Gralloc) : Type 0 where
  pub live : gralloc.World → ℕ → Bool
  pub live-alloc :
      (w h f u p : ℕ) (s : gralloc.World) (q : ℕ)
      → let (err, handle, _, s') = gralloc.alloc w h f u p s in
        live s' q ≡ (live s q || (is_ok err && q == handle))
  pub alloc_fresh :
      (w h f u p : ℕ) (s : gralloc.World)
      → let (err, handle, _, _) = gralloc.alloc w h f u p s in (is_ok err && live s handle) ≡ false
  pub live-free :
      (p : ℕ) (s : gralloc.World) (q : ℕ)
      → let (err, s') = gralloc.free p s in live s' q ≡ (live s q && not (is_ok err && q == p))

-- The calls of the allocator: width, height, format, usage and what the handle held; and a handle.
pub data Call : Type 0 where
  allocates : ℕ → ℕ → ℕ → ℕ → ℕ → Call
  frees : ℕ → Call

module _ (gralloc : Gralloc) where
  unfoldable pub step : Call → System gralloc → System gralloc
  step (allocates w h f u p) sys = (alloc gralloc w h f u p sys).3
  step (frees p) sys = (free gralloc p sys).1

  unfoldable pub run : List Call → System gralloc → System gralloc
  run [] sys = sys
  run (c ∷ cs) sys = run cs (step c sys)

module _ (gralloc : Gralloc) (mem : IsHandled gralloc) where
  open mem use {live, live-alloc, alloc_fresh, live-free}

  -- The list has one good entry for each allocated handle and no other entry.
  pub record IsTracked (sys : System gralloc) : Type 0 where
    pub keyed : IsKeyed sys.list
    pub tracked : (q : ℕ) → listed q sys.list ≡ live sys.world q

  at_least_one_pos :
      (w h : ℕ) → (0 < (at_least_one gralloc w h).0) × (0 < (at_least_one gralloc w h).1)
  at_least_one_pos w h = ground arith

  pub alloc-IsTracked :
      (w h f u p : ℕ) (sys : System gralloc)
      → IsTracked sys
      → IsTracked (alloc gralloc w h f u p sys).3
  unfolding alloc
  alloc-IsTracked w h f u p sys t =
      let d = at_least_one gralloc w h in
      let v = bit_and u gralloc.alloc_mask in
      let got = gralloc.alloc d.0 d.1 f v p sys.world in
      let r = record_of gralloc d.0 d.1 got.2 f v in
      let pos_d = at_least_one_pos w h in
      record {
        keyed = elim (Bool-cases (is_ok got.0)) [
          | inl y ↦ rw y (insert-IsKeyed got.1 r sys.list pos_d.0 pos_d.1 (omega arith) t.keyed)
          | inr n ↦ rw n t.keyed
        ];
        tracked = λ q. elim (Bool-cases (is_ok got.0)) [
          | inl y ↦
              let e = live-alloc d.0 d.1 f v p sys.world q in
              rw y (listed-insert q got.1 r sys.list ∙ ground (arith, t.tracked q))
          | inr n ↦
              let e = live-alloc d.0 d.1 f v p sys.world q in rw n (t.tracked q ∙ ground arith)
        ];
      }

  pub free-IsTracked :
      (p : ℕ) (sys : System gralloc) → IsTracked sys → IsTracked (free gralloc p sys).1
  unfolding free
  free-IsTracked p sys t = record {
    keyed = ground (arith, erase-IsKeyed p sys.list t.keyed);
    tracked = λ q.
        ground (arith, listed-erase q p sys.list t.keyed, t.tracked q, live-free p sys.world q);
  }

  -- Whatever is allocated and freed, in whatever order and with whatever failures, the list has
  -- exactly one entry for each handle that gralloc has allocated, in the order of the handles, with
  -- both sides at least 1.
  pub run-IsTracked :
      (cs : List Call) (sys : System gralloc) → IsTracked sys → IsTracked (run gralloc cs sys)
  unfolding run step
  run-IsTracked [] sys t = t
  run-IsTracked (allocates w h f u p ∷ cs) sys t =
      run-IsTracked cs (alloc gralloc w h f u p sys).3 (alloc-IsTracked w h f u p sys t)
  run-IsTracked (frees p ∷ cs) sys t =
      run-IsTracked cs (free gralloc p sys).1 (free-IsTracked p sys t)

erase-insert :
    (k : ℕ) (r : AllocRec) (l : AllocList) → listed k l ≡ false → erase k (insert k r l) ≡ l
unfolding erase insert
erase-insert k r [] h = ground arith
erase-insert k r ((j, q) ∷ l) h = ground (arith, erase-insert k r l)

total-insert :
    (k : ℕ) (r : AllocRec) (l : AllocList)
    → listed k l ≡ false
    → total (insert k r l) ≡ add_size (total l) r.size
unfolding total insert
total-insert k r [] h = omega arith
total-insert k r ((j, q) ∷ l) h = ground (arith, total-insert k r l)

module _ (gralloc : Gralloc) (mem : IsHandled gralloc) where
  -- An allocation that succeeds adds to the total that `dump` prints the size of the buffer,
  -- both in 32 bits: height times stride times bytes per pixel, with 1 x 1 for a buffer with no pixels;
  -- freeing the handle again gives back the list as it was.
  pub free-alloc :
      (w h f u p : ℕ) (sys : System gralloc)
      → IsTracked gralloc mem sys
      → (alloc gralloc w h f u p sys).0 ≡ ok
      → (free gralloc (alloc gralloc w h f u p sys).1 (alloc gralloc w h f u p sys).3).0 ≡ ok
      → let (_, handle, stride, sys') = alloc gralloc w h f u p sys in
        let rows = (at_least_one gralloc w h).1 in
        (total sys'.list
          ≡ add_size (total sys.list) (rows * stride % word * gralloc.bytes_per_pixel f % word))
        × ((free gralloc handle sys').1.list ≡ sys.list)
  unfolding alloc free
  free-alloc w h f u p sys t done freed =
      let d = at_least_one gralloc w h in
      let v = bit_and u gralloc.alloc_mask in
      let got = gralloc.alloc d.0 d.1 f v p sys.world in
      let r = record_of gralloc d.0 d.1 got.2 f v in
      let new : listed got.1 sys.list ≡ false =
        t.tracked got.1 ∙ ground (arith, mem.alloc_fresh d.0 d.1 f v p sys.world) in
      (
        rw done (total-insert got.1 r sys.list new),
        rw done (rw freed (erase-insert got.1 r sys.list new)),
      )
