-- ===== src/Graphic/Allocator.antt =====
-- shim/ui/GraphicBufferAllocator.cpp: allocation through gralloc and the list of what is allocated.
-- One call runs after the other: gralloc is called before sLock is taken, and what another thread does
-- in between is not modelled.
use Prim.Native.Nat.{bit_and}
use android_device_xiaomi_la.Common.{
  ℕ, ◌*◌, ◌%◌, ◌||◌, List, [], ◌∷◌, Option, none, some, ◌==◌, ltb, if◌then◌else◌, word, add_size,
  Status, is_ok,
}
use android_device_xiaomi_la.Graphic.Gralloc.{Gralloc}

-- `alloc_rec_t`
pub record AllocRec : Type 0 where
  pub w : ℕ
  pub h : ℕ
  pub s : ℕ
  pub format : ℕ
  pub usage : ℕ
  pub size : ℕ

-- sAllocList, a KeyedVector from handles to records, which is ordered by the handles.
abbrev pub AllocList : Type 0
AllocList = List (ℕ × AllocRec)

unfoldable pub lookup : ℕ → AllocList → Option AllocRec
lookup k [] = none
lookup k ((j, r) ∷ l) = if k == j then some r else lookup k l

-- KeyedVector::add replaces the value of a key that is there.
unfoldable pub insert : ℕ → AllocRec → AllocList → AllocList
insert k r [] = (k, r) ∷ []
insert k r ((j, q) ∷ l) =
    if k == j then (k, r) ∷ l else if ltb k j then (k, r) ∷ (j, q) ∷ l else (j, q) ∷ insert k r l

-- KeyedVector::removeItem
unfoldable pub erase : ℕ → AllocList → AllocList
erase k [] = []
erase k ((j, q) ∷ l) = if k == j then l else (j, q) ∷ erase k l

-- The total that GraphicBufferAllocator::dump prints: the sum of the sizes, a size_t.
unfoldable pub total : AllocList → ℕ
total [] = 0
total ((k, r) ∷ l) = add_size r.size (total l)

module _ (gralloc : Gralloc) where
  -- The world behind gralloc, and the list.
  pub record System : Type 0 where
    pub world : gralloc.World
    pub list : AllocList

  -- width and height as `alloc` passes them on: a buffer with no pixels is made 1 x 1.
  abbrev pub at_least_one : ℕ → ℕ → ℕ × ℕ
  at_least_one w h = if w == 0 || h == 0 then (1, 1) else (w, h)

  -- The record that `alloc` files; `height * stride * bpp` is computed in 32 bits.
  abbrev pub record_of : ℕ → ℕ → ℕ → ℕ → ℕ → AllocRec
  record_of w h s format usage = record {
    w = w;
    h = h;
    s = s;
    format = format;
    usage = usage;
    size = h * s % word * gralloc.bytes_per_pixel format % word;
  }

  -- `alloc`, with what *handle held before: status, *handle, *stride and the system.
  unfoldable pub alloc : ℕ → ℕ → ℕ → ℕ → ℕ → System → Status × ℕ × ℕ × System
  alloc width height format usage handle sys =
      let (w, h) = at_least_one width height in
      let u = bit_and usage gralloc.alloc_mask in
      let (err, handle', stride, world) = gralloc.alloc w h format u handle sys.world in
      (
        err,
        handle',
        stride,
        record {
          world = world;
          list =
              if is_ok err
              then insert handle' (record_of w h stride format u) sys.list
              else sys.list;
        },
      )

  unfoldable pub free : ℕ → System → Status × System
  free handle sys =
      let (err, world) = gralloc.free handle sys.world in
      (err, record { world = world; list = if is_ok err then erase handle sys.list else sys.list })
