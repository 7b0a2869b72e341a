-- ===== src/Camera/Moves.antt =====
-- The methods that involve two objects: assignment, acquire and swap, next to the changes of one.
use android_device_xiaomi_la.Common.{
  ℕ, ◌≡◌, ◌≢◌, ◌⊎◌, inl, inr, false, Option, none, arith, ◌==◌, Bool-cases,
}
use android_device_xiaomi_la.Camera.Library.{MetadataLib, IsAllocator, IsMeasured}
use android_device_xiaomi_la.Camera.Object.{
  CameraMetadata, assign, assign_object, acquire, acquire_object, release, clear, swap,
}
use android_device_xiaomi_la.Camera.Maps.{IsMap, IsLocal}
use android_device_xiaomi_la.Camera.View.{view}
use android_device_xiaomi_la.Camera.Refine.{
  Change, change, Succeeds, effect, change-view, change-datum,
}
use android_device_xiaomi_la.Camera.Pair.{Pair, Apart, Apart-change, Apart-swap, view-other}

-- A change; or the object takes a copy of the other, its block, or exchanges blocks with it.
pub data Move : Type 0 where
  changes : Change → Move
  assigns acquires swaps : Move

module _ (lib : MetadataLib) (mem : IsAllocator lib) (rooms : IsMeasured lib) (maps : IsMap lib)
    (locals : IsLocal lib maps) where
  open lib use {Store, clone}
  open mem use {live, live_null, clone_fresh, live-clone, live-free}
  open maps use {Value, datum, Held, value_null, value-free, datum-free}
  open locals use {value-clone, value-clone_ne, clone_null, datum-clone}

  unfoldable pub move : Move → Pair lib mem rooms maps locals → Pair lib mem rooms maps locals
  move (changes c) (m, o, s) = let (m', s') = change lib mem rooms maps c (m, s) in (m', o, s')
  move assigns (m, o, s) = let (m', s') = assign_object lib o m s in (m', o, s')
  move acquires (m, o, s) = acquire_object lib m o s
  move swaps (m, o, s) = let (m', o') = swap lib m o in (m', o', s)

  -- The call succeeds: the objects that it changes are not locked, and a clone can be made.
  abbrev pub MoveSucceeds : Move → Pair lib mem rooms maps locals → Type 0
  MoveSucceeds (changes c) (m, o, s) = Succeeds lib mem rooms maps c m s
  MoveSucceeds assigns (m, o, s) =
      (m.locked ≡ false) × ((o.buffer ≡ 0) ⊎ ((clone o.buffer s).0 ≢ 0))
  MoveSucceeds acquires (m, o, s) = (m.locked ≡ false) × (o.locked ≡ false)
  MoveSucceeds swaps (m, o, s) = (m.locked ≡ false) × (o.locked ≡ false)

  -- What it does to the values of a tag in the two maps.
  abbrev pub moved : Store → ℕ → Move → Option Value × Option Value → Option Value × Option Value
  moved s t (changes c) (v, w) = (effect lib mem rooms maps s t v c, w)
  moved s t assigns (v, w) = (w, w)
  moved s t acquires (v, w) = (w, none)
  moved s t swaps (v, w) = (w, v)

  abbrev pub views : Pair lib mem rooms maps locals → ℕ → Option Value × Option Value
  views (m, o, s) t = (view lib mem rooms maps m s t, view lib mem rooms maps o s t)

  abbrev pub PairApart : Pair lib mem rooms maps locals → Type 0
  PairApart (m, o, s) = Apart lib mem rooms maps locals m o s

  Apart-assign :
      (m o : CameraMetadata) (s : Store)
      → Apart lib mem rooms maps locals m o s
      → MoveSucceeds assigns (m, o, s)
      → PairApart (move assigns (m, o, s))
  unfolding move assign_object assign clear
  Apart-assign m o s apart h =
      let q = (clone o.buffer s).0 in
      let s1 = (clone o.buffer s).1 in
      (
        ground (
          arith,
          live_null s,
          clone_null s,
          clone_fresh o.buffer s,
          live-clone o.buffer s q,
          live-free m.buffer s1 q,
        ),
        ground (arith, live_null s, live-clone o.buffer s o.buffer, live-free m.buffer s1 o.buffer),
        ground (arith, live_null s, clone_null s, clone_fresh o.buffer s),
      )

  Apart-acquire :
      (m o : CameraMetadata) (s : Store)
      → Apart lib mem rooms maps locals m o s
      → MoveSucceeds acquires (m, o, s)
      → PairApart (move acquires (m, o, s))
  unfolding move acquire_object acquire release clear
  Apart-acquire m o s apart h = (
    ground (arith, live_null s, live-free m.buffer s o.buffer),
    ground arith,
    ground (arith, live_null s),
  )

  pub Apart-move :
      (c : Move) (m o : CameraMetadata) (s : Store)
      → Apart lib mem rooms maps locals m o s
      → MoveSucceeds c (m, o, s)
      → PairApart (move c (m, o, s))
  unfolding move swap
  Apart-move (changes c) m o s apart h = Apart-change lib mem rooms maps locals c m o s apart
  Apart-move assigns m o s apart h = Apart-assign m o s apart h
  Apart-move acquires m o s apart h = Apart-acquire m o s apart h
  Apart-move swaps m o s apart h = (ground arith, ground arith, ground arith)

  views-assign :
      (m o : CameraMetadata) (s : Store) (t : ℕ)
      → Apart lib mem rooms maps locals m o s
      → MoveSucceeds assigns (m, o, s)
      → views (move assigns (m, o, s)) t
        ≡ (view lib mem rooms maps o s t, view lib mem rooms maps o s t)
  unfolding move assign_object assign clear
  views-assign m o s t apart h =
      let q = (clone o.buffer s).0 in
      let s1 = (clone o.buffer s).1 in
      let s2 = lib.free m.buffer s1 in
      elim (Bool-cases (o.buffer == 0)) [
        | inl z ↦ ground (arith, clone_null s, value_null s t, value_null s1 t, value_null s2 t)
        | inr nz ↦ ground (
          arith,
          live_null s,
          clone_fresh o.buffer s,
          value-clone o.buffer s t,
          value-clone_ne o.buffer s o.buffer t,
          value-free m.buffer s1 q t,
          value-free m.buffer s1 o.buffer t,
        )
      ]

  views-acquire :
      (m o : CameraMetadata) (s : Store) (t : ℕ)
      → Apart lib mem rooms maps locals m o s
      → MoveSucceeds acquires (m, o, s)
      → views (move acquires (m, o, s)) t ≡ (view lib mem rooms maps o s t, none)
  unfolding move acquire_object acquire release clear
  views-acquire m o s t apart h =
      let s1 = lib.free m.buffer s in
      elim (Bool-cases (o.buffer == 0)) [
        | inl z ↦ ground (arith, value_null s t, value_null s1 t)
        | inr nz ↦ ground (arith, value_null s t, value_null s1 t, value-free m.buffer s o.buffer t)
      ]

  -- A call that succeeds does to both views what it does to two maps.
  pub views-move :
      (c : Move) (m o : CameraMetadata) (s : Store) (t : ℕ)
      → Apart lib mem rooms maps locals m o s
      → MoveSucceeds c (m, o, s)
      → views (move c (m, o, s)) t ≡ moved s t c (views (m, o, s) t)
  unfolding move swap
  views-move (changes c) m o s t apart h =
      let a = change-view lib mem rooms maps c m s t apart.0 h in
      let b =
        view-other lib mem rooms maps locals c o m s t
          (Apart-swap lib mem rooms maps locals m o s apart) in
      cc (a, b)
  views-move assigns m o s t apart h = views-assign m o s t apart h
  views-move acquires m o s t apart h = views-acquire m o s t apart h
  views-move swaps m o s t apart h = ground arith

  pub datum-move :
      (c : Move) (m o : CameraMetadata) (s : Store) (a n : ℕ)
      → Apart lib mem rooms maps locals m o s
      → MoveSucceeds c (m, o, s)
      → Held a n
      → datum (move c (m, o, s)).2 a n ≡ datum s a n
  unfolding move assign_object assign acquire_object acquire release clear swap
  datum-move (changes c) m o s a n apart h held =
      change-datum lib mem rooms maps c m s a n apart.0 h held
  datum-move assigns m o s a n apart h held =
      let s1 = (clone o.buffer s).1 in
      ground (arith, datum-clone o.buffer s a n held, datum-free m.buffer s1 a n held)
  datum-move acquires m o s a n apart h held = ground (arith, datum-free m.buffer s a n held)
  datum-move swaps m o s a n apart h held = ground arith
