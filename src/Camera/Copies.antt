-- ===== src/Camera/Copies.antt =====
-- The copy constructor: two objects that have nothing to do with each other.
use android_device_xiaomi_la.Common.{ℕ, ◌≡◌, ◌≢◌, ◌∙◌, refl, true, false, List, [], ◌∷◌, arith}
use android_device_xiaomi_la.Camera.Library.{MetadataLib, IsAllocator}
use android_device_xiaomi_la.Camera.Object.{CameraMetadata, copy}
use android_device_xiaomi_la.Camera.Calls.{Call, step, run}
use android_device_xiaomi_la.Camera.Blocks.{IsOwner, outside}
use android_device_xiaomi_la.Camera.Ownership.{given, IsForeign, step-outside}
use android_device_xiaomi_la.Camera.Maps.{IsMap, IsLocal}
use android_device_xiaomi_la.Camera.Frame.{value-step}

module _ (lib : MetadataLib) (mem : IsAllocator lib) (maps : IsMap lib)
    (locals : IsLocal lib maps) where
  open lib use {Store, clone}
  open mem use {live, clone_fresh, live-clone}
  open maps use {value}
  open locals use {value-clone, value-clone_ne}

  -- No call hands the block `q` over to the object, and what one hands over is allocated and not the
  -- object's own.
  abbrev pub Spares : ℕ → List Call → CameraMetadata × Store → Type 0
  Spares q [] w = Unit {0}
  Spares q (c ∷ cs) (m, s) =
      (q ≢ given c m) × IsForeign lib mem (given c m) m s × Spares q cs (step lib c (m, s))

  -- A block that is outside an object stays allocated and keeps its entries.
  run-outside :
      (cs : List Call) (m : CameraMetadata) (s : Store) (q t : ℕ)
      → q ≢ 0
      → IsOwner lib mem m s
      → outside lib mem m s q ≡ true
      → Spares q cs (m, s)
      → (value (run lib cs (m, s)).1 q t ≡ value s q t)
        × (outside lib mem (run lib cs (m, s)).0 (run lib cs (m, s)).1 q ≡ true)
  unfolding run
  run-outside [] m s q t nz own out h = (refl, out)
  run-outside (c ∷ cs) m s q t nz own out h =
      let m1 = (step lib c (m, s)).0 in
      let s1 = (step lib c (m, s)).1 in
      let crosses = step-outside lib mem c m s q nz own h.1 in
      let rest = run-outside cs m1 s1 q t nz crosses.0 (ground (arith, crosses.1)) h.2 in
      (rest.0 ∙ value-step lib mem maps locals c m s q t nz own out, rest.1)

  -- A copy of an object has a block of its own with the same entries; and whatever calls are then
  -- made on the one of the two, the other still has its block, with the entries that it had.
  -- Conditions: the object has a block that is allocated, the copy can be made, and the calls hand
  -- over only blocks that are allocated and belong to neither.
  pub copy_is_independent :
      (cs ds : List Call) (m : CameraMetadata) (s : Store) (t : ℕ)
      → m.buffer ≢ 0
      → live s m.buffer ≡ true
      → (copy lib m s).0.buffer ≢ 0
      → Spares m.buffer cs (copy lib m s)
      → Spares (copy lib m s).0.buffer ds (m, (copy lib m s).1)
      → let (c, s1) = copy lib m s in
        let (c', s2) = run lib cs (c, s1) in
        let (m', s3) = run lib ds (m, s1) in
        (value s1 c.buffer t ≡ value s m.buffer t)
        × ((value s2 m.buffer t ≡ value s m.buffer t) × (outside lib mem c' s2 m.buffer ≡ true))
        × ((value s3 c.buffer t ≡ value s m.buffer t) × (outside lib mem m' s3 c.buffer ≡ true))
  unfolding copy
  copy_is_independent cs ds m s t nz own made spares spares' =
      let p = (clone m.buffer s).0 in
      let s1 = (clone m.buffer s).1 in
      let c : CameraMetadata = record { buffer = p; locked = false } in
      let fresh = clone_fresh m.buffer s in
      let same = value-clone m.buffer s t made in
      let l = live-clone m.buffer s m.buffer in
      let l' = live-clone m.buffer s p in
      let one = run-outside cs c s1 m.buffer t nz (ground arith) (ground arith) spares in
      let two = run-outside ds m s1 p t made (ground arith) (ground arith) spares' in
      (
        same,
        (one.0 ∙ value-clone_ne m.buffer s m.buffer t (ground arith), one.1),
        (two.0 ∙ same, two.1),
      )
