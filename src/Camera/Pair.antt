-- ===== src/Camera/Pair.antt =====
-- Two objects on the same memory, whose calls alternate in any way: each is a map of its own.
use android_device_xiaomi_la.Common.{
  ℕ, ◌≡◌, ◌≢◌, ◌∙◌, ◌⊎◌, inl, inr, refl, ap, Bool, true, false, List, [], ◌∷◌, arith, ◌==◌,
  Bool-cases,
}
use android_device_xiaomi_la.Camera.Library.{MetadataLib, IsAllocator, IsMeasured}
use android_device_xiaomi_la.Camera.Object.{CameraMetadata, clear}
use android_device_xiaomi_la.Camera.Update.{erase}
use android_device_xiaomi_la.Camera.Blocks.{IsOwner, outside, update_as_lem}
use android_device_xiaomi_la.Camera.Maps.{IsMap, IsLocal}
use android_device_xiaomi_la.Camera.View.{view}
use android_device_xiaomi_la.Camera.Refine.{
  Change, sets, unsets, wipes, change, Succeeds, effect, after, AllStay, change-view,
  change-IsOwner, change-datum, after-AllStay,
}
use android_device_xiaomi_la.Camera.Frame.{value-update_as}

-- The changes of the object itself, `true`, among those of both.
abbrev pub own : List (Bool × Change) → List Change
own [] = []
own ((true, c) ∷ cs) = c ∷ own cs
own ((false, c) ∷ cs) = own cs

module _ (lib : MetadataLib) (mem : IsAllocator lib) (rooms : IsMeasured lib) (maps : IsMap lib)
    (locals : IsLocal lib maps) where
  open lib use {Store}
  open mem use {live, live_null, live-free, live-delete_entry}
  open maps use {value, datum, Held, value_null, value-free}
  open locals use {value-delete_entry_ne}

  -- This object, the other one, and the memory.
  abbrev pub Pair : Type 0
  Pair = CameraMetadata × CameraMetadata × Store

  unfoldable pub pair_change : Bool × Change → Pair → Pair
  pair_change (true, c) (m, o, s) = let (m', s') = change lib mem rooms maps c (m, s) in (m', o, s')
  pair_change (false, c) (m, o, s) =
      let (o', s') = change lib mem rooms maps c (o, s) in (m, o', s')

  unfoldable pub pair_changes : List (Bool × Change) → Pair → Pair
  pair_changes [] w = w
  pair_changes (c ∷ cs) w = pair_changes cs (pair_change c w)

  abbrev pub PairSucceeds : Bool × Change → Pair → Type 0
  PairSucceeds (true, c) (m, o, s) = Succeeds lib mem rooms maps c m s
  PairSucceeds (false, c) (m, o, s) = Succeeds lib mem rooms maps c o s

  abbrev pub PairsSucceed : List (Bool × Change) → Pair → Type 0
  PairsSucceed [] w = Unit {0}
  PairsSucceed (c ∷ cs) w = PairSucceeds c w × PairsSucceed cs (pair_change c w)

  -- Each object has no block, or one that is allocated and not the other's.
  abbrev pub Apart : CameraMetadata → CameraMetadata → Store → Type 0
  Apart m o s = IsOwner lib mem m s × IsOwner lib mem o s × ((m.buffer ≡ 0) ⊎ (m.buffer ≢ o.buffer))

  outside-change :
      (c : Change) (m : CameraMetadata) (s : Store) (q : ℕ)
      → q ≢ 0
      → IsOwner lib mem m s
      → outside lib mem m s q ≡ true
      → outside lib mem
          (change lib mem rooms maps c (m, s)).0
          (change lib mem rooms maps c (m, s)).1
          q
        ≡ true
  unfolding change clear erase
  outside-change (sets k tag a n) m s q nz ow out =
      ground (arith, update_as_lem lib mem k tag a n m s q nz ow)
  outside-change (unsets tag e) m s q nz ow out =
      let i = (lib.find_entry s m.buffer tag e).1.index in
      ground (arith, live-delete_entry m.buffer i s q)
  outside-change wipes m s q nz ow out = ground (arith, live-free m.buffer s q)

  value-change :
      (c : Change) (m : CameraMetadata) (s : Store) (q t : ℕ)
      → q ≢ 0
      → IsOwner lib mem m s
      → outside lib mem m s q ≡ true
      → value (change lib mem rooms maps c (m, s)).1 q t ≡ value s q t
  unfolding change clear erase
  value-change (sets k tag a n) m s q t nz ow out =
      ground (arith, value-update_as lib mem maps locals k tag a n m s q t nz ow out)
  value-change (unsets tag e) m s q t nz ow out =
      let i = (lib.find_entry s m.buffer tag e).1.index in
      ground (arith, value-delete_entry_ne m.buffer i s q t)
  value-change wipes m s q t nz ow out = ground (arith, value-free m.buffer s q t)

  -- A change of the object `m`, with the other one `o`.
  pub Apart-change :
      (c : Change) (m o : CameraMetadata) (s : Store)
      → Apart m o s
      → Apart (change lib mem rooms maps c (m, s)).0 o (change lib mem rooms maps c (m, s)).1
  Apart-change c m o s apart =
      let ow = change-IsOwner lib mem rooms maps c m s apart.0 in
      elim (Bool-cases (o.buffer == 0)) [
        | inl z ↦ (ow, ground arith, ground arith)
        | inr nz ↦
            let out =
              outside-change c m s o.buffer (ground arith) apart.0 (ground (arith, live_null s)) in
            (ow, ground arith, ground arith)
      ]

  pub Apart-swap : (m o : CameraMetadata) (s : Store) → Apart m o s → Apart o m s
  Apart-swap m o s apart = ground arith

  -- A change of the other object leaves the view of this one.
  pub view-other :
      (c : Change) (m o : CameraMetadata) (s : Store) (t : ℕ)
      → Apart m o s
      → view lib mem rooms maps m (change lib mem rooms maps c (o, s)).1 t
        ≡ view lib mem rooms maps m s t
  view-other c m o s t apart =
      let s1 = (change lib mem rooms maps c (o, s)).1 in
      elim (Bool-cases (m.buffer == 0)) [
        | inl z ↦ ground (arith, value_null s t, value_null s1 t)
        | inr nz ↦
            value-change c o s m.buffer t (ground arith) apart.1 (ground (arith, live_null s))
      ]

  -- The data that the changes will set was not moved.
  AllStay-own :
      (cs : List (Bool × Change)) (w : Pair) (s s1 : Store)
      → ((a n : ℕ) → Held a n → datum s1 a n ≡ datum s a n)
      → PairsSucceed cs w
      → AllStay lib mem rooms maps (own cs) s s1
  AllStay-own [] w s s1 kept all = tt
  AllStay-own ((true, sets k tag a n) ∷ cs) (m, o, s0) s s1 kept all = (
    kept a n all.0.1,
    AllStay-own cs (pair_change (true, sets k tag a n) (m, o, s0)) s s1 kept all.1,
  )
  AllStay-own ((true, unsets tag e) ∷ cs) (m, o, s0) s s1 kept all =
      (tt, AllStay-own cs (pair_change (true, unsets tag e) (m, o, s0)) s s1 kept all.1)
  AllStay-own ((true, wipes) ∷ cs) (m, o, s0) s s1 kept all =
      (tt, AllStay-own cs (pair_change (true, wipes) (m, o, s0)) s s1 kept all.1)
  AllStay-own ((false, c) ∷ cs) (m, o, s0) s s1 kept all =
      AllStay-own cs (pair_change (false, c) (m, o, s0)) s s1 kept all.1

  -- Two objects that do not share a block are two maps: however updates, erasures and clearings of
  -- the one and the other alternate, if they all succeed, the view of an object is what its own
  -- changes alone make of it as a map. The data that is passed is the caller's own, and sizes stay
  -- below 2^32 when doubled.
  pub pair_changes-after :
      (cs : List (Bool × Change)) (m o : CameraMetadata) (s : Store) (t : ℕ)
      → Apart m o s
      → PairsSucceed cs (m, o, s)
      → let (m', _, s') = pair_changes cs (m, o, s) in
        view lib mem rooms maps m' s' t
        ≡ after lib mem rooms maps s t (view lib mem rooms maps m s t) (own cs)
  unfolding pair_changes pair_change
  pair_changes-after [] m o s t apart all = refl
  pair_changes-after ((true, c) ∷ cs) m o s t apart all =
      let m1 = (change lib mem rooms maps c (m, s)).0 in
      let s1 = (change lib mem rooms maps c (m, s)).1 in
      pair_changes-after cs m1 o s1 t (Apart-change c m o s apart) all.1
      ∙ ap (λ v. after lib mem rooms maps s1 t v (own cs))
          (change-view lib mem rooms maps c m s t apart.0 all.0)
      ∙ after-AllStay lib mem rooms maps (own cs) s s1 t
          (effect lib mem rooms maps s t (view lib mem rooms maps m s t) c)
          (AllStay-own cs (m1, o, s1) s s1
            (λ a n held. change-datum lib mem rooms maps c m s a n apart.0 all.0 held) all.1)
  pair_changes-after ((false, c) ∷ cs) m o s t apart all =
      let o1 = (change lib mem rooms maps c (o, s)).0 in
      let s1 = (change lib mem rooms maps c (o, s)).1 in
      let apart' = Apart-swap m o s apart in
      pair_changes-after cs m o1 s1 t (Apart-swap o1 m s1 (Apart-change c o m s apart')) all.1
      ∙ ap (λ v. after lib mem rooms maps s1 t v (own cs)) (view-other c m o s t apart)
      ∙ after-AllStay lib mem rooms maps (own cs) s s1 t (view lib mem rooms maps m s t) (
          AllStay-own cs (m, o1, s1) s s1
            (λ a n held. change-datum lib mem rooms maps c o s a n apart'.0 all.0 held) all.1)
