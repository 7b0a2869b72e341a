-- ===== src/Camera/Refine.antt =====
-- The class refines a map: calls that succeed do to the object what they do to a map from tags to
-- values.
use android_device_xiaomi_la.Common.{
  ℕ, ◌+◌, ◌*◌, ◌<◌, ◌≡◌, refl, ◌∙◌, ap, false, List, [], ◌∷◌, Option, none, some, ◌==◌,
  if◌then◌else◌, arith, word, ok,
}
use android_device_xiaomi_la.Camera.Library.{MetadataLib, IsAllocator, IsMeasured, TagType, Entry}
use android_device_xiaomi_la.Camera.Object.{CameraMetadata, clear}
use android_device_xiaomi_la.Camera.Update.{update_as, erase}
use android_device_xiaomi_la.Camera.Resize.{held_by}
use android_device_xiaomi_la.Camera.Blocks.{IsOwner, update_as_lem}
use android_device_xiaomi_la.Camera.Maps.{IsMap}
use android_device_xiaomi_la.Camera.View.{view, view-update_as, datum-update_as, view-erase}

-- An overload of `update` with its tag, address and count; `erase`, with what the local entry holds;
-- `clear`.
pub data Change : Type 0 where
  sets : TagType → ℕ → ℕ → ℕ → Change
  unsets : ℕ → Entry → Change
  wipes : Change

module _ (lib : MetadataLib) (mem : IsAllocator lib) (rooms : IsMeasured lib)
    (maps : IsMap lib) where
  open lib use {Store}
  open mem use {live, live_null, live-free, live-delete_entry}
  open maps use {Value, datum, Held, datum-free, datum-delete_entry, value_null}

  unfoldable pub change : Change → CameraMetadata × Store → CameraMetadata × Store
  change (sets k tag a n) (m, s) = let (_, m', s') = update_as lib k tag a n m s in (m', s')
  change (unsets tag e) (m, s) = let (_, m', s') = erase lib tag m s e in (m', s')
  change wipes (m, s) = clear lib m s

  unfoldable pub changes : List Change → CameraMetadata × Store → CameraMetadata × Store
  changes [] s = s
  changes (c ∷ cs) s = changes cs (change c s)

  -- The call succeeds, its data is the caller's own, and sizes stay below 2^32 when doubled.
  abbrev pub Succeeds : Change → CameraMetadata → Store → Type 0
  Succeeds (sets k tag a n) m s =
      ((update_as lib k tag a n m s).0 ≡ ok)
      × Held a n
      × (((held_by lib mem rooms m s).entries + 1) * 2 < word)
      × (((held_by lib mem rooms m s).octets + lib.entry_data_size k n) * 2 < word)
  Succeeds (unsets tag e) m s = (erase lib tag m s e).0 ≡ ok
  Succeeds wipes m s = m.locked ≡ false

  abbrev pub AllSucceed : List Change → CameraMetadata × Store → Type 0
  AllSucceed [] s = Unit {0}
  AllSucceed (c ∷ cs) (m, s) = Succeeds c m s × AllSucceed cs (change c (m, s))

  -- What a change does to the value of the tag `t` in a map.
  abbrev pub effect : Store → ℕ → Option Value → Change → Option Value
  effect s t old (sets k tag a n) = if t == tag then some (datum s a n) else old
  effect s t old (unsets tag e) = if t == tag then none else old
  effect s t old wipes = none

  abbrev pub after : Store → ℕ → Option Value → List Change → Option Value
  after s t old [] = old
  after s t old (c ∷ cs) = after s t (effect s t old c) cs

  pub change-view :
      (c : Change) (m : CameraMetadata) (s : Store) (t : ℕ)
      → IsOwner lib mem m s
      → Succeeds c m s
      → view lib mem rooms maps (change c (m, s)).0 (change c (m, s)).1 t
        ≡ effect s t (view lib mem rooms maps m s t) c
  unfolding change clear
  change-view (sets k tag a n) m s t own h =
      view-update_as lib mem rooms maps k tag a n m s t own h.1 h.2 h.3 h.0
  change-view (unsets tag e) m s t own h = view-erase lib mem rooms maps tag m s e t h
  change-view wipes m s t own h = ground (arith, value_null s t, value_null (lib.free m.buffer s) t)

  pub change-IsOwner :
      (c : Change) (m : CameraMetadata) (s : Store)
      → IsOwner lib mem m s
      → IsOwner lib mem (change c (m, s)).0 (change c (m, s)).1
  unfolding change clear erase
  change-IsOwner (sets k tag a n) m s own =
      (update_as_lem lib mem k tag a n m s 1 (omega arith) own).0
  change-IsOwner (unsets tag e) m s own =
      let i = (lib.find_entry s m.buffer tag e).1.index in
      ground (arith, live-delete_entry m.buffer i s m.buffer)
  change-IsOwner wipes m s own = ground arith

  pub change-datum :
      (c : Change) (m : CameraMetadata) (s : Store) (a n : ℕ)
      → IsOwner lib mem m s
      → Succeeds c m s
      → Held a n
      → datum (change c (m, s)).1 a n ≡ datum s a n
  unfolding change clear erase
  change-datum (sets k tag b d) m s a n own h held =
      datum-update_as lib mem rooms maps k tag b d m s a n own held h.2 h.3 h.0
  change-datum (unsets tag e) m s a n own h held =
      let i = (lib.find_entry s m.buffer tag e).1.index in
      ground (arith, datum-delete_entry m.buffer i s a n held)
  change-datum wipes m s a n own h held = ground (arith, datum-free m.buffer s a n held)

  -- The data of a later change is where it was.
  abbrev pub Stays : Change → Store → Store → Type 0
  Stays (sets k tag a n) s s' = datum s' a n ≡ datum s a n
  Stays _ s s' = Unit {0}

  abbrev pub AllStay : List Change → Store → Store → Type 0
  AllStay [] s s' = Unit {0}
  AllStay (c ∷ cs) s s' = Stays c s s' × AllStay cs s s'

  AllStay-change :
      (c : Change) (cs : List Change) (m : CameraMetadata) (s : Store)
      (now : CameraMetadata × Store)
      → IsOwner lib mem m s
      → Succeeds c m s
      → AllSucceed cs now
      → AllStay cs s (change c (m, s)).1
  AllStay-change c [] m s now own h all = tt
  AllStay-change c (sets k tag a n ∷ cs) m s (m', s') own h all = (
    change-datum c m s a n own h all.0.1,
    AllStay-change c cs m s (change (sets k tag a n) (m', s')) own h all.1,
  )
  AllStay-change c (unsets tag e ∷ cs) m s (m', s') own h all =
      (tt, AllStay-change c cs m s (change (unsets tag e) (m', s')) own h all.1)
  AllStay-change c (wipes ∷ cs) m s (m', s') own h all =
      (tt, AllStay-change c cs m s (change wipes (m', s')) own h all.1)

  pub after-AllStay :
      (cs : List Change) (s s' : Store) (t : ℕ) (old : Option Value)
      → AllStay cs s s'
      → after s' t old cs ≡ after s t old cs
  after-AllStay [] s s' t old h = refl
  after-AllStay (sets k tag a n ∷ cs) s s' t old h =
      after-AllStay cs s s' t (if t == tag then some (datum s' a n) else old) h.1
      ∙ ap (λ d. after s t (if t == tag then some d else old) cs) h.0
  after-AllStay (unsets tag e ∷ cs) s s' t old h =
      after-AllStay cs s s' t (if t == tag then none else old) h.1
  after-AllStay (wipes ∷ cs) s s' t old h = after-AllStay cs s s' t none h.1

  -- A sequence of updates, erasures and clearings that succeed, on an object that owns its block,
  -- does to the value of every tag what it does in a map: the last of them that concerns the tag
  -- counts. The data that is passed is the caller's own, and sizes stay below 2^32 when doubled.
  changes-after :
      (cs : List Change) (m : CameraMetadata) (s : Store) (t : ℕ)
      → IsOwner lib mem m s
      → AllSucceed cs (m, s)
      → view lib mem rooms maps (changes cs (m, s)).0 (changes cs (m, s)).1 t
        ≡ after s t (view lib mem rooms maps m s t) cs
  unfolding changes
  changes-after [] m s t own all = refl
  changes-after (c ∷ cs) m s t own all =
      let m1 = (change c (m, s)).0 in
      let s1 = (change c (m, s)).1 in
      changes-after cs m1 s1 t (change-IsOwner c m s own) all.1
      ∙ ap (λ v. after s1 t v cs) (change-view c m s t own all.0)
      ∙ after-AllStay cs s s1 t (effect s t (view lib mem rooms maps m s t) c)
          (AllStay-change c cs m s (change c (m, s)) own all.0 all.1)
