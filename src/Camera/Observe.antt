-- ===== src/Camera/Observe.antt =====
-- What `exists` and `find` say of an object is its view as a map.
use android_device_xiaomi_la.Common.{
  ℕ, ◌≡◌, ◌∙◌, sym, ap, Bool, List, Option, none, some, arith, if◌then◌else◌,
}
use android_device_xiaomi_la.Camera.Library.{MetadataLib, IsAllocator, IsMeasured, Entry}
use android_device_xiaomi_la.Camera.Object.{CameraMetadata}
use android_device_xiaomi_la.Camera.Update.{exists, find_const}
use android_device_xiaomi_la.Camera.Maps.{IsMap, IsLocal, IsShown}
use android_device_xiaomi_la.Camera.View.{view}
use android_device_xiaomi_la.Camera.Refine.{Change, after}
use android_device_xiaomi_la.Camera.Pair.{
  own, Apart, PairsSucceed, pair_changes, pair_changes-after,
}

module _ (lib : MetadataLib) (mem : IsAllocator lib) (rooms : IsMeasured lib) (maps : IsMap lib)
    (shows : IsShown lib maps) where
  open lib use {Store}
  open maps use {Value, datum, find_ok}
  open shows use {datum-find_entry}

  -- What a client reads of a tag: `exists`, and the data of the entry that `find` gives. The locals
  -- hold `e` before.
  abbrev pub reads : CameraMetadata → Store → Entry → ℕ → Option Value
  reads m s e t =
      if exists lib t m s e
      then some (datum s (find_const lib t m s e).bytes (find_const lib t m s e).count)
      else none

  pub reads-view :
      (m : CameraMetadata) (s : Store) (e : Entry) (t : ℕ)
      → reads m s e t ≡ view lib mem rooms maps m s t
  unfolding exists find_const
  reads-view m s e t = ground (arith, find_ok s m.buffer t e, datum-find_entry s m.buffer t e)

module _ (lib : MetadataLib) (mem : IsAllocator lib) (rooms : IsMeasured lib) (maps : IsMap lib)
    (locals : IsLocal lib maps) (shows : IsShown lib maps) where
  open lib use {Store}

  -- Two objects that do not share a block are two maps for their clients: however updates, erasures
  -- and clearings of the one and the other alternate, if they all succeed, what `exists` and `find`
  -- const then give for a tag of an object is what they gave at first, changed by the object's own
  -- changes as in a map, the last of them that concerns the tag counting. The data that is passed
  -- is the caller's own, and sizes stay below 2^32 when doubled.
  pair_changes-reads :
      (cs : List (Bool × Change)) (m o : CameraMetadata) (s : Store) (e : Entry) (t : ℕ)
      → Apart lib mem rooms maps locals m o s
      → PairsSucceed lib mem rooms maps locals cs (m, o, s)
      → let (m', _, s') = pair_changes lib mem rooms maps locals cs (m, o, s) in
        reads lib mem rooms maps shows m' s' e t
        ≡ after lib mem rooms maps s t (reads lib mem rooms maps shows m s e t) (own cs)
  pair_changes-reads cs m o s e t apart all =
      let w = pair_changes lib mem rooms maps locals cs (m, o, s) in
      reads-view lib mem rooms maps shows w.0 w.2 e t
      ∙ pair_changes-after lib mem rooms maps locals cs m o s t apart all
      ∙ ap (λ v. after lib mem rooms maps s t v (own cs))
          (sym (reads-view lib mem rooms maps shows m s e t))
