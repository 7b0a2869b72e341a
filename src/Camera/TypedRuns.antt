-- ===== src/Camera/TypedRuns.antt =====
-- The types of the entries, through any calls of the methods.
use android_device_xiaomi_la.Common.{if_cases, ℕ, List, [], ◌∷◌, ◌==◌, is_ok, is_missing}
use android_device_xiaomi_la.Camera.Library.{MetadataLib, Entry}
use android_device_xiaomi_la.Camera.Object.{CameraMetadata, assign, clear, acquire, sort}
use android_device_xiaomi_la.Camera.Update.{resize_if_needed, append, erase}
use android_device_xiaomi_la.Camera.Calls.{
  Call, assigns, acquires, unlocks, appends, clears, releases, locks, sorts, updates, erases, step,
  run,
}
use android_device_xiaomi_la.Camera.Typed.{
  IsTyped, CallTyped, CallsTyped, TypedState, TypedResult, resize_if_needed-Typed, update-Typed,
}

module _ (lib : MetadataLib) (types : IsTyped lib) where
  open lib use {Store}
  open types use {Typed, Typed-clone, Typed-free, Typed-append, Typed-sort, Typed-delete_entry}

  clear-Typed : (m : CameraMetadata) (s : Store) → Typed s → TypedState lib types (clear lib m s)
  unfolding clear
  clear-Typed m s typed =
      if_cases (TypedState lib types) m.locked (λ locked. typed)
        (λ unlocked.
          if_cases (TypedState lib types) (m.buffer == 0) (λ null. typed)
            (λ there. Typed-free m.buffer s typed))

  assign-Typed :
      (p : ℕ) (m : CameraMetadata) (s : Store) → Typed s → TypedState lib types (assign lib p m s)
  unfolding assign
  assign-Typed p m s typed =
      if_cases (TypedState lib types) m.locked (λ locked. typed)
        (λ unlocked.
          if_cases (TypedState lib types) (p == m.buffer) (λ same. typed)
            (λ other. clear-Typed m (lib.clone p s).1 (Typed-clone p s typed)))

  acquire-Typed :
      (p : ℕ) (m : CameraMetadata) (s : Store) → Typed s → TypedState lib types (acquire lib p m s)
  unfolding acquire
  acquire-Typed p m s typed =
      if_cases (TypedState lib types) m.locked (λ locked. typed) (λ unlocked. clear-Typed m s typed)

  append-Typed :
      (p : ℕ) (m : CameraMetadata) (s : Store) → Typed s → TypedResult lib types (append lib p m s)
  unfolding append
  append-Typed p m s typed =
      let got = resize_if_needed lib (lib.entry_count s p) (lib.data_count s p) m s in
      if_cases (TypedResult lib types) m.locked (λ locked. typed)
        (λ unlocked.
          Typed-append got.1.buffer p got.2
            (resize_if_needed-Typed lib types (lib.entry_count s p) (lib.data_count s p) m s typed))

  sort-Typed : (m : CameraMetadata) (s : Store) → Typed s → TypedResult lib types (sort lib m s)
  unfolding sort
  sort-Typed m s typed =
      if_cases (TypedResult lib types) m.locked (λ locked. typed)
        (λ unlocked. Typed-sort m.buffer s typed)

  erase-Typed :
      (t : ℕ) (m : CameraMetadata) (s : Store) (e : Entry)
      → Typed s
      → TypedResult lib types (erase lib t m s e)
  unfolding erase
  erase-Typed t m s e typed =
      let got = lib.find_entry s m.buffer t e in
      if_cases (TypedResult lib types) m.locked (λ locked. typed)
        (λ unlocked.
          if_cases (TypedResult lib types) (is_missing got.0) (λ missing. typed)
            (λ there.
              if_cases (TypedResult lib types) (is_ok got.0)
                (λ found. Typed-delete_entry m.buffer got.1.index s typed) (λ bad. typed)))

  step-Typed :
      (c : Call) (m : CameraMetadata) (s : Store)
      → Typed s
      → CallTyped lib types c
      → TypedState lib types (step lib c (m, s))
  unfolding step
  step-Typed (assigns p) m s typed held = assign-Typed p m s typed
  step-Typed (acquires p) m s typed held = acquire-Typed p m s typed
  step-Typed (unlocks p) m s typed held = typed
  step-Typed (appends p) m s typed held = append-Typed p m s typed
  step-Typed clears m s typed held = clear-Typed m s typed
  step-Typed releases m s typed held = typed
  step-Typed locks m s typed held = typed
  step-Typed sorts m s typed held = sort-Typed m s typed
  step-Typed (updates t d) m s typed held = update-Typed lib types t d m s typed held
  step-Typed (erases t e) m s typed held = erase-Typed t m s e typed

  -- If each overload of `update` is passed elements of the type that it is declared with, then
  -- whatever tags it is called with and whatever calls come between, each entry of each block keeps
  -- elements of the type of its tag. Condition: the library keeps this where it is handed data of
  -- the tag's type.
  pub run-Typed :
      (cs : List Call) (m : CameraMetadata) (s : Store)
      → Typed s
      → CallsTyped lib types cs
      → TypedState lib types (run lib cs (m, s))
  unfolding run
  run-Typed [] m s typed held = typed
  run-Typed (c ∷ cs) m s typed held =
      let now = step lib c (m, s) in run-Typed cs now.0 now.1 (step-Typed c m s typed held.0) held.1
