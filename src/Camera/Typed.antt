-- ===== src/Camera/Typed.antt =====
-- The types of the entries: `update` has an overload for each type, and checks it against the tag's.
use android_device_xiaomi_la.Common.{
  if_cases, ℕ, ◌≡◌, true, List, [], ◌∷◌, some, inl, inr, Option-cases, ◌||◌, ltb, ◌==◌, arith,
  Status, is_ok, is_missing, word, ◌*◌, ◌%◌, add_size,
}
use android_device_xiaomi_la.Camera.Library.{
  MetadataLib, TagType, byte, int32, float, int64, double, rational, Entry,
}
use android_device_xiaomi_la.Camera.Object.{CameraMetadata}
use android_device_xiaomi_la.Camera.Update.{
  Payload, int32s, bytes, floats, int64s, doubles, rationals, string, grown, reallocate,
  resize_if_needed, check_type, inside, write_entry, update_impl, update_as, update,
}
use android_device_xiaomi_la.Camera.Calls.{Call, updates}
use android_device_xiaomi_la.Camera.Guards.{same_type_eq}

-- Each entry of each block holds elements of the type of its tag. The library does not check the
-- data that it is handed: it keeps this if the data has the type of the tag, and else with no
-- condition. The data stands in memory of the caller's own.
pub record IsTyped (lib : MetadataLib) : Type 1 where
  pub Typed : lib.Store → Type 0
  -- at an address there are so many elements of the type
  pub OfType : TagType → ℕ → ℕ → Type 0
  pub Typed-allocate : (e d : ℕ) (s : lib.Store) → Typed s → Typed (lib.allocate e d s).1
  pub Typed-clone : (p : ℕ) (s : lib.Store) → Typed s → Typed (lib.clone p s).1
  pub Typed-free : (p : ℕ) (s : lib.Store) → Typed s → Typed (lib.free p s)
  pub Typed-append : (p r : ℕ) (s : lib.Store) → Typed s → Typed (lib.append p r s).1
  pub Typed-sort : (p : ℕ) (s : lib.Store) → Typed s → Typed (lib.sort p s).1
  pub Typed-delete_entry : (p i : ℕ) (s : lib.Store) → Typed s → Typed (lib.delete_entry p i s).1
  pub Typed-add_entry :
      (p t a n : ℕ) (k : TagType) (s : lib.Store)
      → Typed s
      → lib.tag_type t ≡ some k
      → OfType k a n
      → Typed (lib.add_entry p t a n s).1
  pub Typed-update_entry :
      (p t a n : ℕ) (k : TagType) (e : Entry) (s : lib.Store)
      → Typed s
      → lib.tag_type t ≡ some k
      → OfType k a n
      → is_ok (lib.find_entry s p t e).0 ≡ true
      → Typed (lib.update_entry p (lib.find_entry s p t e).1.index a n s).1

module _ (lib : MetadataLib) (types : IsTyped lib) where
  open lib use {Store, tag_type}
  open types use {
    Typed, OfType, Typed-allocate, Typed-clone, Typed-free, Typed-append, Typed-sort,
    Typed-delete_entry, Typed-add_entry, Typed-update_entry,
  }

  -- What an overload of `update` is passed has the type of its C++ parameter.
  abbrev pub PayloadTyped : Payload → Type 0
  PayloadTyped (int32s a n) = OfType int32 a n
  PayloadTyped (bytes a n) = OfType byte a n
  PayloadTyped (floats a n) = OfType float a n
  PayloadTyped (int64s a n) = OfType int64 a n
  PayloadTyped (doubles a n) = OfType double a n
  PayloadTyped (rationals a n) = OfType rational a n
  PayloadTyped (string a n) = OfType byte a (add_size n 1)

  abbrev pub CallTyped : Call → Type 0
  CallTyped (updates tag d) = PayloadTyped d
  CallTyped _ = Unit {0}

  abbrev pub CallsTyped : List Call → Type 0
  CallsTyped [] = Unit {0}
  CallsTyped (c ∷ cs) = CallTyped c × CallsTyped cs

  -- The same of what a method leaves.
  abbrev pub TypedState : CameraMetadata × Store → Type 0
  TypedState (m, s) = Typed s

  abbrev pub TypedResult : Status × CameraMetadata × Store → Type 0
  TypedResult (r, m, s) = Typed s

  reallocate-Typed :
      (e d : ℕ) (m : CameraMetadata) (s : Store) → Typed s → TypedResult (reallocate lib e d m s)
  unfolding reallocate
  reallocate-Typed e d m s typed =
      let p = (lib.allocate e d s).0 in
      let s1 = (lib.allocate e d s).1 in
      let s2 = (lib.append p m.buffer s1).1 in
      let a = Typed-allocate e d s typed in
      if_cases TypedResult (p == 0) (λ failed. a)
        (λ given. Typed-free m.buffer s2 (Typed-append p m.buffer s1 a))

  pub resize_if_needed-Typed :
      (x y : ℕ) (m : CameraMetadata) (s : Store)
      → Typed s
      → TypedResult (resize_if_needed lib x y m s)
  unfolding resize_if_needed
  resize_if_needed-Typed x y m s typed =
      let e = grown (add_size (lib.entry_count s m.buffer) x) (lib.entry_capacity s m.buffer) in
      let d = grown (add_size (lib.data_count s m.buffer) y) (lib.data_capacity s m.buffer) in
      if_cases TypedResult (m.buffer == 0)
        (λ null. Typed-allocate (x * 2 % word) (y * 2 % word) s typed)
        (λ there.
          if_cases TypedResult
            (ltb (lib.entry_capacity s m.buffer) e || ltb (lib.data_capacity s m.buffer) d)
            (λ grows. reallocate-Typed e d m s typed) (λ fits. typed))

  write_entry-Typed :
      (t a n : ℕ) (k : TagType) (m : CameraMetadata) (s : Store)
      → Typed s
      → tag_type t ≡ some k
      → OfType k a n
      → Typed (write_entry lib t a n m s).1
  unfolding write_entry
  write_entry-Typed t a n k m s typed kind held =
      let e : Entry = record { index = 0; count = 0; bytes = 0 } in
      let r = (lib.find_entry s m.buffer t e).0 in
      let TypedWrite : Status × Store → Type 0 = λ w. Typed w.1 in
      if_cases TypedWrite (is_missing r)
        (λ missing. Typed-add_entry m.buffer t a n k s typed kind held)
        (λ there.
          if_cases TypedWrite (is_ok r)
            (λ found. Typed-update_entry m.buffer t a n k e s typed kind held found) (λ bad. typed))

  update_impl-Typed :
      (t a n : ℕ) (k : TagType) (m : CameraMetadata) (s : Store)
      → Typed s
      → tag_type t ≡ some k
      → OfType k a n
      → TypedResult (update_impl lib t a n m s)
  unfolding update_impl
  update_impl-Typed t a n k m s typed kind held =
      let got = resize_if_needed lib 1 (lib.entry_data_size k n) m s in
      let b = resize_if_needed-Typed 1 (lib.entry_data_size k n) m s typed in
      if_cases TypedResult m.locked (λ locked. typed)
        (λ unlocked. rw kind (
          if_cases TypedResult (inside lib a m s) (λ within. typed)
            (λ outside.
              if_cases TypedResult (is_ok got.0)
                (λ fits. write_entry-Typed t a n k got.1 got.2 b kind held) (λ failed. b))))

  check_type_lem : (t : ℕ) (k : TagType) → is_ok (check_type lib t k) ≡ true → tag_type t ≡ some k
  unfolding check_type
  check_type_lem t k good = elim (Option-cases (tag_type t)) [
    | inl e ↦ ground arith
    | inr (j, e) ↦ ground (arith, same_type_eq j k)
  ]

  update_as-Typed :
      (k : TagType) (t a n : ℕ) (m : CameraMetadata) (s : Store)
      → Typed s
      → OfType k a n
      → TypedResult (update_as lib k t a n m s)
  unfolding update_as
  update_as-Typed k t a n m s typed held =
      if_cases TypedResult m.locked (λ locked. typed)
        (λ unlocked.
          if_cases TypedResult (is_ok (check_type lib t k))
            (λ good. update_impl-Typed t a n k m s typed (check_type_lem t k good) held)
            (λ bad. typed))

  pub update-Typed :
      (t : ℕ) (d : Payload) (m : CameraMetadata) (s : Store)
      → Typed s
      → PayloadTyped d
      → TypedResult (update lib t d m s)
  unfolding update
  update-Typed t (int32s a n) m s typed held = update_as-Typed int32 t a n m s typed held
  update-Typed t (bytes a n) m s typed held = update_as-Typed byte t a n m s typed held
  update-Typed t (floats a n) m s typed held = update_as-Typed float t a n m s typed held
  update-Typed t (int64s a n) m s typed held = update_as-Typed int64 t a n m s typed held
  update-Typed t (doubles a n) m s typed held = update_as-Typed double t a n m s typed held
  update-Typed t (rationals a n) m s typed held = update_as-Typed rational t a n m s typed held
  update-Typed t (string a n) m s typed held =
      update_as-Typed byte t a (add_size n 1) m s typed held
