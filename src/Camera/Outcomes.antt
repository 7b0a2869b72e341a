-- ===== src/Camera/Outcomes.antt =====
-- Every way in which an overload of `update` can end.
use android_device_xiaomi_la.Common.{
  ℕ, ◌+◌, ◌*◌, ◌<◌, ◌≡◌, ◌≢◌, ◌⊎◌, inl, inr, true, false, some, Option-cases, Bool-cases, ◌==◌,
  if◌then◌else◌, arith, word, Status, ok, no_memory, invalid_operation,
}
use android_device_xiaomi_la.Camera.Library.{MetadataLib, IsAllocator, IsMeasured, TagType}
use android_device_xiaomi_la.Camera.Object.{CameraMetadata}
use android_device_xiaomi_la.Camera.Update.{
  resize_if_needed, check_type, same_type, update_impl, update_as, inside,
}
use android_device_xiaomi_la.Camera.Guards.{update_as_refused, same_type_eq}
use android_device_xiaomi_la.Camera.Blocks.{resize_lem}
use android_device_xiaomi_la.Camera.Resize.{held_by, Roomy, resize_if_needed-Resized}
use android_device_xiaomi_la.Camera.Maps.{IsMap, IsSpacious}
use android_device_xiaomi_la.Camera.View.{view, view-update_as}
use android_device_xiaomi_la.Camera.Succeed.{same_type_refl, write_entry_ok}

module _ (lib : MetadataLib) (mem : IsAllocator lib) (rooms : IsMeasured lib) (maps : IsMap lib)
    (space : IsSpacious lib mem maps) where
  open lib use {Store, allocate, tag_type, entry_data_size}
  open mem use {live}
  open maps use {datum, Held}

  -- Why an update is refused, or that it is not.
  abbrev pub IsRefused : TagType → ℕ → ℕ → CameraMetadata → Store → Type 0
  IsRefused k tag a m s = (m.locked ≡ true) ⊎ (tag_type tag ≢ some k) ⊎ (inside lib a m s ≡ true)

  abbrev pub IsAccepted : TagType → ℕ → ℕ → CameraMetadata → Store → Type 0
  IsAccepted k tag a m s = (m.locked ≡ false) × (tag_type tag ≡ some k) × (inside lib a m s ≡ false)

  guard_cases :
      (k : TagType) (tag a : ℕ) (m : CameraMetadata) (s : Store)
      → IsRefused k tag a m s ⊎ IsAccepted k tag a m s
  guard_cases k tag a m s = elim (Option-cases (tag_type tag)) [
    | inl e ↦ inl (inr (inl λ h. ground (arith, e, h)))
    | inr (j, e) ↦ elim (Bool-cases (same_type j k)) [
      | inl y ↦ ground (arith, e, same_type_eq j k y)
      | inr n ↦ inl (inr (inl λ h. ground (arith, e, h, same_type_refl k)))
    ]
  ]

  -- Refused, and nothing is changed; or an allocation returns NULL, and the object is left without
  -- a block; or the tag has the new value, and the others the one that they had.
  pub record Updated (k : TagType) (tag a n : ℕ) (m : CameraMetadata) (s : Store) (t : ℕ)
      (out : Status × CameraMetadata × Store) : Type 0 where
    pub outcome :
        (IsRefused k tag a m s × (out ≡ (invalid_operation, m, s)))
        ⊎ (IsAccepted k tag a m s
            × (out.0 ≡ no_memory)
            × (out.1.buffer ≡ 0)
            × ((e : ℕ) × (d : ℕ) × ((allocate e d s).0 ≡ 0)))
        ⊎ (IsAccepted k tag a m s
            × (out.0 ≡ ok)
            × (view lib mem rooms maps out.1 out.2 t
                ≡ (if t == tag then some (datum s a n) else view lib mem rooms maps m s t)))

  no_memory_lem :
      (k : TagType) (tag a n : ℕ) (m : CameraMetadata) (s : Store)
      → IsAccepted k tag a m s
      → (resize_if_needed lib 1 (entry_data_size k n) m s).0 ≡ no_memory
      → (resize_if_needed lib 1 (entry_data_size k n) m s).1.buffer ≡ 0
      → ((update_as lib k tag a n m s).0 ≡ no_memory) × ((update_as lib k tag a n m s).1.buffer ≡ 0)
  unfolding update_as check_type update_impl
  no_memory_lem k tag a n m s accepted bad null =
      let e = accepted.1 in ground (arith, e, same_type_refl k)

  roomy_lem :
      (k : TagType) (tag a n : ℕ) (m : CameraMetadata) (s : Store)
      → (m.buffer ≡ 0) ⊎ (live s m.buffer ≡ true)
      → Held a n
      → IsAccepted k tag a m s
      → Roomy lib mem rooms 1
          (entry_data_size k n)
          m
          s
          (resize_if_needed lib 1 (entry_data_size k n) m s)
      → (update_as lib k tag a n m s).0 ≡ ok
  unfolding update_as check_type update_impl
  roomy_lem k tag a n m s own held accepted space_ =
      let y = entry_data_size k n in
      let r = resize_if_needed lib 1 y m s in
      let e = accepted.1 in
      let keeps = resize_lem lib mem 1 y m s 1 (omega arith) own in
      ground (
        arith,
        e,
        same_type_refl k,
        write_entry_ok lib mem rooms maps space k tag a n r.1 r.2 space_.1 (ground arith) e held
            (ground arith) (ground arith),
      )

  -- What an overload of `update` does in every case. A locked object, a tag that is unknown or of
  -- another type, and data at an address strictly between the first byte and the end of the object's
  -- own block are refused with INVALID_OPERATION, and nothing is changed. Else either the library
  -- returns NULL for some sizes of a block; then it reports NO_MEMORY, and the object has no block. Or
  -- it reports OK, the tag is set to the data that was passed, and every other tag is as it was.
  -- Conditions: the object owns its block, data that is not refused for its address is in memory of
  -- the caller's own, and the sizes stay below 2^32 when doubled.
  pub update_as-Updated :
      (k : TagType) (tag a n : ℕ) (m : CameraMetadata) (s : Store) (t : ℕ)
      → (m.buffer ≡ 0) ⊎ (live s m.buffer ≡ true)
      → (inside lib a m s ≡ false → Held a n)
      → ((held_by lib mem rooms m s).entries + 1) * 2 < word
      → ((held_by lib mem rooms m s).octets + entry_data_size k n) * 2 < word
      → Updated k tag a n m s t (update_as lib k tag a n m s)
  update_as-Updated k tag a n m s t own held hx hy = elim (guard_cases k tag a m s) [
    | inl why ↦ record { outcome = inl (why, update_as_refused lib k tag a n m s why) }
    | inr accepted ↦
        let y = entry_data_size k n in
        elim (resize_if_needed-Resized lib mem rooms 1 y m s own hx hy).outcome [
          | inl (bad, null, asked) ↦
              let (r, b) = no_memory_lem k tag a n m s accepted bad null in
              record { outcome = inr (inl (accepted, r, b, asked)) }
          | inr space_ ↦
              let good = roomy_lem k tag a n m s own (held accepted.2) accepted space_ in
              let set =
                view-update_as lib mem rooms maps k tag a n m s t own (held accepted.2) hx hy
                  good in
              record { outcome = inr (inr (accepted, good, set)) }
        ]
  ]

  -- Where memory can be had, an update that is not refused reports OK, sets the tag to the data that
  -- was passed, and changes no other tag.
  update_as_sets :
      (k : TagType) (tag a n : ℕ) (m : CameraMetadata) (s : Store) (t : ℕ)
      → (m.buffer ≡ 0) ⊎ (live s m.buffer ≡ true)
      → IsAccepted k tag a m s
      → Held a n
      → ((held_by lib mem rooms m s).entries + 1) * 2 < word
      → ((held_by lib mem rooms m s).octets + entry_data_size k n) * 2 < word
      → ((e d : ℕ) → (allocate e d s).0 ≢ 0)
      → let (r, m', s') = update_as lib k tag a n m s in
        (r ≡ ok)
        × (view lib mem rooms maps m' s' t
            ≡ (if t == tag then some (datum s a n) else view lib mem rooms maps m s t))
  update_as_sets k tag a n m s t own accepted held hx hy memory =
      elim (update_as-Updated k tag a n m s t own (λ h. held) hx hy).outcome [
        | inl (inl locked, e) ↦ absurd (cc (locked, accepted.0))
        | inl (inr (inl other), e) ↦ absurd (other accepted.1)
        | inl (inr (inr within), e) ↦ absurd (cc (within, accepted.2))
        | inr (inl (acc, r, b, (e, d, null))) ↦ absurd (memory e d null)
        | inr (inr (acc, good, set)) ↦ (good, set)
      ]
