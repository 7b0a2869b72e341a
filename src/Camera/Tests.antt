-- ===== src/Camera/Tests.antt =====
-- The theorems about CameraMetadata at concrete inputs, over the small library of Model.
use android_device_xiaomi_la.Common.{
  ◌≡◌, ◌≢◌, refl, Bool, true, false, List, [], ◌∷◌, none, some, arith, inl, inr, ok, pos,
}
use android_device_xiaomi_la.Camera.Library.{room, int32, Entry}
use android_device_xiaomi_la.Camera.Object.{
  CameraMetadata, copy, get_and_lock, assign, assign_object, acquire, acquire_object, release,
  clear, swap,
}
use android_device_xiaomi_la.Camera.Update.{
  Payload, update, update_as, update_impl, resize_if_needed, reallocate, write_entry, check_type,
  erase, exists, find_const,
}
use android_device_xiaomi_la.Camera.Calls.{Call, run}
use android_device_xiaomi_la.Camera.Methods.{Method, calls, acquires_object, swaps, reads, acts}
use android_device_xiaomi_la.Camera.Locked.{acts-get_and_lock}
use android_device_xiaomi_la.Camera.Blocks.{IsOwner, outside}
use android_device_xiaomi_la.Camera.Resize.{Resized, resize_if_needed-Resized}
use android_device_xiaomi_la.Camera.Parcel.{
  Item, int, blob, write_block, write_to_parcel, read_from_parcel,
}
use android_device_xiaomi_la.Camera.Receive.{read_from_parcel-outside}
use android_device_xiaomi_la.Camera.Outcomes.{Updated, update_as-Updated}
use android_device_xiaomi_la.Camera.Refine.{sets, unsets, wipes, change}
use android_device_xiaomi_la.Camera.Moves.{Move, changes, assigns, acquires, swaps, move}
use android_device_xiaomi_la.Camera.Joint.{turn, turns, both_read, turns-reads}
use android_device_xiaomi_la.Camera.Copies.{copy_is_independent}
use android_device_xiaomi_la.Camera.Exchange.{read_from_parcel-write_to_parcel}
use android_device_xiaomi_la.Camera.Dictionary
use android_device_xiaomi_la.Camera.Dictionary.{
  Heap, Block, dictionary, maps, spacious, local, shown,
}
use android_device_xiaomi_la.Camera.TwoTypes.{WellTyped, two_types, types}
use android_device_xiaomi_la.Camera.TypedRuns.{run-Typed}
use android_device_xiaomi_la.Camera.Model.{
  Memory, lib, io, allocator, measured, faithful, copier, kept,
}

-- Blocks 1 and 2 are allocated; the object has block 1, which is full.
abbrev memory : Memory
memory = record {
  last = 2;
  at = λ q. some (record { entries = 3; entry_cap = 3; octets = 0; octet_cap = 8 });
  written = λ a. 0;
}

abbrev object : CameraMetadata
object = record { buffer = 1; locked = false }

abbrev grown_object : CameraMetadata
grown_object = record { buffer = 3; locked = false }

update_grows :
    let (r, m, s) = update lib 7 (Payload.int32s 500 1) object memory in
    (r ≡ ok) × (m ≡ grown_object) × ((room lib s 3).entry_cap ≡ 8)
unfolding update update_as update_impl check_type write_entry resize_if_needed reallocate
update_grows = (refl, refl, refl)

-- The methods of both kinds, with another object that has block 2.
abbrev attempts : List (Method (List Item))
attempts =
    calls Call.clears
    ∷ calls (Call.updates 7 (Payload.int32s 500 1))
    ∷ swaps (record { buffer = 2; locked = false })
    ∷ acquires_object (record { buffer = 2; locked = false })
    ∷ reads (int (pos 35) ∷ blob 35 13 ∷ int (pos 3) ∷ [])
    ∷ calls (Call.unlocks 2)
    ∷ []

acts-get_and_lock_example :
    acts lib io attempts ((get_and_lock lib object).1, memory)
    ≡ (record { buffer = (get_and_lock lib object).0; locked = true }, memory)
unfolding get_and_lock
acts-get_and_lock_example =
    acts-get_and_lock lib io attempts object memory
      (refl, (refl, (refl, (refl, (refl, (refl, tt))))))

resize_if_needed-Resized_example :
    Resized lib allocator measured 1 4 object memory (resize_if_needed lib 1 4 object memory)
resize_if_needed-Resized_example =
    resize_if_needed-Resized lib allocator measured 1 4 object memory (inr refl) (omega arith)
      (omega arith)

abbrev parcel : List Item
parcel = int (pos 35) ∷ blob 35 13 ∷ int (pos 3) ∷ int (pos 9) ∷ []

read_from_parcel-write_to_parcel_example :
    let (r, m, q, s) =
      read_from_parcel lib io parcel
        (record { buffer = 2; locked = false })
        (write_to_parcel lib io object [] memory).2 in
    (r ≡ ok)
    × (m.buffer ≢ 0)
    × (faithful.block s m.buffer ≡ 3)
    × (m.locked ≡ false)
    × (q ≡ int (pos 9) ∷ [])
unfolding write_to_parcel write_block
read_from_parcel-write_to_parcel_example =
    read_from_parcel-write_to_parcel lib io faithful allocator copier kept object
      (record { buffer = 2; locked = false }) [] parcel memory (int (pos 9) ∷ []) (omega arith) refl
      (inr refl) refl (omega arith) (omega arith) (omega arith) (omega arith) refl refl refl refl
      (λ a n h. omega arith)

read_from_parcel-outside_example :
    let (_, m, _, s) = read_from_parcel lib io parcel object memory in
    IsOwner lib allocator m s × (outside lib allocator m s 2 ≡ true)
read_from_parcel-outside_example =
    read_from_parcel-outside lib io allocator copier parcel object memory 2 (omega arith) (inr refl)

-- A heap whose only block has one entry.
abbrev heap : Heap
heap = record {
  last = 1;
  at = λ q. some (record { entries = (5, 400) ∷ []; entry_cap = 1; octets = 0; octet_cap = 8 });
}

abbrev no_entry : Entry
no_entry = record { index = 0; count = 0; bytes = 0 }

-- The two objects of a pair, and their changes.
abbrev two_blocks : Heap
two_blocks = record heap { last = 2 }

abbrev second : CameraMetadata
second = record { buffer = 2; locked = false }

-- What the second object loses stays with the first.
abbrev exchanging : List (Bool × Move)
exchanging =
    (true, changes (sets int32 7 500 1))
    ∷ (true, swaps)
    ∷ (false, changes (unsets 5 no_entry))
    ∷ (true, assigns)
    ∷ (false, changes wipes)
    ∷ (false, acquires)
    ∷ []

turns-reads_example :
    both_read dictionary Dictionary.allocator Dictionary.measured maps local shown
      (turns dictionary Dictionary.allocator Dictionary.measured maps local exchanging
        (object, second, two_blocks))
      no_entry
      7
    ≡ (none, some 500)
unfolding change move turn turns update_as update_impl check_type write_entry resize_if_needed
    reallocate erase exists find_const assign_object assign acquire_object acquire release clear
    swap
turns-reads_example =
    turns-reads dictionary Dictionary.allocator Dictionary.measured maps local shown exchanging
      (object, second, two_blocks) no_entry 7 (inr refl, inr refl, inr (omega arith))
      (
        (refl, tt, omega arith, omega arith),
        ((refl, refl), (refl, ((refl, inr (omega arith)), (refl, ((refl, refl), tt))))),
      )

-- The copy is grown, the object is cleared.
copy_is_independent_example :
    let (c, s1) = copy dictionary object heap in
    let (c', s2) = run dictionary (Call.updates 7 (Payload.int32s 500 1) ∷ []) (c, s1) in
    let (m', s3) = run dictionary (Call.clears ∷ []) (object, s1) in
    (maps.value s1 c.buffer 5 ≡ some 400)
    × ((maps.value s2 1 5 ≡ some 400) × (outside dictionary Dictionary.allocator c' s2 1 ≡ true))
    × ((maps.value s3 c.buffer 5 ≡ some 400)
        × (outside dictionary Dictionary.allocator m' s3 c.buffer ≡ true))
unfolding copy
copy_is_independent_example =
    copy_is_independent dictionary Dictionary.allocator maps local
      (Call.updates 7 (Payload.int32s 500 1) ∷ []) (Call.clears ∷ []) object heap 5 (omega arith)
      refl (omega arith) (omega arith, inl refl, tt) (omega arith, inl refl, tt)

-- The tag 105 has integers, so that its update with bytes is refused.
abbrev typed_calls : List Call
typed_calls =
    Call.updates 5 (Payload.bytes 300 1)
    ∷ Call.updates 105 (Payload.int32s 2000 1)
    ∷ Call.updates 105 (Payload.bytes 300 1)
    ∷ []

run-Typed_example : WellTyped (run two_types typed_calls (object, heap)).1
run-Typed_example =
    run-Typed two_types types typed_calls object heap (λ p t v h. ground arith)
      (refl, (refl, (refl, tt)))

-- The block is full, so that the update has to grow it.
update_as-Updated_example :
    Updated dictionary Dictionary.allocator Dictionary.measured maps spacious int32 7 500 1 object
      heap 7
      (update_as dictionary int32 7 500 1 object heap)
update_as-Updated_example =
    update_as-Updated dictionary Dictionary.allocator Dictionary.measured maps spacious int32 7 500
      1 object heap 7 (inr refl) (λ h. tt) (omega arith) (omega arith)
