-- ===== src/Graphic/Flatten.antt =====
-- shim/ui/GraphicBuffer.cpp: the Flattenable protocol. The buffer is a list of 32-bit words and the
-- descriptors a list; sizes are in bytes, as in the source.
use android_device_xiaomi_la.Common.{
  ℕ, ◌+◌, ◌*◌, ◌-◌, ◌/◌, ◌%◌, ◌||◌, ◌&&◌, not, List, [], ◌∷◌, ◌++◌, Option, none, some, length,
  get_or, take, drop, ltb, leb, ◌==◌, if◌then◌else◌, word, Status, ok, no_memory, bad_value,
  bad_type, is_ok,
}
use android_device_xiaomi_la.Graphic.Gralloc.{Gralloc}
use android_device_xiaomi_la.Graphic.Allocator.{System}
use android_device_xiaomi_la.Graphic.Mapper.{register_buffer}
use android_device_xiaomi_la.Graphic.Buffer.{GraphicBuffer, own_handle, free_handle}

-- 'GBFR'
abbrev pub magic : ℕ
magic = 0x47424652

abbrev pub max_number : ℕ
max_number = 4096

-- What a call leaves of its cursor: how many ints the pointer `buffer` moves, how many descriptors
-- the pointer `fds` moves, and the new `size` and `count`.
pub record Cursor : Type 0 where
  pub advance : ℕ
  pub fd_advance : ℕ
  pub size : ℕ
  pub count : ℕ

abbrev pub still : ℕ → ℕ → Cursor
still size count = record { advance = 0; fd_advance = 0; size = size; count = count }

-- The fields after a failure: `width = height = stride = format = usage = 0; handle = NULL`.
abbrev pub zeroed : GraphicBuffer → GraphicBuffer
zeroed b = record b { width = 0; height = 0; stride = 0; format = 0; usage = 0; handle = 0 }

-- What is read of an array, as the first elements of it that the code below reads; `none` if the array
-- has fewer.
abbrev pub reading : {A : Type 0} → ℕ → List ℕ → Option A → Option A
reading n words rest = if ltb (length words) n then none else rest

module _ (gralloc : Gralloc) where
  open gralloc use {World, create, fill}

  -- The contents of the handle, none for NULL.
  abbrev pub handle_fds : GraphicBuffer → World → List ℕ
  handle_fds b w = if b.handle == 0 then [] else gralloc.fds w b.handle

  abbrev pub handle_ints : GraphicBuffer → World → List ℕ
  handle_ints b w = if b.handle == 0 then [] else gralloc.ints w b.handle

  unfoldable pub get_flattened_size : GraphicBuffer → World → ℕ
  get_flattened_size b w = (10 + length (handle_ints b w)) * 4

  unfoldable pub get_fd_count : GraphicBuffer → World → ℕ
  get_fd_count b w = length (handle_fds b w)

  abbrev pub header : GraphicBuffer → ℕ → ℕ → List ℕ
  header b num_fds num_ints =
      magic
      ∷ b.width
      ∷ b.height
      ∷ b.stride
      ∷ b.format
      ∷ b.usage
      ∷ b.id / word
      ∷ b.id % word
      ∷ num_fds
      ∷ num_ints
      ∷ []

  -- flatten: the status, the words and the descriptors that are written, and the cursor. The pointer
  -- is advanced by sizeNeeded ints, while sizeNeeded counts bytes.
  unfoldable pub flatten : GraphicBuffer → World → ℕ → ℕ → Status × List ℕ × List ℕ × Cursor
  unfolding get_flattened_size get_fd_count
  flatten b w size count =
      let needed = get_flattened_size b w in
      if ltb size needed
      then (no_memory, [], [], still size count)
      else if ltb count (get_fd_count b w)
      then (no_memory, [], [], still size count)
      else (
        ok,
        header b (length (handle_fds b w)) (length (handle_ints b w)) ++ handle_ints b w,
        handle_fds b w,
        record {
          advance = needed;
          fd_advance = length (handle_fds b w);
          size = size - needed;
          count = count - length (handle_fds b w);
        },
      )

  -- The lines of unflatten from the test `numFds || numInts` on: the new buffer and system. The
  -- words and the descriptors are those at the two pointers; `none` means that a memcpy reads beyond
  -- them.
  unfoldable pub rebuild :
      List ℕ
      → List ℕ
      → GraphicBuffer
      → System gralloc
      → Option (Status × GraphicBuffer × System gralloc)
  rebuild buf fds b sys =
      let num_fds = get_or buf 8 0 in
      let num_ints = get_or buf 9 0 in
      let id = get_or buf 6 0 * word + get_or buf 7 0 in
      let (h, w1) = create num_fds num_ints sys.world in
      let w2 = fill h (take num_fds fds) (take num_ints (drop 10 buf)) w1 in
      let (err, w3) = register_buffer gralloc h w2 in
      let b1 = record b { id = id; owner = own_handle } in
      if num_fds == 0 && num_ints == 0
      then some (ok, zeroed b1, sys)
      else if h == 0
      then some (no_memory, zeroed b, record sys { world = w1 })
      else reading num_fds fds (
          reading (10 + num_ints) buf (
            some (
              err,
              (if is_ok err
                  then record b1 {
                    width = get_or buf 1 0;
                    height = get_or buf 2 0;
                    stride = get_or buf 3 0;
                    format = get_or buf 4 0;
                    usage = get_or buf 5 0;
                    handle = h;
                  }
                  else zeroed b1),
              record sys { world = w3 },
            )))

  -- Freeing the previous handle, if any.
  abbrev pub drop_handle : GraphicBuffer → System gralloc → GraphicBuffer × System gralloc
  drop_handle b sys = if b.handle == 0 then (b, sys) else free_handle gralloc b sys

  -- What unflatten returns, and how it moves its pointers.
  abbrev pub returned :
      ℕ
      → ℕ
      → ℕ
      → ℕ
      → Option (Status × GraphicBuffer × System gralloc)
      → Option (Status × Cursor × GraphicBuffer × System gralloc)
  returned needed num_fds size count none = none
  returned needed num_fds size count (some (err, b, sys)) = some (
    err,
    (if is_ok err
        then record {
          advance = needed;
          fd_advance = num_fds;
          size = size - needed;
          count = count - num_fds;
        }
        else still size count),
    b,
    sys,
  )

  -- unflatten. The words at `buffer` are `buf` and the descriptors at `fds` are `fds`, whatever the
  -- caller says of their `size` in bytes and their `count`; `none` means that one outside of them is
  -- read.
  unfoldable pub unflatten :
      List ℕ
      → ℕ
      → List ℕ
      → ℕ
      → GraphicBuffer
      → System gralloc
      → Option (Status × Cursor × GraphicBuffer × System gralloc)
  unfolding rebuild
  unflatten buf size fds count b sys =
      let num_fds = get_or buf 8 0 in
      let num_ints = get_or buf 9 0 in
      let needed = (10 + num_ints) * 4 in
      let (b0, sys0) = drop_handle b sys in
      if ltb size 32
      then some (no_memory, still size count, b, sys)
      else reading 1 buf (
          if not (get_or buf 0 0 == magic)
          then some (bad_type, still size count, b, sys)
          else reading 10 buf (
              if leb max_number num_fds || leb (max_number - 10) num_ints
              then some (bad_value, still size count, zeroed b, sys)
              else if ltb size needed
              then some (no_memory, still size count, b, sys)
              else if ltb count num_fds
              then some (no_memory, still size count, b, sys)
              else returned needed num_fds size count (rebuild buf fds b0 sys0)))
