-- ===== src/Camera/Library.antt =====
-- libcamera_metadata, which CameraMetadata.cpp calls: a parameter of the model. A block is named
-- by its address, 0 is NULL, and `Store` is the memory that holds the blocks.
use android_device_xiaomi_la.Common.{
  ℕ, ◌+◌, ◌≤◌, ◌≡◌, ◌≢◌, ok, Bool, false, not, ◌&&◌, ◌||◌, Option, ◌==◌, Status,
}

-- TYPE_BYTE to TYPE_RATIONAL
pub data TagType : Type 0 where
  byte int32 float int64 double rational : TagType

-- camera_metadata_entry_t, as far as the class reads or writes it.
pub record Entry : Type 0 where
  pub index : ℕ
  pub count : ℕ
  pub bytes : ℕ

pub record MetadataLib : Type 1 where
  pub Store : Type 0
  pub allocate : ℕ → ℕ → Store → ℕ × Store
  pub clone : ℕ → Store → ℕ × Store
  pub free : ℕ → Store → Store
  pub entry_count : Store → ℕ → ℕ
  pub entry_capacity : Store → ℕ → ℕ
  pub data_count : Store → ℕ → ℕ
  pub data_capacity : Store → ℕ → ℕ
  -- get_camera_metadata_size
  pub size : Store → ℕ → ℕ
  -- append_camera_metadata(dst, src)
  pub append : ℕ → ℕ → Store → Status × Store
  pub sort : ℕ → Store → Status × Store
  -- `none` stands for -1
  pub tag_type : ℕ → Option TagType
  -- calculate_camera_metadata_entry_data_size(type, data_count)
  pub entry_data_size : TagType → ℕ → ℕ
  -- find_camera_metadata_entry(src, tag, &entry): what `entry` held before goes in
  pub find_entry : Store → ℕ → ℕ → Entry → Status × Entry
  -- add_camera_metadata_entry(dst, tag, data, data_count)
  pub add_entry : ℕ → ℕ → ℕ → ℕ → Store → Status × Store
  -- update_camera_metadata_entry(dst, index, data, data_count, NULL)
  pub update_entry : ℕ → ℕ → ℕ → ℕ → Store → Status × Store
  pub delete_entry : ℕ → ℕ → Store → Status × Store

-- Which blocks are allocated, and how each call changes that. `allocate` and `clone` return NULL
-- and leave the memory's blocks as they are when they fail.
pub record IsAllocator (lib : MetadataLib) : Type 0 where
  pub live : lib.Store → ℕ → Bool
  pub live_null : (s : lib.Store) → live s 0 ≡ false
  pub allocate_fresh : (e d : ℕ) (s : lib.Store) → live s (lib.allocate e d s).0 ≡ false
  pub live-allocate :
      (e d : ℕ) (s : lib.Store) (q : ℕ)
      → live (lib.allocate e d s).1 q ≡ (live s q || (q == (lib.allocate e d s).0 && not (q == 0)))
  pub clone_fresh : (p : ℕ) (s : lib.Store) → live s (lib.clone p s).0 ≡ false
  pub live-clone :
      (p : ℕ) (s : lib.Store) (q : ℕ)
      → live (lib.clone p s).1 q ≡ (live s q || (q == (lib.clone p s).0 && not (q == 0)))
  pub live-free :
      (p : ℕ) (s : lib.Store) (q : ℕ) → live (lib.free p s) q ≡ (live s q && not (q == p))
  pub live-append : (p r : ℕ) (s : lib.Store) (q : ℕ) → live (lib.append p r s).1 q ≡ live s q
  pub live-sort : (p : ℕ) (s : lib.Store) (q : ℕ) → live (lib.sort p s).1 q ≡ live s q
  pub live-add_entry :
      (p t a n : ℕ) (s : lib.Store) (q : ℕ) → live (lib.add_entry p t a n s).1 q ≡ live s q
  pub live-update_entry :
      (p i a n : ℕ) (s : lib.Store) (q : ℕ) → live (lib.update_entry p i a n s).1 q ≡ live s q
  pub live-delete_entry :
      (p i : ℕ) (s : lib.Store) (q : ℕ) → live (lib.delete_entry p i s).1 q ≡ live s q

-- What a block holds and has space for.
pub record Room : Type 0 where
  pub entries : ℕ
  pub entry_cap : ℕ
  pub octets : ℕ
  pub octet_cap : ℕ

abbrev pub room : (lib : MetadataLib) → lib.Store → ℕ → Room
room lib s p = record {
  entries = lib.entry_count s p;
  entry_cap = lib.entry_capacity s p;
  octets = lib.data_count s p;
  octet_cap = lib.data_capacity s p;
}

-- `b` has space for what `c` holds.
abbrev pub Fits : Room → Room → Type 0
Fits b c = (b.entries + c.entries ≤ b.entry_cap) × (b.octets + c.octets ≤ b.octet_cap)

-- A new block is empty and as large as asked for, `append` adds up what fits, and the calls leave
-- the other blocks as they are.
pub record IsMeasured (lib : MetadataLib) : Type 0 where
  pub room-allocate :
      (e d : ℕ) (s : lib.Store)
      → (lib.allocate e d s).0 ≢ 0
      → room lib (lib.allocate e d s).1 (lib.allocate e d s).0
        ≡ record { entries = 0; entry_cap = e; octets = 0; octet_cap = d }
  pub room-allocate_ne :
      (e d : ℕ) (s : lib.Store) (q : ℕ)
      → q ≢ (lib.allocate e d s).0
      → room lib (lib.allocate e d s).1 q ≡ room lib s q
  pub append_fits :
      (p r : ℕ) (s : lib.Store)
      → p ≢ r
      → Fits (room lib s p) (room lib s r)
      → ((lib.append p r s).0 ≡ ok)
        × (room lib (lib.append p r s).1 p ≡ record (room lib s p) {
          entries = lib.entry_count s p + lib.entry_count s r;
          octets = lib.data_count s p + lib.data_count s r;
        })
  pub room-free : (p : ℕ) (s : lib.Store) (q : ℕ) → q ≢ p → room lib (lib.free p s) q ≡ room lib s q
