-- ===== src/Camera/Model.antt =====
-- A small metadata library and parcel, to show that what is assumed of the real ones can hold. The
-- memory hands out addresses in order; a block is what it holds, and its metadata is the number of
-- its entries. A parcel is its items; blobs start at address 13.
use android_device_xiaomi_la.Common.{
  ℕ, suc, ◌+◌, ◌*◌, refl, Bool, true, false, not, ◌&&◌, List, [], ◌∷◌, ◌++◌, Option, none, some,
  arith, leb, ltb, ◌==◌, if◌then◌else◌, ℤ, pos, Status, ok, no_memory, bad_value, name_not_found,
  failed,
}
use android_device_xiaomi_la.Camera.Library.{
  MetadataLib, IsAllocator, IsMeasured, Room, byte, int32,
}
use android_device_xiaomi_la.Camera.Parcel.{ParcelLib, IsFaithful, IsCopier, Item, int, blob}
use android_device_xiaomi_la.Camera.Exchange.{IsKept}

pub record Memory : Type 0 where
  pub last : ℕ
  pub at : ℕ → Option Room
  pub written : ℕ → ℕ

abbrev pub nothing : Room
nothing = record { entries = 0; entry_cap = 0; octets = 0; octet_cap = 0 }

abbrev pub live : Memory → ℕ → Bool
live s q = leb q s.last && (not (q == 0) && elim (s.at q) [ none ↦ false | some _ ↦ true ])

abbrev pub room_at : Memory → ℕ → Room
room_at s p = if live s p then (elim (s.at p) [ none ↦ nothing | some b ↦ b ]) else nothing

abbrev pub put : Memory → ℕ → Room → Memory
put s p b = record s { at = λ q. if q == p then some b else s.at q }

abbrev pub create : Room → Memory → ℕ × Memory
create b s = (
  suc s.last,
  record s { last = suc s.last; at = λ q. if q == suc s.last then some b else s.at q },
)

abbrev pub fits : Room → Room → Bool
fits b c = leb (b.entries + c.entries) b.entry_cap && leb (b.octets + c.octets) b.octet_cap

abbrev pub lib : MetadataLib
lib = record {
  Store = Memory;
  allocate = λ e d s. create (record { entries = 0; entry_cap = e; octets = 0; octet_cap = d }) s;
  clone = λ p s. if p == 0 then (0, s) else create (room_at s p) s;
  free = λ p s. record s { at = λ q. if q == p then none else s.at q };
  entry_count = λ s p. (room_at s p).entries;
  entry_capacity = λ s p. (room_at s p).entry_cap;
  data_count = λ s p. (room_at s p).octets;
  data_capacity = λ s p. (room_at s p).octet_cap;
  size = λ s p. (room_at s p).octets;
  append = λ p r s.
      if fits (room_at s p) (room_at s r)
      then (
        ok,
        if live s p
            then put s p (record (room_at s p) {
              entries = (room_at s p).entries + (room_at s r).entries;
              octets = (room_at s p).octets + (room_at s r).octets;
            })
            else s,
      )
      else (no_memory, s);
  sort = λ p s. (ok, s);
  tag_type = λ t. if t == 7 then some int32 else if t == 8 then some byte else none;
  entry_data_size = λ t n. 4 * n;
  find_entry = λ s p t e.
      if ltb 0 (room_at s p).entries
      then (ok, record { index = 0; count = 1; bytes = p })
      else (name_not_found, e);
  add_entry = λ p t a n s.
      if live s p
      then (ok, put s p (record (room_at s p) { entries = (room_at s p).entries + 1 }))
      else (bad_value, s);
  update_entry = λ p i a n s. (ok, s);
  delete_entry = λ p i s. (ok, s);
}

abbrev pub allocator : IsAllocator lib
allocator = record {
  live = live;
  live_null = λ s. ground arith;
  allocate_fresh = λ e d s. ground arith;
  live-allocate = λ e d s q. ground arith;
  clone_fresh = λ p s. ground arith;
  live-clone = λ p s q. ground arith;
  live-free = λ p s q. ground arith;
  live-append = λ p r s q. ground arith;
  live-sort = λ p s q. refl;
  live-add_entry = λ p t a n s q. ground arith;
  live-update_entry = λ p i a n s q. refl;
  live-delete_entry = λ p i s q. refl;
}

abbrev pub measured : IsMeasured lib
measured = record {
  room-allocate = λ e d s h. ground arith;
  room-allocate_ne = λ e d s q h. ground arith;
  append_fits = λ p r s h f. ground arith;
  room-free = λ p s q h. ground arith;
}

abbrev pub next_int32 : List Item → Status × ℤ × List Item
next_int32 (int v ∷ r) = (ok, v, r)
next_int32 p = (failed 61, pos 0, p)

abbrev pub next_blob : ℕ → List Item → Status × ℕ × List Item
next_blob n (blob k a ∷ r) = if n == k then (ok, a, r) else (bad_value, 0, r)
next_blob n p = (failed 61, 0, p)

abbrev pub image : Memory → ℕ → ℕ → ℕ
image s a n = s.written a

abbrev pub io : ParcelLib lib
io = record {
  Parcel = List Item;
  write_int32 = λ v p. (ok, p ++ (int v ∷ []));
  read_int32 = next_int32;
  write_blob = λ n p. if ltb n 1000 then (ok, 13, p ++ (blob n 13 ∷ [])) else (no_memory, 0, p);
  read_blob = next_blob;
  alignment = 8;
  compact_size = λ s p. 24 + (room_at s p).entries;
  copy_block = λ dst n p s. record s {
    written = λ a. if a == dst then (room_at s p).entries else s.written a;
  };
  allocate_copy = λ a n s.
      create (record { entries = s.written a; entry_cap = s.written a; octets = 0; octet_cap = 0 })
        s;
}

abbrev pub faithful : IsFaithful lib io
faithful = record {
  items = λ p. p;
  Image = ℕ;
  block = λ s p. (room_at s p).entries;
  image = image;
  items-write_int32 = λ v p h. refl;
  items-write_blob = λ n p h. ground arith;
  read_int32_item = λ v p rest h. ground arith;
  read_blob_item = λ n a p rest h. ground arith;
  read_blob_image = λ n a p rest s o k h fit. ground arith;
  image-copy_block = λ dst p s h. ground arith;
  block-allocate_copy = λ a n s h. ground arith;
}

abbrev pub copier : IsCopier lib io allocator
copier = record {
  allocate_copy_fresh = λ a n s. ground arith;
  live-allocate_copy = λ a n s q. ground arith;
}

abbrev pub kept : IsKept lib io faithful
kept = record { block-free = λ p s q h. ground arith }
