-- ===== src/Graphic/RoundTrip.antt =====
-- Flattening a GraphicBuffer and rebuilding it in another.
use android_device_xiaomi_la.Common.{
  ℕ, ◌+◌, ◌*◌, ◌/◌, ◌%◌, ◌-◌, ◌≤◌, ◌<◌, ◌≡◌, ◌≢◌, refl, List, ◌∷◌, ◌++◌, Option, none, some, arith,
  length, length-append, take-append, word, Status, ok, ◌∙◌,
}
use android_device_xiaomi_la.Graphic.Gralloc.{Gralloc}
use android_device_xiaomi_la.Graphic.Allocator.{System}
use android_device_xiaomi_la.Graphic.Buffer.{GraphicBuffer, own_handle}
use android_device_xiaomi_la.Graphic.Flatten.{
  Cursor, magic, header, handle_fds, handle_ints, get_flattened_size, get_fd_count, flatten,
  rebuild, unflatten, drop_handle,
}

-- A new handle that was filled with as many descriptors and ints as it was created for holds them,
-- and registering it with gralloc leaves them.
pub record IsHandle (gralloc : Gralloc) : Type 0 where
  pub fds-fill :
      (n k : ℕ) (f i : List ℕ) (w : gralloc.World)
      → length f ≡ n
      → length i ≡ k
      → let (h, w1) = gralloc.create n k w in gralloc.fds (gralloc.fill h f i w1) h ≡ f
  pub ints-fill :
      (n k : ℕ) (f i : List ℕ) (w : gralloc.World)
      → length f ≡ n
      → length i ≡ k
      → let (h, w1) = gralloc.create n k w in gralloc.ints (gralloc.fill h f i w1) h ≡ i
  pub fds-register :
      (h : ℕ) (w : gralloc.World) → gralloc.fds (gralloc.register h w).1 h ≡ gralloc.fds w h
  pub ints-register :
      (h : ℕ) (w : gralloc.World) → gralloc.ints (gralloc.register h w).1 h ≡ gralloc.ints w h

module _ (gralloc : Gralloc) (handles : IsHandle gralloc) where
  open gralloc use {World}
  open handles use {fds-fill, ints-fill, fds-register, ints-register}

  -- The handle that the receiver makes, and the world in which gralloc registers it.
  abbrev pub new_handle : List ℕ → List ℕ → GraphicBuffer → System gralloc → ℕ × World
  new_handle f i c sys =
      let (h, w1) = gralloc.create (length f) (length i) (drop_handle gralloc c sys).1.world in
      (h, gralloc.fill h f i w1)

  -- The receiver has the geometry, the identity and the handle's contents of the sender `b`, owns
  -- its handle, and has used up the bytes and the descriptors that the sender produced.
  abbrev pub Rebuilt :
      GraphicBuffer
      → World
      → ℕ
      → ℕ
      → Option (Status × Cursor × GraphicBuffer × System gralloc)
      → Type 0
  Rebuilt b w size count none = ⊥
  Rebuilt b w size count (some (err, cur, c, sys)) =
      (err ≡ ok)
      × ((c.width ≡ b.width)
          × (c.height ≡ b.height)
          × (c.stride ≡ b.stride)
          × (c.format ≡ b.format)
          × (c.usage ≡ b.usage)
          × (c.id ≡ b.id))
      × ((c.owner ≡ own_handle)
          × (c.handle ≢ 0)
          × (gralloc.fds sys.world c.handle ≡ handle_fds gralloc b w)
          × (gralloc.ints sys.world c.handle ≡ handle_ints gralloc b w))
      × ((cur.size + get_flattened_size gralloc b w ≡ size)
          × (cur.count + get_fd_count gralloc b w ≡ count))

  rebuild_parts :
      (f i rest more : List ℕ) (x1 x2 x3 x4 x5 hi lo : ℕ) (c : GraphicBuffer) (sys : System gralloc)
      → length f + length i ≢ 0
      → (gralloc.create (length f) (length i) sys.world).0 ≢ 0
      → (let (h, w1) = gralloc.create (length f) (length i) sys.world in
          gralloc.register h (gralloc.fill h f i w1)).0
        ≡ ok
      → let buf = magic ∷ x1 ∷ x2 ∷ x3 ∷ x4 ∷ x5 ∷ hi ∷ lo ∷ length f ∷ length i ∷ (i ++ rest) in
        let (h, w1) = gralloc.create (length f) (length i) sys.world in
        rebuild gralloc buf (f ++ more) c sys
        ≡ some (
          ok,
          record c {
            width = x1;
            height = x2;
            stride = x3;
            format = x4;
            usage = x5;
            handle = h;
            owner = own_handle;
            id = hi * word + lo;
          },
          record sys { world = (gralloc.register h (gralloc.fill h f i w1)).1 },
        )
  unfolding rebuild
  rebuild_parts f i rest more x1 x2 x3 x4 x5 hi lo c sys nz made reg =
      rw (take-append f more, take-append i rest)
        (ground (arith, length-append f more, length-append i rest))

  -- The words of a flattened buffer, with what follows.
  abbrev words_of : GraphicBuffer → List ℕ → List ℕ → List ℕ → List ℕ
  words_of b f i rest = header gralloc b (length f) (length i) ++ (i ++ rest)

  unflatten_parts :
      (b c : GraphicBuffer) (f i rest fds : List ℕ) (n k : ℕ) (sys : System gralloc)
      → length f < 4096
      → length i < 4086
      → (10 + length i) * 4 ≤ n
      → length f ≤ k
      → (c' : GraphicBuffer) (sys' : System gralloc)
      → let (c0, sys0) = drop_handle gralloc c sys in
        rebuild gralloc (words_of b f i rest) fds c0 sys0 ≡ some (ok, c', sys')
        → unflatten gralloc (words_of b f i rest) n fds k c sys
          ≡ some (
            ok,
            record {
              advance = (10 + length i) * 4;
              fd_advance = length f;
              size = n - (10 + length i) * 4;
              count = k - length f;
            },
            c',
            sys',
          )
  unfolding unflatten
  unflatten_parts b c f i rest fds n k sys few_f few_i hn hk c' sys' done = rw done (ground arith)

  flatten_parts :
      (b : GraphicBuffer) (w : World) (size count : ℕ)
      → get_flattened_size gralloc b w ≤ size
      → get_fd_count gralloc b w ≤ count
      → ((flatten gralloc b w size count).1
          ≡ header gralloc b (length (handle_fds gralloc b w)) (length (handle_ints gralloc b w))
            ++ handle_ints gralloc b w)
        × ((flatten gralloc b w size count).2 ≡ handle_fds gralloc b w)
  unfolding flatten
  flatten_parts b w size count hs hc = ground arith

  -- What `flatten` writes, `unflatten` rebuilds in any other buffer, whatever follows the words and
  -- the descriptors. Conditions: the handle has a descriptor or an int, fewer than 4096 of the former
  -- and 4086 of the latter; the receiver gets at least the bytes and descriptors written; its handle
  -- can be created and registered.
  pub unflatten-flatten :
      (b c : GraphicBuffer) (w : World) (sys : System gralloc) (size count n k : ℕ)
      (rest more : List ℕ)
      → b.id < word * word
      → get_flattened_size gralloc b w ≤ size
      → get_fd_count gralloc b w ≤ count
      → length (handle_fds gralloc b w) + length (handle_ints gralloc b w) ≢ 0
      → length (handle_fds gralloc b w) < 4096
      → length (handle_ints gralloc b w) < 4086
      → get_flattened_size gralloc b w ≤ n
      → get_fd_count gralloc b w ≤ k
      → (new_handle (handle_fds gralloc b w) (handle_ints gralloc b w) c sys).0 ≢ 0
      → (let (h, w1) = new_handle (handle_fds gralloc b w) (handle_ints gralloc b w) c sys in
          gralloc.register h w1).0
        ≡ ok
      → let (_, words, fds, _) = flatten gralloc b w size count in
        Rebuilt b w n k (unflatten gralloc (words ++ rest) n (fds ++ more) k c sys)
  unfolding unflatten flatten
  unflatten-flatten b c w sys size count n k rest more hid hs hc some_data few_fds few_ints hn hk
        made reg =
      let f = handle_fds gralloc b w in
      let i = handle_ints gralloc b w in
      let sent = flatten_parts b w size count hs hc in
      let c0 = (drop_handle gralloc c sys).0 in
      let sys0 = (drop_handle gralloc c sys).1 in
      let w0 = (gralloc.create (length f) (length i) sys0.world).1 in
      let h = (gralloc.create (length f) (length i) sys0.world).0 in
      let parts =
        rebuild_parts f i rest more b.width b.height b.stride b.format b.usage (b.id / word)
          (b.id % word) c0 sys0 some_data made reg in
      let got = unflatten_parts b c f i rest (f ++ more) n k sys few_fds few_ints hn hk _ _ parts in
      let kept_f =
        fds-register h (gralloc.fill h f i w0)
        ∙ fds-fill (length f) (length i) f i sys0.world refl refl in
      let kept_i =
        ints-register h (gralloc.fill h f i w0)
        ∙ ints-fill (length f) (length i) f i sys0.world refl refl in
      rw (sent.0, sent.1, got)
        (
          refl,
          (refl, refl, refl, refl, refl, omega arith),
          (refl, made, kept_f, kept_i),
          (omega arith, omega arith),
        )
