-- ===== src/Graphic/Native.antt =====
-- The native handles that unflatten makes and gives back.
use android_device_xiaomi_la.Common.{
  ℕ, ◌+◌, ◌*◌, ◌≤◌, refl, ltb, length, word, Option, none, some, Status, if_cases, ◌≡◌, ◌≢◌, ◌⊎◌,
  inl, inr, Bool, true, false, not, ◌&&◌, ◌||◌, List, arith, get_or, take, drop, ◌==◌, Bool-cases,
  ok, is_ok,
}
use android_device_xiaomi_la.Graphic.Gralloc.{Gralloc}
use android_device_xiaomi_la.Graphic.Allocator.{System}
use android_device_xiaomi_la.Graphic.Buffer.{GraphicBuffer, own_handle, free_handle, destroy}
use android_device_xiaomi_la.Graphic.Flatten.{drop_handle, rebuild, zeroed}

-- Which native handles there are: native_handle_create adds a new one or returns NULL,
-- native_handle_delete removes one, and the other calls leave them.
pub record IsNative (gralloc : Gralloc) : Type 0 where
  pub native : gralloc.World → ℕ → Bool
  pub create_fresh : (n k : ℕ) (w : gralloc.World) → native w (gralloc.create n k w).0 ≡ false
  pub native-create :
      (n k : ℕ) (w : gralloc.World) (q : ℕ)
      → native (gralloc.create n k w).1 q
        ≡ (native w q || (not (q == 0) && q == (gralloc.create n k w).0))
  pub native-delete :
      (p : ℕ) (w : gralloc.World) (q : ℕ)
      → native (gralloc.delete p w) q ≡ (native w q && not (q == p))
  pub native-close : (p : ℕ) (w : gralloc.World) (q : ℕ) → native (gralloc.close p w) q ≡ native w q
  pub native-fill :
      (p : ℕ) (f i : List ℕ) (w : gralloc.World) (q : ℕ)
      → native (gralloc.fill p f i w) q ≡ native w q
  pub native-register :
      (p : ℕ) (w : gralloc.World) (q : ℕ) → native (gralloc.register p w).1 q ≡ native w q
  pub native-unregister :
      (p : ℕ) (w : gralloc.World) (q : ℕ) → native (gralloc.unregister p w).1 q ≡ native w q

module _ (gralloc : Gralloc) (nat : IsNative gralloc) where
  open nat use {
    native, create_fresh, native-create, native-delete, native-close, native-fill, native-register,
    native-unregister,
  }

  -- The buffer has no handle, or has made its handle itself; that is the only one besides those of
  -- others, `f`.
  pub record IsOnly (f : ℕ → Bool) (b : GraphicBuffer) (sys : System gralloc) : Type 0 where
    pub owned : (b.handle ≡ 0) ⊎ (b.owner ≡ own_handle)
    pub apart : (not (b.handle == 0) && f b.handle) ≡ false
    pub held : (q : ℕ) → native sys.world q ≡ (f q || (not (b.handle == 0) && q == b.handle))

  native-free_handle :
      (b : GraphicBuffer) (sys : System gralloc) (q : ℕ)
      → b.owner ≡ own_handle
      → native (free_handle gralloc b sys).1.world q ≡ (native sys.world q && not (q == b.handle))
  unfolding free_handle
  native-free_handle b sys q e =
      let w1 = (gralloc.unregister b.handle sys.world).1 in
      let w2 = gralloc.close b.handle w1 in
      rw (e, free_handle)
        (ground (
          arith,
          native-unregister b.handle sys.world q,
          native-close b.handle w1 q,
          native-delete b.handle w2 q,
        ))

  -- After the previous handle was freed, only those of others are left.
  pub native-drop_handle :
      (f : ℕ → Bool) (b : GraphicBuffer) (sys : System gralloc) (q : ℕ)
      → IsOnly f b sys
      → native (drop_handle gralloc b sys).1.world q ≡ f q
  native-drop_handle f b sys q only = elim (Bool-cases (b.handle == 0)) [
    | inl z ↦ rw z (ground (arith, only.held q))
    | inr nz ↦
        let own : b.owner ≡ own_handle = ground (arith, only.owned) in
        rw nz (ground (arith, native-free_handle b sys q own, only.held q, only.apart))
  ]

  -- What rebuild leaves, if it reads nothing but what it was given.
  abbrev pub Rebuilds : (ℕ → Bool) → Option (Status × GraphicBuffer × System gralloc) → Type 0
  Rebuilds f none = ⊥
  Rebuilds f (some (err, b, sys)) = IsOnly f b sys

  pub rebuild-IsOnly :
      (buf fds : List ℕ) (f : ℕ → Bool) (b : GraphicBuffer) (sys : System gralloc)
      → ((h : ℕ) (w : gralloc.World) → (gralloc.register h w).0 ≡ ok)
      → ((q : ℕ) → native sys.world q ≡ f q)
      → get_or buf 8 0 ≤ length fds
      → 10 + get_or buf 9 0 ≤ length buf
      → Rebuilds f (rebuild gralloc buf fds b sys)
  unfolding rebuild
  rebuild-IsOnly buf fds f b sys reg others enough whole =
      let n = get_or buf 8 0 in
      let k = get_or buf 9 0 in
      let h = (gralloc.create n k sys.world).0 in
      let w1 = (gralloc.create n k sys.world).1 in
      let w2 = gralloc.fill h (take n fds) (take k (drop 10 buf)) w1 in
      let r = reg h w2 in
      let enough' : ltb (length fds) n ≡ false = ground arith in
      let whole' : ltb (length buf) (10 + k) ≡ false = ground arith in
      if_cases (Rebuilds f) (n == 0 && k == 0)
        (λ empty. record {
          owned = ground arith;
          apart = ground arith;
          held = λ q. ground (arith, others q);
        })
        (λ some_.
          if_cases (Rebuilds f) (h == 0)
            (λ failed. record {
              owned = ground arith;
              apart = ground arith;
              held = λ q. ground (arith, others q, native-create n k sys.world q);
            })
            (λ made.
              rw (enough', whole')
                (record {
                  owned = ground (arith, r);
                  apart = ground (arith, r, others h, create_fresh n k sys.world);
                  held = λ q. ground (
                    arith,
                    r,
                    others q,
                    native-create n k sys.world q,
                    native-fill h (take n fds) (take k (drop 10 buf)) w1 q,
                    native-register h w2 q,
                  );
                })))

  -- What is left when the buffer is destroyed.
  pub native-destroy :
      (f : ℕ → Bool) (b : GraphicBuffer) (sys : System gralloc) (q : ℕ)
      → IsOnly f b sys
      → native (destroy gralloc b sys).world q ≡ f q
  unfolding destroy
  native-destroy f b sys q only =
      let same : destroy gralloc b sys ≡ (drop_handle gralloc b sys).1 = ground arith in
      rw same (native-drop_handle f b sys q only)

  -- A handle that gralloc does not register is lost: the buffer has no handle afterwards, and the one
  -- that was made for it is still there.
  rebuild_leaks :
      (buf fds : List ℕ) (b : GraphicBuffer) (sys : System gralloc)
      → let n = get_or buf 8 0 in
        let k = get_or buf 9 0 in
        let (h, w1) = gralloc.create n k sys.world in
        n + k ≢ 0
        → h ≢ 0
        → n ≤ length fds
        → 10 + k ≤ length buf
        → is_ok (gralloc.register h (gralloc.fill h (take n fds) (take k (drop 10 buf)) w1)).0
          ≡ false
        → (err : Status) × (b' : GraphicBuffer) × (sys' : System gralloc) × (rebuild gralloc buf fds
              b sys
            ≡ some (err, b', sys'))
          × (b'.handle ≡ 0)
          × (native sys'.world h ≡ true)
  unfolding rebuild
  rebuild_leaks buf fds b sys some_ made enough whole refused =
      let n = get_or buf 8 0 in
      let k = get_or buf 9 0 in
      let h = (gralloc.create n k sys.world).0 in
      let w1 = (gralloc.create n k sys.world).1 in
      let w2 = gralloc.fill h (take n fds) (take k (drop 10 buf)) w1 in
      (
        (gralloc.register h w2).0,
        zeroed (record b { id = get_or buf 6 0 * word + get_or buf 7 0; owner = own_handle }),
        record sys { world = (gralloc.register h w2).1 },
        ground arith,
        refl,
        ground (
          arith,
          native-create n k sys.world h,
          native-fill h (take n fds) (take k (drop 10 buf)) w1 h,
          native-register h w2 h,
        ),
      )
