-- ===== src/Graphic/Receives.antt =====
-- A GraphicBuffer that receives others, one after the other.
use android_device_xiaomi_la.Common.{
  ℕ, ◌+◌, ◌-◌, ◌*◌, ◌<◌, ◌≤◌, ◌≡◌, subst, inl, inr, refl, Bool, false, ◌||◌, List, [], ◌∷◌, Option,
  none, some, arith, length, get_or, leb, ltb, not, if_cases, ◌==◌, Option-cases, Status, ok,
}
use android_device_xiaomi_la.Graphic.Gralloc.{Gralloc}
use android_device_xiaomi_la.Graphic.Allocator.{System}
use android_device_xiaomi_la.Graphic.Buffer.{GraphicBuffer, blank, destroy}
use android_device_xiaomi_la.Graphic.Flatten.{
  Cursor, magic, max_number, drop_handle, returned, rebuild, unflatten,
}
use android_device_xiaomi_la.Graphic.Native.{
  IsNative, IsOnly, Rebuilds, native-drop_handle, rebuild-IsOnly, native-destroy,
}

-- The arguments of unflatten: the words, their size in bytes, the descriptors and their number.
pub record Message : Type 0 where
  pub words : List ℕ
  pub size : ℕ
  pub fds : List ℕ
  pub count : ℕ

-- There are as many bytes and descriptors as is said, and the ten words of the header.
pub record IsSound (m : Message) : Type 0 where
  pub bytes : m.size ≤ 4 * length m.words
  pub descriptors : m.count ≤ length m.fds
  pub whole : 10 ≤ length m.words

-- The numbers of descriptors and ints are in the limits: beyond them unflatten forgets the handle.
abbrev pub IsLimited : Message → Type 0
IsLimited m = (get_or m.words 8 0 < 4096) × (get_or m.words 9 0 < 4086)

abbrev pub AllSound : List Message → Type 0
AllSound [] = Unit {0}
AllSound (m ∷ ms) = IsSound m × IsLimited m × AllSound ms

module _ (gralloc : Gralloc) where
  -- unflatten called with one message after the other, whatever it reports.
  unfoldable pub receives :
      List Message → GraphicBuffer → System gralloc → Option (GraphicBuffer × System gralloc)
  unfolding unflatten
  receives [] b sys = some (b, sys)
  receives (m ∷ ms) b sys = elim (unflatten gralloc m.words m.size m.fds m.count b sys) [
    | none ↦ none
    | some (err, cur, b', sys') ↦ receives ms b' sys'
  ]

module _ (gralloc : Gralloc) (nat : IsNative gralloc) where
  open nat use {native}

  -- What comes of a sound message: never a read outside of it.
  abbrev Kept : (ℕ → Bool) → Option (Status × Cursor × GraphicBuffer × System gralloc) → Type 0
  Kept f none = ⊥
  Kept f (some (err, cur, b, sys)) = IsOnly gralloc nat f b sys

  returned-Kept :
      (f : ℕ → Bool) (needed num_fds size count : ℕ)
      (made : Option (Status × GraphicBuffer × System gralloc))
      → Rebuilds gralloc nat f made
      → Kept f (returned gralloc needed num_fds size count made)
  returned-Kept f needed num_fds size count none r = r
  returned-Kept f needed num_fds size count (some (err, b, sys)) r = r

  unflatten-Kept :
      (m : Message) (f : ℕ → Bool) (b : GraphicBuffer) (sys : System gralloc)
      → ((h : ℕ) (w : gralloc.World) → (gralloc.register h w).0 ≡ ok)
      → IsSound m
      → IsLimited m
      → IsOnly gralloc nat f b sys
      → Kept f (unflatten gralloc m.words m.size m.fds m.count b sys)
  unfolding unflatten
  unflatten-Kept m f b sys reg sound limited only =
      let num_fds = get_or m.words 8 0 in
      let num_ints = get_or m.words 9 0 in
      let needed = (10 + num_ints) * 4 in
      let dropped = drop_handle gralloc b sys in
      let whole : ltb (length m.words) 10 ≡ false = ground (arith, sound.whole) in
      let first : ltb (length m.words) 1 ≡ false = ground (arith, sound.whole) in
      let limits : (leb max_number num_fds || leb (max_number - 10) num_ints) ≡ false =
        ground (arith, limited) in
      rw (whole, first, limits)
        (if_cases (Kept f) (ltb m.size 32) (λ short. only)
          (λ a.
            if_cases (Kept f) (not (get_or m.words 0 0 == magic)) (λ other. only)
              (λ c.
                if_cases (Kept f) (ltb m.size needed) (λ short. only)
                  (λ d.
                    if_cases (Kept f) (ltb m.count num_fds) (λ short. only)
                      (λ e.
                        returned-Kept f needed num_fds m.size m.count
                          (rebuild gralloc m.words m.fds dropped.0 dropped.1)
                          (rebuild-IsOnly gralloc nat m.words m.fds f dropped.0 dropped.1 reg
                            (λ q. native-drop_handle gralloc nat f b sys q only)
                            (ground (arith, sound.descriptors)) (ground (arith, sound.bytes))))))))

  -- The buffer and the system after all messages.
  receives-IsOnly :
      (ms : List Message) (f : ℕ → Bool) (b : GraphicBuffer) (sys : System gralloc)
      → ((h : ℕ) (w : gralloc.World) → (gralloc.register h w).0 ≡ ok)
      → AllSound ms
      → IsOnly gralloc nat f b sys
      → (b' : GraphicBuffer) × (sys' : System gralloc) × (receives gralloc ms b sys
          ≡ some (b', sys'))
        × IsOnly gralloc nat f b' sys'
  unfolding receives
  receives-IsOnly [] f b sys reg sound only = (b, sys, refl, only)
  receives-IsOnly (m ∷ ms) f b sys reg sound only =
      let kept = unflatten-Kept m f b sys reg sound.0 sound.1 only in
      elim (Option-cases (unflatten gralloc m.words m.size m.fds m.count b sys)) [
        | inl e ↦ absurd (subst (Kept f) e kept)
        | inr ((err, cur, b1, sys1), e) ↦
            let (b2, sys2, done, only2) =
              receives-IsOnly ms f b1 sys1 reg sound.2 (subst (Kept f) e kept) in
            (b2, sys2, ground (arith, e, done), only2)
      ]

  -- A buffer that receives any number of messages, some of which it may refuse or have no memory
  -- for, never reads outside of one: neither the header, nor the ints and the descriptors that it
  -- copies. And when it is destroyed, the native handles are those that were there before: none leaks
  -- and none of others is deleted. Conditions: each message has the bytes and descriptors that its
  -- sender says, and at least the header, with numbers below the limits, beyond which
  -- the handle would be forgotten; gralloc registers every handle.
  pub receives-native :
      (ms : List Message) (id : ℕ) (sys : System gralloc) (q : ℕ)
      → ((h : ℕ) (w : gralloc.World) → (gralloc.register h w).0 ≡ ok)
      → AllSound ms
      → (b : GraphicBuffer) × (sys' : System gralloc) × (receives gralloc ms (blank id) sys
          ≡ some (b, sys'))
        × (native (destroy gralloc b sys').world q ≡ native sys.world q)
  unfolding blank
  receives-native ms id sys q reg sound =
      let f = native sys.world in
      let start : IsOnly gralloc nat f (blank id) sys = record {
        owned = inl refl;
        apart = refl;
        held = λ k. ground arith;
      } in
      let (b, sys', done, only) = receives-IsOnly ms f (blank id) sys reg sound start in
      (b, sys', done, native-destroy gralloc nat f b sys' q only)
