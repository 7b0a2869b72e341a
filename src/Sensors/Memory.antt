-- ===== src/Sensors/Memory.antt =====
-- What is relied on of malloc and free, and the array that the manager fills.
use android_device_xiaomi_la.Common.{
  ℕ, zero, suc, ◌+◌, ◌≡◌, ◌≢◌, ◌<◌, ◌≤◌, ◌⊎◌, refl, true, Option, none, some, is_some, ltb, leb,
  ◌&&◌, ◌==◌, if◌then◌else◌, arith,
}
use android_device_xiaomi_la.Sensors.Manager.{Platform, fill}

-- The same arrays are allocated, and hold the same.
abbrev pub SameArrays :
    (platform : Platform)
    → (platform.World → ℕ → Option ℕ)
    → platform.World
    → platform.World
    → Type 0
SameArrays platform extent w w' =
    (q : ℕ) → (extent w' q ≡ extent w q) × ((j : ℕ) → platform.load w' q j ≡ platform.load w q j)

-- How many elements an address has that was allocated. Only what is allocated may be freed, but NULL,
-- and only its elements may be written. malloc succeeds, but may give NULL for no element. The service
-- and usleep leave the arrays.
pub record IsMemory (platform : Platform) : Type 0 where
  pub extent : platform.World → ℕ → Option ℕ
  pub extent_null : (w : platform.World) → extent w 0 ≡ none
  pub malloc_fresh : (n : ℕ) (w : platform.World) → extent w (platform.malloc n w).0 ≡ none
  pub malloc_given : (n : ℕ) (w : platform.World) → 0 < n → (platform.malloc n w).0 ≢ 0
  pub extent-malloc :
      (n : ℕ) (w : platform.World) (q : ℕ)
      → q ≢ 0
      → extent (platform.malloc n w).1 q
        ≡ (if q == (platform.malloc n w).0 then some n else extent w q)
  pub extent-free :
      (p : ℕ) (w : platform.World) (q : ℕ)
      → (p ≡ 0) ⊎ (is_some (extent w p) ≡ true)
      → extent (platform.free p w) q ≡ (if q == p then none else extent w q)
  pub extent-store :
      (p i v n : ℕ) (w : platform.World) (q : ℕ)
      → extent w p ≡ some n
      → i < n
      → extent (platform.store p i v w) q ≡ extent w q
  pub load-store :
      (p i v n : ℕ) (w : platform.World) (j : ℕ)
      → extent w p ≡ some n
      → i < n
      → platform.load (platform.store p i v w) p j ≡ (if j == i then v else platform.load w p j)
  pub same-get_service :
      (w : platform.World) → SameArrays platform extent w (platform.get_service w).2
  pub same-sleep : (w : platform.World) → SameArrays platform extent w (platform.sleep w)
  pub same-link_to_death :
      (server : ℕ) (w : platform.World)
      → SameArrays platform extent w (platform.link_to_death server w)
  pub same-sensors_of :
      (server : ℕ) (w : platform.World)
      → SameArrays platform extent w (platform.sensors_of server w).1
  pub same-create_connection :
      (server : ℕ) (w : platform.World)
      → SameArrays platform extent w (platform.create_connection server w).1

module _ (platform : Platform) (memory : IsMemory platform) where
  open platform use {World, load, store}
  open memory use {extent, extent-store, load-store}

  pub extent-fill :
      (p k i n : ℕ) (w : World) (q : ℕ)
      → extent w p ≡ some k
      → i + n ≤ k
      → extent (fill platform p i n w) q ≡ extent w q
  unfolding fill
  extent-fill p k i zero w q has h = refl
  extent-fill p k i (suc n) w q has h =
      let w1 = store p i i w in
      let at_p = extent-store p i i k w p has (ground arith) in
      let at_q = extent-store p i i k w q has (ground arith) in
      let rest = extent-fill p k (suc i) n w1 q (ground arith) (ground arith) in ground arith

  pub load-fill :
      (p k i n : ℕ) (w : World) (j : ℕ)
      → extent w p ≡ some k
      → i + n ≤ k
      → load (fill platform p i n w) p j ≡ (if leb i j && ltb j (i + n) then j else load w p j)
  unfolding fill
  load-fill p k i zero w j has h = ground arith
  load-fill p k i (suc n) w j has h =
      let w1 = store p i i w in
      let at_p = extent-store p i i k w p has (ground arith) in
      let here = load-store p i i k w j has (ground arith) in
      let rest = load-fill p k (suc i) n w1 j (ground arith) (ground arith) in ground arith
