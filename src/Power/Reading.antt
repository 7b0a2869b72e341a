-- ===== src/Power/Reading.antt =====
-- sysfs_read stays within its buffer.
use android_device_xiaomi_la.Common.{
  ℕ, suc, ◌+◌, ◌-◌, ◌%◌, ◌≤◌, ◌<◌, ◌≡◌, ◌⊎◌, inl, inr, refl, ◌∙◌, false, [], ◌∷◌, some,
  Option-cases, arith, ◌==◌, if◌then◌else◌, word, length, Text,
}
use android_device_xiaomi_la.Power.Sysfs.{Kernel, Log, opens_to_read, store, sysfs_read}

-- A read gives no more bytes than it was asked for.
pub record IsBounded (kernel : Kernel) : Type 0 where
  pub read_fits :
      (fd size : ℕ) (log : Log) (bytes : Text)
      → kernel.read fd size log ≡ some bytes
      → length bytes ≤ size

store_beyond :
    (i : ℕ) (bytes : Text) (p : ℕ → ℕ) (k : ℕ) → i + length bytes ≤ k → store i bytes p k ≡ p k
store_beyond i [] p k h = refl
store_beyond i (b ∷ bytes) p k h =
    store_beyond (suc i) bytes (λ j. if j == i then b else p j) k (omega (arith, h)) ∙ ground arith

module _ (kernel : Kernel) (bounded : IsBounded kernel) where
  -- With a buffer of `num_bytes` bytes, at least one, sysfs_read leaves everything behind the buffer
  -- alone, and reports an error or leaves a terminated string in it.
  pub sysfs_read_fits :
      (path : Text) (s : ℕ → ℕ) (num_bytes : ℕ) (log : Log) (k : ℕ)
      → 0 < num_bytes
      → num_bytes < word
      → num_bytes ≤ k
      → let (r, s', _) = sysfs_read kernel path s num_bytes log in
        (s' k ≡ s k) × ((r ≡ false) ⊎ ((i : ℕ) × (i < num_bytes) × (s' i ≡ 0)))
  unfolding sysfs_read
  sysfs_read_fits path s num_bytes log k some_ small beyond =
      elim (Option-cases (kernel.open_to_read path log)) [
        | inl e ↦ rw (e, sysfs_read) (refl, inl refl)
        | inr (d, e) ↦
            let log1 = opens_to_read path (some d) ∷ log in
            let size = (num_bytes + (word - 1)) % word in
            elim (Option-cases (kernel.read d size log1)) [
              | inl r ↦ (ground (arith, e, r), inl (ground (arith, e, r)))
              | inr (bytes, r) ↦
                  let fits = bounded.read_fits d size log1 bytes r in
                  let short : length bytes < num_bytes = omega (arith, fits) in
                  let same = store_beyond 0 bytes s k (omega (arith, short, beyond)) in
                  (ground (arith, e, r, same), inr (length bytes, short, ground (arith, e, r)))
            ]
      ]
