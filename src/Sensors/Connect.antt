-- ===== src/Sensors/Connect.antt =====
-- The tries to get the service: what they answer, and that they leave the arrays.
use android_device_xiaomi_la.Common.{
  ℕ, zero, suc, ◌≡◌, ◌≢◌, ◌⊎◌, inl, inr, refl, arith, Bool-cases, Status, ok, is_ok, is_ok_eq,
  is_missing, false,
}
use android_device_xiaomi_la.Sensors.Manager.{Platform, IsService, retry, connect}
use android_device_xiaomi_la.Sensors.Memory.{IsMemory, SameArrays}

module _ (platform : Platform) (service : IsService platform) (memory : IsMemory platform) where
  open platform use {World, get_service, sleep}
  open service use {found, missing}
  open memory use {extent, same-get_service, same-sleep}

  -- An answer is a service with NO_ERROR, or an error without a service; the arrays are as before.
  abbrev pub Answers : World → Status × ℕ × World → Type 0
  Answers origin (err, server, w) =
      (((err ≡ ok) × (server ≢ 0)) ⊎ ((is_ok err ≡ false) × (server ≡ 0)))
      × SameArrays platform extent origin w

  get_service-Answers :
      (origin w : World) → SameArrays platform extent origin w → Answers origin (get_service w)
  get_service-Answers origin w same =
      let same' : SameArrays platform extent origin (get_service w).2 = λ q. (
        ground (arith, (same-get_service w q).0, (same q).0),
        λ j. ground (arith, (same-get_service w q).1 j, (same q).1 j),
      ) in
      elim (Bool-cases (is_ok (get_service w).0)) [
        | inl y ↦ let e = is_ok_eq (get_service w).0 y in (inl (e, found w e), same')
        | inr n ↦ (inr (n, missing w (λ e. ground arith)), same')
      ]

  retry-Answers :
      (n : ℕ) (err : Status) (server : ℕ) (origin w : World)
      → Answers origin (err, server, w)
      → Answers origin (retry platform n err server w)
  unfolding retry
  retry-Answers zero err server origin w a = a
  retry-Answers (suc n) err server origin w a = elim (Bool-cases (is_missing err)) [
    | inl y ↦ rw y (
        let got = get_service (sleep w) in
        let same : SameArrays platform extent origin (sleep w) = λ q. (
          ground (arith, (same-sleep w q).0, (a.1 q).0),
          λ j. ground (arith, (same-sleep w q).1 j, (a.1 q).1 j),
        ) in
        retry-Answers n got.0 got.1 origin got.2 (get_service-Answers origin (sleep w) same))
    | inr y ↦ rw y a
  ]

  pub connect-Answers : (w : World) → Answers w (connect platform w)
  unfolding connect
  connect-Answers w =
      let got = get_service w in
      retry-Answers 3 got.0 got.1 w got.2 (get_service-Answers w w (λ q. (refl, λ j. refl)))
