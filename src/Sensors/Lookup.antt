-- ===== src/Sensors/Lookup.antt =====
-- What the clients of the manager are given: the array of sensors, and the default of a type.
use android_device_xiaomi_la.Common.{
  ℕ, zero, suc, ◌+◌, ◌≡◌, refl, ◌<◌, ◌≤◌, ◌⊎◌, ◌==◌, subst, eq_cases, List, [], Option, none, some,
  inl, inr, Bool-cases, length, true, false, arith, ok, is_ok,
}
use android_device_xiaomi_la.Sensors.Manager.{
  Platform, IsService, Sensor, SensorManager, sensor_manager_died, connect, assert_state_locked,
  get_sensor_list, get_default_sensor, suits, search,
}
use android_device_xiaomi_la.Sensors.Memory.{IsMemory}
use android_device_xiaomi_la.Sensors.Valid.{IsValid, assert_lem, load_list}

module _ (platform : Platform) where
  open platform use {World, load}

  -- Of the indices from `i` on, `n` many, the result is the first that suits, or none suits.
  abbrev pub IsFirst : ℕ → List Sensor → ℕ → ℕ → Option ℕ → Type 0
  IsFirst t sensors i n none = (j : ℕ) → i ≤ j → j < i + n → suits platform t sensors j ≡ false
  IsFirst t sensors i n (some p) =
      (i ≤ p)
      × (p < i + n)
      × (suits platform t sensors p ≡ true)
      × ((j : ℕ) → i ≤ j → j < p → suits platform t sensors j ≡ false)

  IsFirst-later :
      (t : ℕ) (sensors : List Sensor) (i n : ℕ) (o : Option ℕ)
      → suits platform t sensors i ≡ false
      → IsFirst t sensors (suc i) n o
      → IsFirst t sensors i (suc n) o
  IsFirst-later t sensors i n none unfit f = λ j ij jn. elim (eq_cases i j) [
    | inl e ↦ subst (λ k. suits platform t sensors k ≡ false) e unfit
    | inr ne ↦ f j (ground arith) (ground arith)
  ]
  IsFirst-later t sensors i n (some p) unfit f = (
    ground arith,
    ground arith,
    f.2,
    λ j ij jp. elim (eq_cases i j) [
      | inl e ↦ subst (λ k. suits platform t sensors k ≡ false) e unfit
      | inr ne ↦ f.3 j (ground arith) jp
    ],
  )

  search-IsFirst :
      (t : ℕ) (sensors : List Sensor) (list : ℕ) (w : World) (i n : ℕ)
      → ((j : ℕ) → j < i + n → load w list j ≡ j)
      → IsFirst t sensors i n (search platform t sensors list w i n)
  unfolding search
  search-IsFirst t sensors list w i zero filled = λ j ij jn. ground arith
  search-IsFirst t sensors list w i (suc n) filled =
      let here = filled i (ground arith) in
      rw here (elim (Bool-cases (suits platform t sensors i)) [
        | inl y ↦ rw y (ground arith, ground arith, y, λ j ij ji. ground arith)
        | inr unfit ↦ rw unfit (
            IsFirst-later t sensors i n (search platform t sensors list w (suc i) n) unfit
              (search-IsFirst t sensors list w (suc i) n (λ j h. filled j (ground arith))))
      ])

module _ (platform : Platform) (service : IsService platform) (memory : IsMemory platform) where
  open platform use {World, sensors_of, link_to_death, load}
  open memory use {extent, extent_null}

  -- From a valid state, getDefaultSensor gives the first sensor that has the type and is a wake-up
  -- sensor exactly if the type asks for one, or NULL if there is none; without a service, NULL.
  pub get_default_sensor-IsFirst :
      (t : ℕ) (origin : World) (m : SensorManager) (w : World)
      → IsValid platform memory origin m w
      → let (found, m', _) = get_default_sensor platform t m w in
        IsFirst platform t m'.sensors 0 (length m'.sensors) found
  unfolding get_default_sensor
  get_default_sensor-IsFirst t origin m w v =
      let got = assert_state_locked platform m w in
      let a = assert_lem platform service memory origin m w v in
      let sensors = got.1.sensors in
      elim (Bool-cases (is_ok got.0)) [
        | inl y ↦
            let filled : (j : ℕ) → j < 0 + length sensors → load got.2 got.1.list j ≡ j =
              λ j h. load_list platform service memory origin got.1 got.2 a.0 j (ground arith) in
            rw y (search-IsFirst platform t sensors got.1.list got.2 0 (length sensors) filled)
        | inr n ↦
            let empty : sensors ≡ [] = ground (arith, a.0.loaded) in
            rw (n, empty) (λ j ij jn. ground arith)
      ]

  -- If getSensorList succeeds from a valid state, it returns the number of sensors, and the array
  -- that it gives has so many elements, of which each points to the sensor of its index; NULL can
  -- only be given for no sensor.
  get_sensor_list_lem :
      (origin : World) (m : SensorManager) (w : World)
      → IsValid platform memory origin m w
      → (get_sensor_list platform m w).0 ≡ ok
      → let (_, list, count, m', w') = get_sensor_list platform m w in
        (count ≡ length m'.sensors)
        × (list ≡ some m'.list)
        × (((m'.list ≡ 0) × (count ≡ 0)) ⊎ (extent w' m'.list ≡ some count))
        × ((i : ℕ) → i < count → load w' m'.list i ≡ i)
  unfolding get_sensor_list
  get_sensor_list_lem origin m w v success =
      let got = assert_state_locked platform m w in
      let a = assert_lem platform service memory origin m w v in
      elim (Bool-cases (is_ok got.0)) [
        | inl y ↦ rw y (
          refl,
          refl,
          elim (Bool-cases (got.1.list == 0)) [
            | inl z ↦ inl (ground arith, ground (arith, a.0.given))
            | inr nz ↦ inr (ground (arith, a.0.owned got.1.list (ground arith)))
          ],
          λ i h. load_list platform service memory origin got.1 got.2 a.0 i h,
        )
        | inr bad ↦ ground arith
      ]

  -- After the death of the service, once a service is found again, getSensorList gives the sensors
  -- of the new one, whatever was held before.
  get_sensor_list-sensor_manager_died :
      (m : SensorManager) (w : World)
      → let (m0, w0) = sensor_manager_died platform m w in
        (connect platform w0).0 ≡ ok
        → let (_, server, w1) = connect platform w0 in
          let (err, list, count, m', w2) = get_sensor_list platform m0 w0 in
          (err ≡ ok)
          × (m'.server ≡ server)
          × (m'.sensors ≡ (sensors_of server (link_to_death server w1)).0)
          × (list ≡ some m'.list)
          × (count ≡ length m'.sensors)
  unfolding get_sensor_list assert_state_locked sensor_manager_died
  get_sensor_list-sensor_manager_died m w found = ground arith
