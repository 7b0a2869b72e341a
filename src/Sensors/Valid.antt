-- ===== src/Sensors/Valid.antt =====
-- What holds of a SensorManager between calls, and how the connection establishes it.
use android_device_xiaomi_la.Common.{
  ℕ, ◌<◌, ◌≡◌, ◌≢◌, ◌⊎◌, inl, inr, refl, [], none, some, is_some, length, arith, ◌==◌,
  if◌then◌else◌, Bool-cases, Status, ok, is_ok, false, true,
}
use android_device_xiaomi_la.Sensors.Manager.{
  Platform, IsService, SensorManager, fill, sensor_manager_died, connect, assert_state_locked,
}
use android_device_xiaomi_la.Sensors.Memory.{IsMemory, SameArrays, extent-fill, load-fill}
use android_device_xiaomi_la.Sensors.Connect.{connect-Answers}

-- There is no service, and no sensor and no array; or there is one, and the array has one pointer
-- for each sensor, in order. Beside the arrays of `origin`, this one is allocated and no other.
pub record IsValid (platform : Platform) (memory : IsMemory platform) (origin : platform.World)
    (m : SensorManager) (w : platform.World) : Type 0 where
  pub loaded :
      ((m.server ≡ 0) × (m.sensors ≡ []) × (m.list ≡ 0))
      ⊎ ((m.server ≢ 0) × ((j : ℕ) → j < length m.sensors → platform.load w m.list j ≡ j))
  pub given : (m.list ≢ 0) ⊎ (length m.sensors ≡ 0)
  pub owned :
      (q : ℕ)
      → q ≢ 0
      → memory.extent w q
        ≡ (if q == m.list then some (length m.sensors) else memory.extent origin q)
  pub fresh : memory.extent origin m.list ≡ none

module _ (platform : Platform) (service : IsService platform) (memory : IsMemory platform) where
  open platform use {
    World, get_service, sleep, sensors_of, link_to_death, create_connection, malloc, free, load,
  }
  open service use {found, missing}
  open memory use {
    extent, extent_null, malloc_fresh, malloc_given, extent-malloc, extent-free, same-get_service,
    same-sleep, same-link_to_death, same-sensors_of, same-create_connection,
  }

  pub IsValid-SameArrays :
      (origin : World) (m : SensorManager) (w w' : World)
      → IsValid platform memory origin m w
      → SameArrays platform extent w w'
      → IsValid platform memory origin m w'
  IsValid-SameArrays origin m w w' v same = record {
    loaded = elim v.loaded [
      | inl e ↦ inl e
      | inr l ↦ inr (l.0, λ j h. ground (arith, (same m.list).1 j, l.1 j h))
    ];
    given = v.given;
    owned = λ q nz. ground (arith, (same q).0, v.owned q nz);
    fresh = v.fresh;
  }

  pub load_list :
      (origin : World) (m : SensorManager) (w : World)
      → IsValid platform memory origin m w
      → (j : ℕ) → j < length m.sensors
      → load w m.list j ≡ j
  load_list origin m w v j h = elim v.loaded [
    | inl (gone, empty, null) ↦ ground arith
    | inr (known, filled) ↦ filled j h
  ]

  -- What is freed is allocated, or NULL.
  pub free_allowed :
      (origin : World) (m : SensorManager) (w : World)
      → IsValid platform memory origin m w
      → (m.list ≡ 0) ⊎ (is_some (extent w m.list) ≡ true)
  free_allowed origin m w v = elim (Bool-cases (m.list == 0)) [
    | inl z ↦ inl (ground arith)
    | inr nz ↦ inr (ground (arith, v.owned m.list (ground arith)))
  ]

  pub extent-free_list :
      (origin : World) (m : SensorManager) (w : World) (q : ℕ)
      → IsValid platform memory origin m w
      → q ≢ 0
      → extent (free m.list w) q ≡ extent origin q
  extent-free_list origin m w q v nz =
      let freed = extent-free m.list w q (free_allowed origin m w v) in
      let before = v.owned q nz in
      let unused = v.fresh in
      elim (Bool-cases (q == m.list)) [ inl y ↦ ground arith | inr n ↦ ground arith ]

  pub sensor_manager_died-IsValid :
      (origin : World) (m : SensorManager) (w : World)
      → IsValid platform memory origin m w
      → IsValid platform memory origin
          (sensor_manager_died platform m w).0
          (sensor_manager_died platform m w).1
  unfolding sensor_manager_died
  sensor_manager_died-IsValid origin m w v = record {
    loaded = inl (refl, refl, refl);
    given = inr refl;
    owned = λ q nz. ground (arith, extent-free_list origin m w q v nz);
    fresh = extent_null origin;
  }

  -- The array that is allocated and filled for the sensors of a new service.
  filled-IsValid :
      (origin w : World) (m : SensorManager)
      → m.server ≢ 0
      → m.list ≡ (malloc (length m.sensors) w).0
      → ((q : ℕ) → q ≢ 0 → extent w q ≡ extent origin q)
      → IsValid platform memory origin m
          (fill platform m.list 0 (length m.sensors) (malloc (length m.sensors) w).1)
  unfolding fill
  filled-IsValid origin w m known here same =
      let n = length m.sensors in
      let w1 = (malloc n w).1 in
      let unused = malloc_fresh n w in
      elim (Bool-cases (m.list == 0)) [
        | inl z ↦
            let none_at_all : n ≡ 0 = ground (arith, malloc_given n w) in
            rw none_at_all (record {
              loaded = inr (known, λ j h. ground arith);
              given = inr none_at_all;
              owned = λ q nz. ground (arith, extent-malloc n w q nz, same q nz);
              fresh = ground (arith, extent_null origin);
            })
        | inr nz ↦
            let has : extent w1 m.list ≡ some n =
              ground (arith, extent-malloc n w m.list (ground arith)) in
            record {
              loaded = inr (
                known,
                λ j h.
                    ground (arith, load-fill platform memory m.list n 0 n w1 j has (ground arith)),
              );
              given = inl (ground arith);
              owned = λ q nzq. ground (
                arith,
                extent-fill platform memory m.list n 0 n w1 q has (ground arith),
                extent-malloc n w q nzq,
                same q nzq,
              );
              fresh = ground (arith, same m.list (ground arith));
            }
      ]

  -- The state is valid afterwards, and has a service if the status is OK.
  abbrev pub Asserted : World → Status × SensorManager × World → Type 0
  Asserted origin (err, m, w) =
      IsValid platform memory origin m w
      × (((err ≡ ok) × (m.server ≢ 0)) ⊎ ((is_ok err ≡ false) × (m.server ≡ 0)))

  pub assert_lem :
      (origin : World) (m : SensorManager) (w : World)
      → IsValid platform memory origin m w
      → Asserted origin (assert_state_locked platform m w)
  unfolding assert_state_locked
  assert_lem origin m w v =
      let got = connect platform w in
      let linked = link_to_death got.1 got.2 in
      let sensors = (sensors_of got.1 linked).0 in
      let w2 = (sensors_of got.1 linked).1 in
      let a = connect-Answers platform service memory w in
      let same : SameArrays platform extent w w2 = λ q. (
        ground (
          arith,
          (a.1 q).0,
          (same-link_to_death got.1 got.2 q).0,
          (same-sensors_of got.1 linked q).0,
        ),
        λ j. ground (
          arith,
          (a.1 q).1 j,
          (same-link_to_death got.1 got.2 q).1 j,
          (same-sensors_of got.1 linked q).1 j,
        ),
      ) in
      elim (Bool-cases (m.server == 0)) [
        | inl z ↦ rw z (elim (Bool-cases (is_ok got.0)) [
          | inl y ↦ rw y (
              let new : SensorManager = record {
                server = got.1;
                sensors = sensors;
                list = (malloc (length sensors) w2).0;
              } in
              let known : got.1 ≢ 0 = ground arith in
              (
                filled-IsValid origin w2 new known refl
                    (λ q nz. ground (arith, (same q).0, v.owned q nz)),
                inl (refl, known),
              ))
          | inr n ↦ rw n (
              let gone : got.1 ≡ 0 = ground arith in
              let empty : (m.sensors ≡ []) × (m.list ≡ 0) = ground (arith, v.loaded) in
              (
                record {
                  loaded = inl (gone, empty.0, empty.1);
                  given = v.given;
                  owned = λ q nz. ground (arith, (a.1 q).0, v.owned q nz);
                  fresh = v.fresh;
                },
                inr (n, gone),
              ))
        ])
        | inr nz ↦ rw nz (v, ground arith)
      ]
