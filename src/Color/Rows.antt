-- ===== src/Color/Rows.antt =====
-- What the loops over rows and samples write, offset by offset.
use android_device_xiaomi_la.Common.{
  ℕ, zero, suc, ◌+◌, ◌*◌, ◌≤◌, ◌<◌, ◌≡◌, ◌⊎◌, inl, inr, refl, ◌∙◌, eq_cases, arith,
}
use android_device_xiaomi_la.Color.Convert.{
  Buffer, put, memcpy, copy_rows, split_row, split_rows, join_row, join_rows,
}

-- The offset of a row.
abbrev pub row_start : ℕ → ℕ → ℕ → ℕ
row_start base step zero = base
row_start base step (suc r) = row_start (base + step) step r

pub row_start_lem : (base step r : ℕ) → row_start base step r ≡ base + step * r
row_start_lem base step zero = ground arith
row_start_lem base step (suc r) = omega (arith, row_start_lem (base + step) step r)

row_start_ge : (base step r : ℕ) → base ≤ row_start base step r
row_start_ge base step zero = omega arith
row_start_ge base step (suc r) = omega (arith, row_start_ge (base + step) step r)

-- Copying rows.
module _ (q : Buffer) (n from_step to_step : ℕ) where
  pub copy_rows_outside :
      (rows from to : ℕ) (p : Buffer) (k : ℕ)
      → n ≤ to_step
      → (k < to) ⊎ (row_start to to_step rows ≤ k)
      → copy_rows rows n q from from_step to to_step p k ≡ p k
  unfolding copy_rows
  copy_rows_outside zero from to p k h o = refl
  copy_rows_outside (suc rows) from to p k h o = ground (
    arith,
    row_start_ge (to + to_step) to_step rows,
    copy_rows_outside rows (from + from_step) (to + to_step) (memcpy to q from n p) k h,
  )

  pub copy_rows_inside :
      (rows r x from to : ℕ) (p : Buffer)
      → n ≤ to_step
      → r < rows
      → x < n
      → copy_rows rows n q from from_step to to_step p (row_start to to_step r + x)
        ≡ q (row_start from from_step r + x)
  unfolding copy_rows
  copy_rows_inside zero r x from to p h hr hx = absurd (omega arith)
  copy_rows_inside (suc rows) zero x from to p h hr hx =
      let p1 = memcpy to q from n p in
      let same =
        copy_rows_outside rows (from + from_step) (to + to_step) p1 (to + x) h
          (inl (omega arith)) in
      same ∙ ground arith
  copy_rows_inside (suc rows) (suc r) x from to p h hr hx =
      copy_rows_inside rows r x (from + from_step) (to + to_step) (memcpy to q from n p) h
        (omega arith) hx

split_row_outside :
    (n x u v uv : ℕ) (q p : Buffer) (k : ℕ)
    → (k < u + x) ⊎ (u + x + n ≤ k)
    → (k < v + x) ⊎ (v + x + n ≤ k)
    → split_row n x u v q uv p k ≡ p k
unfolding split_row
split_row_outside zero x u v uv q p k hu hv = refl
split_row_outside (suc n) x u v uv q p k hu hv =
    let p1 = put (v + x) (q (uv + (2 * x + 1))) (put (u + x) (q (uv + 2 * x)) p) in
    ground (arith, split_row_outside n (suc x) u v uv q p1 k)

split_row_u :
    (n x u v uv : ℕ) (q p : Buffer) (i : ℕ)
    → x ≤ i
    → i < x + n
    → u + (x + n) ≤ v + x
    → split_row n x u v q uv p (u + i) ≡ q (uv + 2 * i)
unfolding split_row
split_row_u zero x u v uv q p i lo hi d = absurd (omega arith)
split_row_u (suc n) x u v uv q p i lo hi d =
    let p1 = put (v + x) (q (uv + (2 * x + 1))) (put (u + x) (q (uv + 2 * x)) p) in
    elim (eq_cases i x) [
      | inl e ↦
          split_row_outside n (suc x) u v uv q p1 (u + i) (inl (omega arith)) (inl (omega arith))
          ∙ ground arith
      | inr ne ↦ split_row_u n (suc x) u v uv q p1 i (omega arith) (omega arith) (omega arith)
    ]

split_row_v :
    (n x u v uv : ℕ) (q p : Buffer) (i : ℕ)
    → x ≤ i
    → i < x + n
    → u + (x + n) ≤ v + x
    → split_row n x u v q uv p (v + i) ≡ q (uv + (2 * i + 1))
unfolding split_row
split_row_v zero x u v uv q p i lo hi d = absurd (omega arith)
split_row_v (suc n) x u v uv q p i lo hi d =
    let p1 = put (v + x) (q (uv + (2 * x + 1))) (put (u + x) (q (uv + 2 * x)) p) in
    elim (eq_cases i x) [
      | inl e ↦
          split_row_outside n (suc x) u v uv q p1 (v + i) (inr (omega arith)) (inl (omega arith))
          ∙ ground arith
      | inr ne ↦ split_row_v n (suc x) u v uv q p1 i (omega arith) (omega arith) (omega arith)
    ]

-- Splitting rows.
module _ (q : Buffer) (n stride step : ℕ) (fits : n ≤ stride) where
  pub split_rows_outside :
      (rows u v uv : ℕ) (p : Buffer) (k : ℕ)
      → (k < u) ⊎ (row_start u stride rows ≤ k)
      → (k < v) ⊎ (row_start v stride rows ≤ k)
      → split_rows rows n u v stride q uv step p k ≡ p k
  unfolding split_rows
  split_rows_outside zero u v uv p k hu hv = refl
  split_rows_outside (suc rows) u v uv p k hu hv =
      let p1 = split_row n 0 u v q uv p in
      ground (
        arith,
        row_start_ge (u + stride) stride rows,
        row_start_ge (v + stride) stride rows,
        split_row_outside n 0 u v uv q p k,
        split_rows_outside rows (u + stride) (v + stride) (uv + step) p1 k,
      )

  pub split_rows_u :
      (rows r x u v uv : ℕ) (p : Buffer)
      → r < rows
      → x < n
      → row_start u stride rows ≤ v
      → split_rows rows n u v stride q uv step p (row_start u stride r + x)
        ≡ q (row_start uv step r + 2 * x)
  unfolding split_rows
  split_rows_u zero r x u v uv p hr hx d = absurd (omega arith)
  split_rows_u (suc rows) zero x u v uv p hr hx d =
      let p1 = split_row n 0 u v q uv p in
      let ge = row_start_ge (u + stride) stride rows in
      split_rows_outside rows (u + stride) (v + stride) (uv + step) p1 (u + x) (inl (omega arith))
        (inl (omega arith))
      ∙ split_row_u n 0 u v uv q p x (omega arith) (omega arith) (omega arith)
  split_rows_u (suc rows) (suc r) x u v uv p hr hx d =
      split_rows_u rows r x (u + stride) (v + stride) (uv + step) (split_row n 0 u v q uv p)
        (omega arith) hx (omega arith)

  pub split_rows_v :
      (rows r x u v uv : ℕ) (p : Buffer)
      → r < rows
      → x < n
      → row_start u stride rows ≤ v
      → split_rows rows n u v stride q uv step p (row_start v stride r + x)
        ≡ q (row_start uv step r + (2 * x + 1))
  unfolding split_rows
  split_rows_v zero r x u v uv p hr hx d = absurd (omega arith)
  split_rows_v (suc rows) zero x u v uv p hr hx d =
      let p1 = split_row n 0 u v q uv p in
      let ge = row_start_ge (u + stride) stride rows in
      split_rows_outside rows (u + stride) (v + stride) (uv + step) p1 (v + x) (inr (omega arith))
        (inl (omega arith))
      ∙ split_row_v n 0 u v uv q p x (omega arith) (omega arith) (omega arith)
  split_rows_v (suc rows) (suc r) x u v uv p hr hx d =
      split_rows_v rows r x (u + stride) (v + stride) (uv + step) (split_row n 0 u v q uv p)
        (omega arith) hx (omega arith)

join_row_outside :
    (n j u v uv : ℕ) (q p : Buffer) (k : ℕ)
    → (k < uv + 2 * j) ⊎ (uv + 2 * (j + n) ≤ k)
    → join_row n j q u v uv p k ≡ p k
unfolding join_row
join_row_outside zero j u v uv q p k h = refl
join_row_outside (suc n) j u v uv q p k h =
    let p1 = put (uv + (2 * j + 1)) (q (v + j)) (put (uv + 2 * j) (q (u + j)) p) in
    ground (arith, join_row_outside n (suc j) u v uv q p1 k)

-- Both samples of a pair.
abbrev pub Pair : ℕ → ℕ → ℕ → Buffer → ℕ → Buffer → Type 0
Pair u v uv q i out = (out (uv + 2 * i) ≡ q (u + i)) × (out (uv + (2 * i + 1)) ≡ q (v + i))

join_row_inside :
    (n j u v uv : ℕ) (q p : Buffer) (i : ℕ)
    → j ≤ i
    → i < j + n
    → Pair u v uv q i (join_row n j q u v uv p)
unfolding join_row
join_row_inside zero j u v uv q p i lo hi = absurd (omega arith)
join_row_inside (suc n) j u v uv q p i lo hi =
    let p1 = put (uv + (2 * j + 1)) (q (v + j)) (put (uv + 2 * j) (q (u + j)) p) in
    elim (eq_cases i j) [
      | inl e ↦ (
        join_row_outside n (suc j) u v uv q p1 (uv + 2 * i) (inl (omega arith)) ∙ ground arith,
        join_row_outside n (suc j) u v uv q p1 (uv + (2 * i + 1)) (inl (omega arith))
            ∙ ground arith,
      )
      | inr ne ↦ join_row_inside n (suc j) u v uv q p1 i (omega arith) (omega arith)
    ]

-- Joining rows.
module _ (q : Buffer) (n stride step : ℕ) (fits : 2 * n ≤ step) where
  pub join_rows_outside :
      (rows u v uv : ℕ) (p : Buffer) (k : ℕ)
      → (k < uv) ⊎ (row_start uv step rows ≤ k)
      → join_rows rows n q u v stride uv step p k ≡ p k
  unfolding join_rows
  join_rows_outside zero u v uv p k h = refl
  join_rows_outside (suc rows) u v uv p k h =
      let p1 = join_row n 0 q u v uv p in
      ground (
        arith,
        row_start_ge (uv + step) step rows,
        join_row_outside n 0 u v uv q p k,
        join_rows_outside rows (u + stride) (v + stride) (uv + step) p1 k,
      )

  pub join_rows_inside :
      (rows r x u v uv : ℕ) (p : Buffer)
      → r < rows
      → x < n
      → Pair
          (row_start u stride r)
          (row_start v stride r)
          (row_start uv step r)
          q
          x
          (join_rows rows n q u v stride uv step p)
  unfolding join_rows
  join_rows_inside zero r x u v uv p hr hx = absurd (omega arith)
  join_rows_inside (suc rows) zero x u v uv p hr hx =
      let p1 = join_row n 0 q u v uv p in
      let here = join_row_inside n 0 u v uv q p x (omega arith) (omega arith) in
      (
        join_rows_outside rows (u + stride) (v + stride) (uv + step) p1 (uv + 2 * x)
              (inl (omega arith))
            ∙ here.0,
        join_rows_outside rows (u + stride) (v + stride) (uv + step) p1 (uv + (2 * x + 1))
              (inl (omega arith))
            ∙ here.1,
      )
  join_rows_inside (suc rows) (suc r) x u v uv p hr hx =
      join_rows_inside rows r x (u + stride) (v + stride) (uv + step) (join_row n 0 q u v uv p)
        (omega arith) hx
