-- ===== src/Color/Decode.antt =====
-- convertDecoderOutputToI420 takes each sample from its place in NV12 to its place in I420. An even
-- width and height are `2 * a` and `2 * b`.
use android_device_xiaomi_la.Common.{
  ℕ, ◌+◌, ◌-◌, ◌*◌, ◌/◌, ◌≤◌, ◌<◌, ◌≡◌, refl, arith, ap, inl, ◌∙◌,
}
use android_device_xiaomi_la.Color.Convert.{
  Buffer, copy_rows, split_rows, convert_decoder_output_to_i420,
}
use android_device_xiaomi_la.Color.Rows.{
  row_start, row_start_lem, copy_rows_inside, split_rows_u, split_rows_v, split_rows_outside,
}
use android_device_xiaomi_la.Color.Formats.{
  i420_y, i420_u, i420_v, nv12_y, nv12_u, nv12_v, rect, half, before_end,
}

-- What the decoder's conversion computes for such a rectangle.
decode_lem :
    (src dst : Buffer) (w h left t a b : ℕ)
    → 0 < a
    → 0 < b
    → convert_decoder_output_to_i420 src w h (rect left t a b) dst
      ≡ split_rows b a
          (2 * a * (2 * b))
          (2 * a * (2 * b) + a * b)
          a
          src
          (w * (2 * t) + left + w * (h - t))
          w
          (copy_rows (2 * b) (2 * a) src (w * (2 * t) + left) w 0 (2 * a) dst)
unfolding convert_decoder_output_to_i420
decode_lem src dst w h left t a b ha hb =
    let ew : left + 2 * a - 1 + 1 - left ≡ 2 * a = omega arith in
    let eh : 2 * t + 2 * b - 1 + 1 - 2 * t ≡ 2 * b = omega arith in
    let ea : (2 * a + 1) / 2 ≡ a = omega arith in
    let eb : (2 * b + 1) / 2 ≡ b = omega arith in
    let ev : a * (2 * b) / 2 ≡ a * b = omega arith in rw (ew, eh, ea, eb, half a, half t, ev) refl

-- The start of the chroma samples that the decoder's conversion takes.
chroma_start :
    (w h left t y : ℕ)
    → t ≤ h
    → row_start (w * (2 * t) + left + w * (h - t)) w y ≡ w * h + w * (t + y) + left
chroma_start w h left t y l =
    let e : h ≡ t + (h - t) = omega arith in
    omega (arith, ap (λ (z : ℕ). w * z) e, row_start_lem (w * (2 * t) + left + w * (h - t)) w y)

module _ (src dst : Buffer) (w h left t a b : ℕ) (ha : 0 < a) (hb : 0 < b) (inside : t ≤ h) where
  abbrev decoded : Buffer
  decoded = convert_decoder_output_to_i420 src w h (rect left t a b) dst

  -- The copied luma, before the chroma is written.
  abbrev luma : Buffer
  luma = copy_rows (2 * b) (2 * a) src (w * (2 * t) + left) w 0 (2 * a) dst

  decoded_y :
      (x y : ℕ)
      → x < 2 * a
      → y < 2 * b
      → decoded (i420_y (2 * a) x y) ≡ src (nv12_y w (left + x) (2 * t + y))
  decoded_y x y hx hy =
      let u = 2 * a * (2 * b) in
      let v = u + a * b in
      let s = w * (2 * t) + left + w * (h - t) in
      let k = 2 * a * y + x in
      let e = before_end (2 * a) (2 * b) x y hx hy in
      let f = row_start_lem 0 (2 * a) y in
      let g = row_start_lem (w * (2 * t) + left) w y in
      let at : k ≡ row_start 0 (2 * a) y + x = omega (arith, f) in
      ap (λ (f : Buffer). f k) (decode_lem src dst w h left t a b ha hb)
      ∙ split_rows_outside src a a w (omega arith) b u v s luma k (inl e) (inl (omega (arith, e)))
      ∙ ap luma at
      ∙ copy_rows_inside src (2 * a) w (2 * a) (2 * b) y x (w * (2 * t) + left) 0 dst (omega arith)
          hy hx
      ∙ ap src (omega (arith, g))

  decoded_u :
      (x y : ℕ)
      → x < a
      → y < b
      → decoded (i420_u (2 * a) (2 * b) x y) ≡ src (w * h + w * (t + y) + left + 2 * x)
  decoded_u x y hx hy =
      let u = 2 * a * (2 * b) in
      let v = u + a * b in
      let s = w * (2 * t) + left + w * (h - t) in
      let d = row_start_lem u a b in
      let at : i420_u (2 * a) (2 * b) x y ≡ row_start u a y + x =
        omega (arith, row_start_lem u a y, ap (λ (z : ℕ). z * y) (half a)) in
      ap decoded at
      ∙ ap (λ (f : Buffer). f (row_start u a y + x)) (decode_lem src dst w h left t a b ha hb)
      ∙ split_rows_u src a a w (omega arith) b y x u v s luma hy hx (omega (arith, d))
      ∙ ap src (omega (arith, chroma_start w h left t y inside))

  decoded_v :
      (x y : ℕ)
      → x < a
      → y < b
      → decoded (i420_v (2 * a) (2 * b) x y) ≡ src (w * h + w * (t + y) + left + (2 * x + 1))
  decoded_v x y hx hy =
      let u = 2 * a * (2 * b) in
      let v = u + a * b in
      let s = w * (2 * t) + left + w * (h - t) in
      let d = row_start_lem u a b in
      let at : i420_v (2 * a) (2 * b) x y ≡ row_start v a y + x = omega (
        arith,
        row_start_lem v a y,
        ap (λ (z : ℕ). z * y) (half a),
        ap (λ (z : ℕ). z * (2 * b / 2)) (half a),
        ap (λ (z : ℕ). a * z) (half b),
      ) in
      ap decoded at
      ∙ ap (λ (f : Buffer). f (row_start v a y + x)) (decode_lem src dst w h left t a b ha hb)
      ∙ split_rows_v src a a w (omega arith) b y x u v s luma hy hx (omega (arith, d))
      ∙ ap src (omega (arith, chroma_start w h left t y inside))

-- For a rectangle that starts at an even column and row and has an even width and height, the
-- decoder's conversion gives every pixel its luma, and every square of four pixels its chroma, from
-- the picture at the place of the rectangle.
pub decode_pixel :
    (src dst : Buffer) (w h l t a b x y : ℕ)
    → 0 < a
    → 0 < b
    → t ≤ h
    → x < 2 * a
    → y < 2 * b
    → let out = convert_decoder_output_to_i420 src w h (rect (2 * l) t a b) dst in
      (out (i420_y (2 * a) x y) ≡ src (nv12_y w (2 * l + x) (2 * t + y)))
      × (out (i420_u (2 * a) (2 * b) (x / 2) (y / 2)) ≡ src (nv12_u w h (l + x / 2) (t + y / 2)))
      × (out (i420_v (2 * a) (2 * b) (x / 2) (y / 2)) ≡ src (nv12_v w h (l + x / 2) (t + y / 2)))
decode_pixel src dst w h l t a b x y ha hb inside hx hy = (
  decoded_y src dst w h (2 * l) t a b ha hb inside x y hx hy,
  decoded_u src dst w h (2 * l) t a b ha hb inside (x / 2) (y / 2) (omega arith) (omega arith)
      ∙ ap src (omega arith),
  decoded_v src dst w h (2 * l) t a b ha hb inside (x / 2) (y / 2) (omega arith) (omega arith)
      ∙ ap src (omega arith),
)

-- For a rectangle that starts at an odd column, the other conditions being the same, each sample of U
-- is one of V.
decode_odd_left :
    (src dst : Buffer) (w h l t a b x y : ℕ)
    → 0 < a
    → 0 < b
    → t ≤ h
    → x < a
    → y < b
    → convert_decoder_output_to_i420 src w h
        (rect (2 * l + 1) t a b)
        dst
        (i420_u (2 * a) (2 * b) x y)
      ≡ src (nv12_v w h (l + x) (t + y))
decode_odd_left src dst w h l t a b x y ha hb inside hx hy =
    decoded_u src dst w h (2 * l + 1) t a b ha hb inside x y hx hy ∙ ap src (omega arith)
