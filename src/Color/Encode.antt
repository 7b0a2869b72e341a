-- ===== src/Color/Encode.antt =====
-- convertI420ToEncoderInput takes each sample from its place in I420 to its place in NV12, and the
-- other conversion brings it back. An even width and height are `2 * a` and `2 * b`.
use android_device_xiaomi_la.Common.{
  ℕ, ◌+◌, ◌-◌, ◌*◌, ◌/◌, ◌≤◌, ◌<◌, ◌≡◌, refl, arith, ap, inl, inr, ◌∙◌,
}
use android_device_xiaomi_la.Color.Convert.{
  Buffer, ARect, copy_rows, join_rows, convert_decoder_output_to_i420,
  convert_i420_to_encoder_input, get_encoder_input_buffer_info,
}
use android_device_xiaomi_la.Color.Rows.{
  row_start, row_start_lem, copy_rows_inside, copy_rows_outside, join_rows_inside,
  join_rows_outside,
}
use android_device_xiaomi_la.Color.Formats.{
  i420_y, i420_u, i420_v, nv12_y, nv12_u, nv12_v, rect, half, before_end,
}
use android_device_xiaomi_la.Color.Decode.{decode_pixel}

-- What the encoder's conversion computes for an even width and height.
encode_lem :
    (src dst : Buffer) (a b w h : ℕ) (r : ARect)
    → convert_i420_to_encoder_input src (2 * a) (2 * b) w h r dst
      ≡ join_rows b a src
          (2 * a * (2 * b))
          (2 * a * (2 * b) + a * b)
          a
          (w * h)
          w
          (copy_rows (2 * b) (2 * a) src 0 (2 * a) 0 w dst)
unfolding convert_i420_to_encoder_input
encode_lem src dst a b w h r = rw (half a, half b) refl

-- For an even width and height that fit in the encoder's picture, the encoder's conversion gives every
-- pixel its luma, and every square of four pixels its chroma.
pub encode_pixel :
    (src dst : Buffer) (a b w h : ℕ) (r : ARect) (x y : ℕ)
    → 2 * a ≤ w
    → 2 * b ≤ h
    → x < 2 * a
    → y < 2 * b
    → let out = convert_i420_to_encoder_input src (2 * a) (2 * b) w h r dst in
      (out (nv12_y w x y) ≡ src (i420_y (2 * a) x y))
      × (out (nv12_u w h (x / 2) (y / 2)) ≡ src (i420_u (2 * a) (2 * b) (x / 2) (y / 2)))
      × (out (nv12_v w h (x / 2) (y / 2)) ≡ src (i420_v (2 * a) (2 * b) (x / 2) (y / 2)))
encode_pixel src dst a b w h r x y hw hh hx hy =
    let u = 2 * a * (2 * b) in
    let v = u + a * b in
    let luma : Buffer = copy_rows (2 * b) (2 * a) src 0 (2 * a) 0 w dst in
    let out : Buffer = convert_i420_to_encoder_input src (2 * a) (2 * b) w h r dst in
    let all = encode_lem src dst a b w h r in
    let k = w * y + x in
    let e = before_end w h x y (omega arith) (omega arith) in
    let at : k ≡ row_start 0 w y + x = omega (arith, row_start_lem 0 w y) in
    let pair =
      join_rows_inside src a a w hw b (y / 2) (x / 2) u v (w * h) luma (omega arith)
        (omega arith) in
    let to_u : nv12_u w h (x / 2) (y / 2) ≡ row_start (w * h) w (y / 2) + 2 * (x / 2) =
      omega (arith, row_start_lem (w * h) w (y / 2)) in
    let to_v : nv12_v w h (x / 2) (y / 2) ≡ row_start (w * h) w (y / 2) + (2 * (x / 2) + 1) =
      omega (arith, row_start_lem (w * h) w (y / 2)) in
    (
      ap (λ (f : Buffer). f k) all
          ∙ join_rows_outside src a a w hw b u v (w * h) luma k (inl e)
          ∙ ap luma at
          ∙ copy_rows_inside src (2 * a) (2 * a) w (2 * b) y x 0 0 dst hw hy hx
          ∙ ap src (omega (arith, row_start_lem 0 (2 * a) y)),
      ap out to_u
          ∙ ap (λ (f : Buffer). f (row_start (w * h) w (y / 2) + 2 * (x / 2))) all
          ∙ pair.0
          ∙ ap src (omega (arith, row_start_lem u a (y / 2), ap (λ (z : ℕ). z * (y / 2)) (half a))),
      ap out to_v
          ∙ ap (λ (f : Buffer). f (row_start (w * h) w (y / 2) + (2 * (x / 2) + 1))) all
          ∙ pair.1
          ∙ ap src (
              omega (
                arith,
                row_start_lem v a (y / 2),
                ap (λ (z : ℕ). z * (y / 2)) (half a),
                ap (λ (z : ℕ). z * (2 * b / 2)) (half a),
                ap (λ (z : ℕ). a * z) (half b),
              )),
    )

-- A picture of even width and height that the encoder's conversion puts into a larger one comes back
-- from the decoder's conversion of that part, sample for sample.
pub decode-encode :
    (src mid dst : Buffer) (a b w h : ℕ) (r : ARect) (x y : ℕ)
    → 2 * a ≤ w
    → 2 * b ≤ h
    → x < 2 * a
    → y < 2 * b
    → let out =
        convert_decoder_output_to_i420
          (convert_i420_to_encoder_input src (2 * a) (2 * b) w h r mid)
          w
          h
          (rect 0 0 a b)
          dst in
      (out (i420_y (2 * a) x y) ≡ src (i420_y (2 * a) x y))
      × (out (i420_u (2 * a) (2 * b) (x / 2) (y / 2))
          ≡ src (i420_u (2 * a) (2 * b) (x / 2) (y / 2)))
      × (out (i420_v (2 * a) (2 * b) (x / 2) (y / 2))
          ≡ src (i420_v (2 * a) (2 * b) (x / 2) (y / 2)))
decode-encode src mid dst a b w h r x y hw hh hx hy =
    let nv12 = convert_i420_to_encoder_input src (2 * a) (2 * b) w h r mid in
    let e = encode_pixel src mid a b w h r x y hw hh hx hy in
    let d = decode_pixel nv12 dst w h 0 0 a b x y (omega arith) (omega arith) (omega arith) hx hy in
    let at_y : nv12_y w (2 * 0 + x) (2 * 0 + y) ≡ nv12_y w x y = omega arith in
    let at_u : nv12_u w h (0 + x / 2) (0 + y / 2) ≡ nv12_u w h (x / 2) (y / 2) = omega arith in
    let at_v : nv12_v w h (0 + x / 2) (0 + y / 2) ≡ nv12_v w h (x / 2) (y / 2) = omega arith in
    (d.0 ∙ ap nv12 at_y ∙ e.0, d.1 ∙ ap nv12 at_u ∙ e.1, d.2 ∙ ap nv12 at_v ∙ e.2)

-- With the geometry that is reported for an even width and height, the encoder's conversion gives
-- every sample of the picture its place within the reported size of the buffer, changes nothing
-- beyond that size, and the reported rectangle is the whole picture.
pub buffer_info_fits :
    (src dst : Buffer) (a b x y k : ℕ)
    → x < 2 * a
    → y < 2 * b
    → let (w, h, r, size) = get_encoder_input_buffer_info (2 * a) (2 * b) in
      let out = convert_i420_to_encoder_input src (2 * a) (2 * b) w h r dst in
      (size ≤ k → out k ≡ dst k)
      × ((nv12_y w x y < size) × (out (nv12_y w x y) ≡ src (i420_y (2 * a) x y)))
      × ((nv12_u w h (x / 2) (y / 2) < size)
          × (out (nv12_u w h (x / 2) (y / 2)) ≡ src (i420_u (2 * a) (2 * b) (x / 2) (y / 2))))
      × ((nv12_v w h (x / 2) (y / 2) < size)
          × (out (nv12_v w h (x / 2) (y / 2)) ≡ src (i420_v (2 * a) (2 * b) (x / 2) (y / 2))))
      × (r.right + 1 - r.left ≡ w)
      × (r.bottom + 1 - r.top ≡ h)
unfolding get_encoder_input_buffer_info
buffer_info_fits src dst a b x y k hx hy =
    let w = 2 * a in
    let h = 2 * b in
    let r = (get_encoder_input_buffer_info w h).2 in
    let e = before_end w h x y hx hy in
    let f = before_end w b (2 * (x / 2) + 1) (y / 2) (omega arith) (omega arith) in
    let size : w * h * 3 / 2 ≡ 6 * (a * b) = omega arith in
    let area : w * h ≡ 4 * (a * b) = omega arith in
    let half_area : w * b ≡ 2 * (a * b) = omega arith in
    let luma : Buffer = copy_rows h w src 0 w 0 w dst in
    let pixel = encode_pixel src dst a b w h r x y (omega arith) (omega arith) hx hy in
    (
      λ beyond.
          ap (λ (g : Buffer). g k) (encode_lem src dst a b w h r)
          ∙ join_rows_outside src a a w (omega arith) b (w * h) (w * h + a * b) (w * h) luma k
              (inr (omega (arith, row_start_lem (w * h) w b, beyond, size, area, half_area)))
          ∙ copy_rows_outside src w w w h 0 0 dst k (omega arith)
              (inr (omega (arith, row_start_lem 0 w h, beyond, size, area))),
      (omega (arith, e, f, size), pixel.0),
      (omega (arith, e, f, size), pixel.1),
      (omega (arith, e, f, size), pixel.2),
      omega arith,
      omega arith,
    )
