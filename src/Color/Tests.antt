-- ===== src/Color/Tests.antt =====
-- The theorems about the colour conversions on a picture of 4 x 2 pixels, whose bytes are their own
-- offsets.
use android_device_xiaomi_la.Common.{◌+◌, ◌-◌, ◌*◌, ◌/◌, ◌<◌, ◌≤◌, ◌≡◌, refl, arith}
use android_device_xiaomi_la.Color.Convert.{
  Buffer, copy_rows, join_rows, join_row, convert_decoder_output_to_i420,
  convert_i420_to_encoder_input, get_encoder_input_buffer_info,
}
use android_device_xiaomi_la.Color.Formats.{i420_y, i420_u, i420_v, nv12_y, nv12_u, nv12_v, rect}
use android_device_xiaomi_la.Color.Decode.{decode_pixel}
use android_device_xiaomi_la.Color.Encode.{encode_pixel, decode-encode, buffer_info_fits}

abbrev picture : Buffer
picture = λ k. k

abbrev blank : Buffer
blank = λ k. 0

-- The first sample of V in a picture of 4 x 2 pixels at offset 10 goes next to that of U.
first_v : convert_i420_to_encoder_input picture 4 2 4 2 (rect 0 0 2 1) blank 9 ≡ 10
unfolding convert_i420_to_encoder_input copy_rows join_rows join_row
first_v = refl

decode_pixel_example :
    let out = convert_decoder_output_to_i420 picture 8 6 (rect (2 * 1) 1 2 1) blank in
    (out (i420_y (2 * 2) 3 1) ≡ picture (nv12_y 8 (2 * 1 + 3) (2 * 1 + 1)))
    × (out (i420_u (2 * 2) (2 * 1) (3 / 2) (1 / 2)) ≡ picture (nv12_u 8 6 (1 + 3 / 2) (1 + 1 / 2)))
    × (out (i420_v (2 * 2) (2 * 1) (3 / 2) (1 / 2)) ≡ picture (nv12_v 8 6 (1 + 3 / 2) (1 + 1 / 2)))
decode_pixel_example =
    decode_pixel picture blank 8 6 1 1 2 1 3 1 (omega arith) (omega arith) (omega arith)
      (omega arith) (omega arith)

encode_pixel_example :
    let out = convert_i420_to_encoder_input picture (2 * 2) (2 * 1) 8 6 (rect 0 0 2 1) blank in
    (out (nv12_y 8 3 1) ≡ picture (i420_y (2 * 2) 3 1))
    × (out (nv12_u 8 6 (3 / 2) (1 / 2)) ≡ picture (i420_u (2 * 2) (2 * 1) (3 / 2) (1 / 2)))
    × (out (nv12_v 8 6 (3 / 2) (1 / 2)) ≡ picture (i420_v (2 * 2) (2 * 1) (3 / 2) (1 / 2)))
encode_pixel_example =
    encode_pixel picture blank 2 1 8 6 (rect 0 0 2 1) 3 1 (omega arith) (omega arith) (omega arith)
      (omega arith)

decode-encode_example :
    let out =
      convert_decoder_output_to_i420
        (convert_i420_to_encoder_input picture (2 * 2) (2 * 1) 8 6 (rect 0 0 2 1) blank)
        8
        6
        (rect 0 0 2 1)
        blank in
    (out (i420_y (2 * 2) 3 1) ≡ picture (i420_y (2 * 2) 3 1))
    × (out (i420_u (2 * 2) (2 * 1) (3 / 2) (1 / 2))
        ≡ picture (i420_u (2 * 2) (2 * 1) (3 / 2) (1 / 2)))
    × (out (i420_v (2 * 2) (2 * 1) (3 / 2) (1 / 2))
        ≡ picture (i420_v (2 * 2) (2 * 1) (3 / 2) (1 / 2)))
decode-encode_example =
    decode-encode picture blank blank 2 1 8 6 (rect 0 0 2 1) 3 1 (omega arith) (omega arith)
      (omega arith) (omega arith)

buffer_info_fits_example :
    let (w, h, r, size) = get_encoder_input_buffer_info (2 * 2) (2 * 1) in
    let out = convert_i420_to_encoder_input picture (2 * 2) (2 * 1) w h r blank in
    (size ≤ 12 → out 12 ≡ blank 12)
    × ((nv12_y w 3 1 < size) × (out (nv12_y w 3 1) ≡ picture (i420_y (2 * 2) 3 1)))
    × ((nv12_u w h (3 / 2) (1 / 2) < size)
        × (out (nv12_u w h (3 / 2) (1 / 2)) ≡ picture (i420_u (2 * 2) (2 * 1) (3 / 2) (1 / 2))))
    × ((nv12_v w h (3 / 2) (1 / 2) < size)
        × (out (nv12_v w h (3 / 2) (1 / 2)) ≡ picture (i420_v (2 * 2) (2 * 1) (3 / 2) (1 / 2))))
    × (r.right + 1 - r.left ≡ w)
    × (r.bottom + 1 - r.top ≡ h)
buffer_info_fits_example = buffer_info_fits picture blank 2 1 3 1 12 (omega arith) (omega arith)
