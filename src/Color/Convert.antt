-- ===== src/Color/Convert.antt =====
-- libcolor/ColorConvert.cpp. A buffer is the bytes behind a pointer, a function from offsets; a
-- conversion takes the buffer that it writes to and returns it. Sizes and edges are not negative, and
-- a rectangle's right and bottom edges are not before its left and top ones.
use android_device_xiaomi_la.Common.{
  ℕ, zero, suc, ◌+◌, ◌-◌, ◌*◌, ◌/◌, ◌&&◌, leb, ltb, ◌==◌, if◌then◌else◌,
}

abbrev pub Buffer : Type 0
Buffer = ℕ → ℕ

-- ARect, with edges that are inside.
pub record ARect : Type 0 where
  pub left : ℕ
  pub top : ℕ
  pub right : ℕ
  pub bottom : ℕ

-- `p[i] = v`
abbrev pub put : ℕ → ℕ → Buffer → Buffer
put i v p = λ k. if k == i then v else p k

-- memcpy(p + to, q + from, n)
abbrev pub memcpy : ℕ → Buffer → ℕ → ℕ → Buffer → Buffer
memcpy to q from n p = λ k. if leb to k && ltb k (to + n) then q (from + (k - to)) else p k

-- A loop over rows that copies `n` bytes of each, with the pointers and their steps.
unfoldable pub copy_rows : ℕ → ℕ → Buffer → ℕ → ℕ → ℕ → ℕ → Buffer → Buffer
copy_rows zero n q from from_step to to_step p = p
copy_rows (suc rows) n q from from_step to to_step p =
    copy_rows rows n q (from + from_step) from_step (to + to_step) to_step (memcpy to q from n p)

-- The inner loop of convertDecoderOutputToI420 for the `n` values of `x` from a given one on:
-- pDst_u, pDst_v and pSrc_uv are offsets.
unfoldable pub split_row : ℕ → ℕ → ℕ → ℕ → Buffer → ℕ → Buffer → Buffer
split_row zero x u v q uv p = p
split_row (suc n) x u v q uv p =
    split_row n (suc x) u v q uv
      (put (v + x) (q (uv + (2 * x + 1))) (put (u + x) (q (uv + 2 * x)) p))

-- The loop around it.
unfoldable pub split_rows : ℕ → ℕ → ℕ → ℕ → ℕ → Buffer → ℕ → ℕ → Buffer → Buffer
unfolding split_row
split_rows zero n u v stride q uv step p = p
split_rows (suc rows) n u v stride q uv step p =
    split_rows rows n (u + stride) (v + stride) stride q (uv + step) step (split_row n 0 u v q uv p)

unfoldable pub convert_decoder_output_to_i420 : Buffer → ℕ → ℕ → ARect → Buffer → Buffer
unfolding copy_rows split_rows
convert_decoder_output_to_i420 src_bits src_width src_height src_rect dst_bits =
    let src_y = src_width * src_rect.top + src_rect.left in
    let src_uv = src_y + src_width * (src_height - src_rect.top / 2) in
    let dst_width = src_rect.right + 1 - src_rect.left in
    let dst_height = src_rect.bottom + 1 - src_rect.top in
    let dst_u = dst_width * dst_height in
    let dst_v = dst_u + dst_width / 2 * dst_height / 2 in
    split_rows ((dst_height + 1) / 2) ((dst_width + 1) / 2) dst_u dst_v (dst_width / 2) src_bits
      src_uv src_width
      (copy_rows dst_height dst_width src_bits src_y src_width 0 dst_width dst_bits)

-- The inner loop of convertI420ToEncoderInput, for the `n` values of `j` from a given one on; `k` is
-- 2 * j.
unfoldable pub join_row : ℕ → ℕ → Buffer → ℕ → ℕ → ℕ → Buffer → Buffer
join_row zero j q u v uv p = p
join_row (suc n) j q u v uv p =
    join_row n (suc j) q u v uv
      (put (uv + (2 * j + 1)) (q (v + j)) (put (uv + 2 * j) (q (u + j)) p))

unfoldable pub join_rows : ℕ → ℕ → Buffer → ℕ → ℕ → ℕ → ℕ → ℕ → Buffer → Buffer
unfolding join_row
join_rows zero n q u v stride uv step p = p
join_rows (suc rows) n q u v stride uv step p =
    join_rows rows n q (u + stride) (v + stride) stride (uv + step) step (join_row n 0 q u v uv p)

-- dstRect is not used by the code.
unfoldable pub convert_i420_to_encoder_input : Buffer → ℕ → ℕ → ℕ → ℕ → ARect → Buffer → Buffer
unfolding copy_rows join_rows
convert_i420_to_encoder_input src_bits src_width src_height dst_width dst_height dst_rect dst_bits =
    let src_u = src_width * src_height in
    let src_v = src_u + src_width / 2 * (src_height / 2) in
    join_rows (src_height / 2) (src_width / 2) src_bits src_u src_v (src_width / 2)
      (dst_width * dst_height) dst_width
      (copy_rows src_height src_width src_bits 0 src_width 0 dst_width dst_bits)

-- getEncoderInputBufferInfo: width, height, rectangle and size, for a size that is not empty.
unfoldable pub get_encoder_input_buffer_info : ℕ → ℕ → ℕ × ℕ × ARect × ℕ
get_encoder_input_buffer_info actual_width actual_height = (
  actual_width,
  actual_height,
  record { left = 0; top = 0; right = actual_width - 1; bottom = actual_height - 1 },
  actual_width * actual_height * 3 / 2,
)
