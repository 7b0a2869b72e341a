-- ===== src/Graphic/Fence.antt =====
-- shim/shim_fence.cpp: Fence::wait with an unsigned timeout, for binaries that expect it.
use android_device_xiaomi_la.Common.{
  ℕ, ◌^◌, ◌<◌, ◌≤◌, ◌≡◌, ap, ℤ, pos, negsuc, pos_part, neg_part, bits32, signed32, Status, arith,
}

-- The call of Fence::wait(int), a parameter; 2^32 - 1 becomes -1.
unfoldable pub wait_unsigned : (ℤ → Status) → ℕ → Status
wait_unsigned wait timeout = wait (signed32 timeout)

-- A caller that passes an int through the unsigned parameter waits for that int.
wait_unsigned-bits32 :
    (wait : ℤ → Status) (timeout : ℤ)
    → pos_part timeout < 2 ^ 31
    → neg_part timeout ≤ 2 ^ 31
    → wait_unsigned wait (bits32 timeout) ≡ wait timeout
unfolding wait_unsigned
wait_unsigned-bits32 wait (pos n) h k = ap wait (ground arith)
wait_unsigned-bits32 wait (negsuc n) h k = ap wait (ground arith)
