-- ===== src/Graphic/Model.antt =====
-- A small gralloc, to show that what is assumed of the real one can hold: handles are numbered, and
-- a buffer of 1000 pixels or more cannot be had.
use android_device_xiaomi_la.Common.{
  ℕ, suc, ◌*◌, refl, Bool, not, ◌&&◌, ◌||◌, List, arith, leb, ltb, ◌==◌, if◌then◌else◌, ok,
  no_memory, bad_value,
}
use android_device_xiaomi_la.Graphic.Gralloc.{Gralloc}
use android_device_xiaomi_la.Graphic.Accounting.{IsHandled}
use android_device_xiaomi_la.Graphic.Life.{IsOrderly}
use android_device_xiaomi_la.Graphic.Native.{IsNative}
use android_device_xiaomi_la.Graphic.RoundTrip.{IsHandle}

pub record Store : Type 0 where
  pub last : ℕ
  pub live : ℕ → Bool
  pub native : ℕ → Bool
  pub fds : ℕ → List ℕ
  pub ints : ℕ → List ℕ

abbrev pub is_live : Store → ℕ → Bool
is_live s q = not (q == 0) && (leb q s.last && s.live q)

abbrev pub is_native : Store → ℕ → Bool
is_native s q = not (q == 0) && (leb q s.last && s.native q)

abbrev pub gralloc : Gralloc
gralloc = record {
  World = Store;
  alloc = λ w h f u p s.
      if ltb (w * h) 1000
      then (
        ok,
        suc s.last,
        w,
        record s {
          last = suc s.last;
          live = λ q. q == suc s.last || s.live q;
          native = λ q. not (q == suc s.last) && s.native q;
        },
      )
      else (no_memory, p, 0, s);
  free = λ p s.
      if is_live s p
      then (ok, record s { live = λ q. s.live q && not (q == p) })
      else (bad_value, s);
  alloc_mask = 0xffff;
  bytes_per_pixel = λ f. 4;
  register = λ h s. (ok, s);
  unregister = λ h s. (ok, s);
  create = λ n k s. (
    suc s.last,
    record s {
      last = suc s.last;
      live = λ q. not (q == suc s.last) && s.live q;
      native = λ q. q == suc s.last || s.native q;
    },
  );
  close = λ h s. s;
  delete = λ h s. record s { native = λ q. s.native q && not (q == h) };
  fds = λ s h. s.fds h;
  ints = λ s h. s.ints h;
  fill = λ h f i s. record s {
    fds = λ q. if q == h then f else s.fds q;
    ints = λ q. if q == h then i else s.ints q;
  };
}

abbrev pub handled : IsHandled gralloc
handled = record {
  live = is_live;
  live-alloc = λ w h f u p s q. ground arith;
  alloc_fresh = λ w h f u p s. ground arith;
  live-free = λ p s q. ground arith;
}

abbrev pub handles : IsHandle gralloc
handles = record {
  fds-fill = λ n k f i w a b. ground arith;
  ints-fill = λ n k f i w a b. ground arith;
  fds-register = λ h w. refl;
  ints-register = λ h w. refl;
}

abbrev pub orderly : IsOrderly gralloc handled
orderly = record {
  live_null = λ s. refl;
  free_ok = λ p s own. ground arith;
  alloc_failed = λ w h f u p s bad. ground arith;
}

abbrev pub natives : IsNative gralloc
natives = record {
  native = is_native;
  create_fresh = λ n k w. ground arith;
  native-create = λ n k w q. ground arith;
  native-delete = λ p w q. ground arith;
  native-close = λ p w q. refl;
  native-fill = λ p f i w q. refl;
  native-register = λ p w q. refl;
  native-unregister = λ p w q. refl;
}
