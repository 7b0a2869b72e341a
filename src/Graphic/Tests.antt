-- ===== src/Graphic/Tests.antt =====
-- The theorems about the graphic buffers at concrete inputs, over the small gralloc of Model.
use android_device_xiaomi_la.Common.{
  some, ℕ, ◌≡◌, ◌↔◌, ◌≤◌, ◌<◌, refl, true, false, List, [], ◌∷◌, ◌++◌, none, arith, pos, negsuc, ok,
}
use android_device_xiaomi_la.Graphic.Gralloc.{Rect}
use android_device_xiaomi_la.Graphic.Allocator.{System, alloc, free, total}
use android_device_xiaomi_la.Graphic.Mapper
use android_device_xiaomi_la.Graphic.Buffer
use android_device_xiaomi_la.Graphic.Mapper.{Module, lock_async, lock_async_ycbcr}
use android_device_xiaomi_la.Graphic.Buffer.{GraphicBuffer, own_data, blank, destroy}
use android_device_xiaomi_la.Graphic.Flatten.{
  flatten, unflatten, magic, get_flattened_size, get_fd_count,
}
use android_device_xiaomi_la.Graphic.Accounting.{IsTracked, Call, run, run-IsTracked, free-alloc}
use android_device_xiaomi_la.Graphic.Fences.{Handles, lock_async-Handles}
use android_device_xiaomi_la.Graphic.Locking.{Guarded, locks-Guarded}
use android_device_xiaomi_la.Graphic.Life.{Request}
use android_device_xiaomi_la.Graphic.Receives.{Message, IsSound, receives, receives-native}
use android_device_xiaomi_la.Graphic.RoundTrip.{Rebuilt, unflatten-flatten}
use android_device_xiaomi_la.Graphic.Cursors.{unflatten_reads_beyond}
use android_device_xiaomi_la.Graphic.Model.{Store, gralloc, handled, handles, natives}

abbrev nothing : Store
nothing = record { last = 0; live = λ q. false; native = λ q. false; fds = λ h. []; ints = λ h. [] }

abbrev system : System gralloc
system = record { world = nothing; list = [] }

system-IsTracked : IsTracked gralloc handled system
system-IsTracked = record { keyed = tt; tracked = λ q. ground arith }

abbrev calls : List Call
calls = Call.allocates 20 10 1 0 0 ∷ Call.allocates 0 5 1 0 0 ∷ Call.frees 1 ∷ Call.frees 7 ∷ []

run-IsTracked_example : IsTracked gralloc handled (run gralloc calls system)
run-IsTracked_example = run-IsTracked gralloc handled calls system system-IsTracked

free-alloc_example :
    let (_, handle, stride, sys) = alloc gralloc 20 10 1 0 0 system in
    (total sys.list ≡ 800) × ((free gralloc handle sys).1.list ≡ [])
unfolding alloc free total
free-alloc_example = free-alloc gralloc handled 20 10 1 0 0 system system-IsTracked refl refl

abbrev buffer : GraphicBuffer
buffer = record {
  width = 20;
  height = 10;
  stride = 20;
  format = 1;
  usage = 0;
  handle = 5;
  owner = own_data;
  init_check = ok;
  wrapped = 0;
  id = 0x7_0000_0003;
}

abbrev sender : Store
sender = record nothing { last = 5; fds = λ h. 30 ∷ []; ints = λ h. 8 ∷ 9 ∷ [] }

abbrev small : Request
small = record { width = 8; height = 8; format = 1; usage = 0 }

abbrev huge : Request
huge = record { width = 100; height = 100; format = 1; usage = 0 }

abbrev old_module : Module
old_module = record {
  async = false;
  has_lock_ycbcr = true;
  has_lock_async_ycbcr = false;
  answer = λ log. ok;
  out_fence = λ log. negsuc 0;
}

abbrev corner : Rect
corner = record { left = pos 2; top = pos 1; right = pos 12; bottom = pos 10 }

lock_async-Handles_example :
    Handles 9 (pos 9) true 1 [] (lock_async old_module 5 0 corner (pos 9) []).1
    × Handles 9 (pos 9) true 1 [] (lock_async_ycbcr old_module 5 0 corner (pos 9) []).1
lock_async-Handles_example = lock_async-Handles old_module 9 5 0 corner (pos 9) []

locks-Guarded_example :
    Guarded old_module corner buffer []
      (Mapper.lock old_module 5 0 corner [])
      (Buffer.lock old_module 0 corner buffer [])
    × Guarded old_module corner buffer []
        (Mapper.lock_ycbcr old_module 5 0 corner [])
        (Buffer.lock_ycbcr old_module 0 corner buffer [])
    × Guarded old_module corner buffer []
        (Mapper.lock_async old_module 5 0 corner (pos 9) [])
        (Buffer.lock_async old_module 0 corner (pos 9) buffer [])
    × Guarded old_module corner buffer []
        (Mapper.lock_async_ycbcr old_module 5 0 corner (pos 9) [])
        (Buffer.lock_async_ycbcr old_module 0 corner (pos 9) buffer [])
locks-Guarded_example =
    locks-Guarded old_module 0 corner (pos 9) buffer [] (omega arith) (omega arith)

abbrev receiver : GraphicBuffer
receiver = record buffer { width = 1; height = 1; handle = 0; id = 4 }

unflatten-flatten_example :
    let (_, words, fds, _) = flatten gralloc buffer sender 48 1 in
    Rebuilt gralloc handles buffer sender 52 2
      (unflatten gralloc (words ++ (77 ∷ [])) 52 (fds ++ (31 ∷ [])) 2 receiver system)
unfolding get_flattened_size get_fd_count
unflatten-flatten_example =
    unflatten-flatten gralloc handles buffer receiver sender system 48 1 52 2 (77 ∷ []) (31 ∷ [])
      (omega arith) (omega arith) (omega arith) (omega arith) (omega arith) (omega arith)
      (omega arith) (omega arith) (omega arith) refl

abbrev short : List ℕ
short = magic ∷ 1 ∷ 1 ∷ 1 ∷ 1 ∷ 0 ∷ 0 ∷ 4 ∷ []

unflatten_reads_beyond_example :
    (unflatten gralloc short 32 [] 0 receiver system ≡ none)
    ↔ ((32 ≤ 32) × (32 < 40) × (magic ≡ magic))
unflatten_reads_beyond_example =
    unflatten_reads_beyond gralloc short [] 32 0 receiver system refl refl

-- Two messages with one descriptor and one int each; the second one has too few bytes.
abbrev message : Message
message = record {
  words = magic ∷ 8 ∷ 8 ∷ 8 ∷ 1 ∷ 0 ∷ 7 ∷ 3 ∷ 1 ∷ 1 ∷ 5 ∷ [];
  size = 44;
  fds = 30 ∷ [];
  count = 1;
}

abbrev messages : List Message
messages = message ∷ record message { size = 40 } ∷ message ∷ []

-- Another handle, 1, is there.
abbrev others : System gralloc
others = record { world = (gralloc.create 1 0 nothing).1; list = [] }

message-IsSound : IsSound message
message-IsSound = record { bytes = omega arith; descriptors = omega arith; whole = omega arith }

receives-native_example :
    (b : GraphicBuffer) × (sys : System gralloc) × (receives gralloc messages (blank 4) others
      ≡ some (b, sys))
    × (natives.native (destroy gralloc b sys).world 1 ≡ natives.native others.world 1)
receives-native_example =
    receives-native gralloc natives messages 4 others 1 (λ h w. refl)
      (
        message-IsSound,
        (omega arith, omega arith),
        (
          record { bytes = omega arith; descriptors = omega arith; whole = omega arith },
          (omega arith, omega arith),
          (message-IsSound, (omega arith, omega arith), tt),
        ),
      )
