-- ===== src/Lib.antt =====
-- A model of the native code of the device tree for the Xiaomi Mi Pad 2 (latte), an x86 tablet: the
-- replacement libraries that stand between vendor binaries and the platform, and the hardware
-- modules for the lights and for power hints.
--
-- The parts, and the files that model them
--
-- shim/camera/CameraMetadata.cpp: a C++ object around a block of the C library camera_metadata. The
--   object has a block or NULL and a lock; it owns its block. Camera/Library is the C library, a
--   parameter: blocks are addresses in a store of any type, with the laws that are relied on
--   (IsAllocator: which blocks are allocated; IsMeasured: what fits in a block). Camera/Object models
--   the constructors, assignment, getAndLock, unlock, release, clear, acquire, sort, swap;
--   Camera/Update the methods append, update, updateImpl, exists, find, erase and resizeIfNeeded;
--   Camera/Parcel reading from and writing to a Parcel, also a parameter (IsFaithful: what is written
--   is read back; IsCopier: copies are new blocks). Camera/Calls is a client: one constructor
--   per method that takes no other object and no parcel, and runs of calls; Camera/Methods adds the
--   methods with another object, readFromParcel and the destructor. The proofs are in Lock and Locked,
--   Blocks, Ownership and Custody, Resize, Transfer, Receive, Guards, Typed and TypedRuns (the types of
--   the entries), View, Succeed, Outcomes, Refine, Observe, Frame, Copies, Pair (two objects on one
--   memory), Moves and Joint (their calls on each other: assignment, acquire and swap) and Exchange
--   (an object that is written to a parcel and read by another); Camera/Maps is what the map views
--   rely on of the entries of a block.
-- liblight/lights.c: the lights module. Lights/Board has the sysfs files, what they hold, what was
--   written to them, and the kernel as a parameter that may refuse a write; Lights/Speaker the LED
--   logic (set_speaker_light_locked); Lights/Module the three light states, the five set_light
--   functions and open_lights. Lights/Look describes what the LED is to show. The proofs are in
--   Display, Bounds, Brightness, Runs.
-- libpower/power.c: the power module. Power/Hints has its state with the static variables of
--   intel_power_hint, and one function per stage of that function; Power/Sysfs has sysfs_write and
--   sysfs_read on a log of system calls, and makes the writes of the hints by means of them. The
--   proofs are in Invariant, Boosts, Performed and Reading.
-- shim/ui/GraphicBufferAllocator.cpp, GraphicBufferMapper.cpp, GraphicBuffer.cpp: graphic buffers.
--   Graphic/Gralloc is the gralloc device and native_handle, a parameter. Graphic/Allocator has the
--   list of allocations with alloc and free, Graphic/Dump its dump; Graphic/Mapper the lock calls
--   with their fences, as a log of effects; Graphic/Buffer the class GraphicBuffer on top of both;
--   Graphic/Flatten its flatten and unflatten. The proofs are in Accounting, Fences, Locking,
--   Lifetime, Life (a buffer from construction to destruction), Native and Receives (a buffer that
--   receives others), RoundTrip and Cursors.
-- shim/gui/SensorManager.cpp: the client of the sensor service. Sensors/Manager has its state and
--   methods over a platform of binder calls and of malloc and free, a parameter (IsService: a service
--   comes with NO_ERROR and only then; Sensors/Memory: which arrays are allocated and what they hold).
--   Sensors/Valid says what holds between calls; Sensors/State is a client that makes calls while the
--   service may die. The proofs are in Connect, Valid, State, Lookup, Queue.
-- pstore/pstore-clean.c: the tool that empties the pstore file system at boot. Pstore/Names has the
--   name under which a rule is found and the rules, over the configuration tree of cutils, a
--   parameter; Pstore/Kernel the system calls, as a log of calls with their answers, which may depend
--   on all calls before; Pstore/Copy filecopy; Pstore/Clean main, one function per label of its jumps.
--   The proofs are in Stripping, Copies, Balance, Ends, Removes, Outcome, Termination, Contents, Report
--   and Success.
-- libcolor/ColorConvert.cpp: Color/Convert has the conversions on buffers of bytes, Color/Formats the
--   places of the samples in I420 and NV12. The proofs are in Rows, Decode, Encode.
-- shim/shim_fence.cpp: Graphic/Fence, one function.
-- Common has what these share: tests on native numbers, lists over native lengths, integers, 32-bit
--   words and the status codes of utils/Errors.h.
-- The parts do not call each other: each is a library of its own. Camera/Model, Camera/Dictionary,
--   Camera/TwoTypes, Graphic/Model, Sensors/Model and the Tests modules give small concrete libraries,
--   at which the theorems are evaluated.
--
-- How the code is modelled
--
-- A method takes the object and the state that it works on, and returns both with its result. A
-- NULL pointer is the address 0. size_t and uintptr_t have 32 bits (the target is x86), and their
-- wrap-around is written out. An int that is a parameter of a light state is an integer without
-- bounds, as its overflow is not defined in C; the same holds for the counter of touches. The
-- locks g_lock and mLock make each call of the lights module and of SensorManager one step. Calls of
-- the other parts are taken one after the other: the allocator calls gralloc before it takes sLock for
-- its list, and what another thread does in between is not modelled. Loops of the sources run over lists and are
-- structural recursion, but for the loops of createEventQueue and filecopy, which have a bound on
-- their rounds and a theorem that says which bound is enough.
--
-- The scaling of a LED, `(int)((float)c / 255.0f * 48.0f)`, is `c * 48 / 255` in whole numbers, which
-- gives the same result for each of the 256 values of a byte. The floats of libpower are a parameter.
--
-- What is not modelled
--
-- Threads that allocate or free graphic buffers at the same time; logging and validation that only logs; CameraMetadata's dump, which only calls the library's; the
-- variants for Exynos and QCOM boards, which this device does not build; usleep; freeing a light
-- device; the conversions that VIDEOEDITOR_INTEL_NV12_VERSION selects, which is not set, and overlapping
-- buffers or inverted rectangles in the others; umask and the memory of the lists of pstore-clean; the
-- forwarding functions of shim/shim_icu53.c; the makefiles, the SELinux policy, the overlays and the
-- init scripts.
pub mod Common
pub mod Camera
pub mod Lights
pub mod Power
pub mod Graphic
pub mod Sensors
pub mod Pstore
pub mod Color
