-- ===== src/Pstore/Kernel.antt =====
-- The system calls of pstore/pstore-clean.c. What the program asks of the kernel is recorded, the last
-- call first, and what the kernel answers may depend on all that was asked before.
use android_device_xiaomi_la.Common.{
  ℕ, ◌+◌, Bool, false, ◌&&◌, ◌||◌, List, [], ◌∷◌, ◌++◌, Option, some, take, Text, equal,
}

-- O_RDONLY; O_CREAT | O_TRUNC | O_WRONLY; O_CREAT | O_APPEND | O_WRONLY
pub data Mode : Type 0 where
  reading truncating appending : Mode

-- The calls with their answers: a descriptor, the bytes read, the number of bytes accepted, or
-- failure; whether unlink, umount of MNT and rmdir of MNT succeeded.
pub data Effect : Type 0 where
  opens : Mode → Text → Option ℕ → Effect
  reads : ℕ → Option Text → Effect
  writes : ℕ → Text → Option ℕ → Effect
  closes : ℕ → Effect
  unlinks : Text → Bool → Effect
  unmounts removes_dir : Bool → Effect

abbrev pub Log : Type 0
Log = List Effect

pub record Kernel : Type 0 where
  pub open_file : Mode → Text → Log → Option ℕ
  pub read : ℕ → Log → Option Text
  pub write : ℕ → Text → Log → Option ℕ
  pub unlink : Text → Log → Bool
  pub umount : Log → Bool
  pub rmdir : Log → Bool
  -- stat(path) == 0
  pub exists : Text → Log → Bool
  -- what fgets gives of /proc/mounts, nothing if it cannot be opened
  pub mounts : Log → List Text
  -- what readdir gives of MNT; `none` if opendir fails
  pub entries : Log → Option (List Text)
  -- what scandir gives of MNT, sorted by name; `none` if it fails
  pub scandir : Log → Option (List Text)

-- All bytes that were read, the first one first.
abbrev pub received : Log → Text
received [] = []
received (reads fd (some bytes) ∷ log) = received log ++ bytes
received (_ ∷ log) = received log

-- All bytes that were accepted from write.
abbrev pub sent : Log → Text
sent [] = []
sent (writes fd bytes (some n) ∷ log) = sent log ++ take n bytes
sent (_ ∷ log) = sent log

abbrev pub count_opens : Log → ℕ
count_opens [] = 0
count_opens (opens mode path (some fd) ∷ log) = count_opens log + 1
count_opens (_ ∷ log) = count_opens log

abbrev pub count_closes : Log → ℕ
count_closes [] = 0
count_closes (closes fd ∷ log) = count_closes log + 1
count_closes (_ ∷ log) = count_closes log

abbrev pub count_unmounts : Log → ℕ
count_unmounts [] = 0
count_unmounts (unmounts done ∷ log) = count_unmounts log + 1
count_unmounts (_ ∷ log) = count_unmounts log

abbrev pub count_rmdirs : Log → ℕ
count_rmdirs [] = 0
count_rmdirs (removes_dir done ∷ log) = count_rmdirs log + 1
count_rmdirs (_ ∷ log) = count_rmdirs log

-- Whether the file was removed.
abbrev pub unlinked : Text → Log → Bool
unlinked path [] = false
unlinked path (unlinks p done ∷ log) = (done && equal path p) || unlinked path log
unlinked path (_ ∷ log) = unlinked path log

-- Whether the file system was unmounted.
abbrev pub unmounted : Log → Bool
unmounted [] = false
unmounted (unmounts done ∷ log) = done || unmounted log
unmounted (_ ∷ log) = unmounted log

-- The reads since the last open.
abbrev pub count_reads : Log → ℕ
count_reads [] = 0
count_reads (opens mode path fd ∷ log) = 0
count_reads (reads fd bytes ∷ log) = count_reads log + 1
count_reads (_ ∷ log) = count_reads log
