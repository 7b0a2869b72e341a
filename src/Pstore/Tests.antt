-- ===== src/Pstore/Tests.antt =====
-- The theorems about the pstore cleaner on a small kernel: one dump in pstore, each file holds the
-- bytes 7 and 8.
use android_device_xiaomi_la.Common.{
  ℕ, ◌≡◌, refl, sym, ap, ◌∙◌, drop, drop-append, Option, true, ◌&&◌, ◌||◌, [], ◌∷◌, ◌++◌, some,
  none, is_some, length, leb, if◌then◌else◌, Text, text, equal, arith,
}
use mathlib.Core.List.{append-nil}
use android_device_xiaomi_la.Pstore.Names.{
  Config, getbasefilename, scan, action_for, perform_rule_check, action_of, keep,
}
use android_device_xiaomi_la.Pstore.Stripping.{base_of, split, getbasefilename-base_of}
use android_device_xiaomi_la.Pstore.Kernel.{
  Kernel, Log, reading, opens, reads, writes, closes, unlinked, count_reads,
}
use android_device_xiaomi_la.Pstore.Copy.{copy_loop, copy_round, write_chunk, filecopy}
use android_device_xiaomi_la.Pstore.Copies.{IsFull, IsFinite, Copied, last_read, filecopy-Copied}
use android_device_xiaomi_la.Pstore.Clean.{
  dst, path_of, is_fs_mounted, dir_not_empty, unlink_source, move_file, open_dst, append_file,
  perform, clean_file, clean_files, error1, error2, finish, list_files, replace_dst, clean,
}
use android_device_xiaomi_la.Pstore.Ends.{Exited, clean-Exited}
use android_device_xiaomi_la.Pstore.Removes.{removable}
use android_device_xiaomi_la.Pstore.Outcome.{listing, before_scan, clean_spares}
use android_device_xiaomi_la.Pstore.Termination.{clean_ends}
use android_device_xiaomi_la.Pstore.Contents.{IsDisk, progress}
use android_device_xiaomi_la.Pstore.Report.{IsWilling}
use android_device_xiaomi_la.Pstore.Success.{clean_removes_listed}

abbrev contents : Text
contents = 7 ∷ 8 ∷ []

abbrev kernel : Kernel
kernel = record {
  open_file = λ mode path log. some 5;
  read = λ fd log. some (drop (length (progress log)) contents);
  write = λ fd bytes log. some (length bytes);
  unlink = λ path log. true;
  umount = λ log. true;
  rmdir = λ log. true;
  exists = λ path log. true;
  mounts = λ log. text "none /dev/pstore pstore" ∷ [];
  entries = λ log. some (text "." ∷ text "dmesg-efi-1" ∷ []);
  scandir = λ log. some (text "." ∷ text "dmesg-efi-1" ∷ []);
}

abbrev no_config : Config
no_config = record {
  Node = ℕ;
  root = none;
  config_find = λ node name. none;
  config_str = λ node name. none;
}

-- A configuration with the rule `keep` for "dmesg-efi".
abbrev keeping : Config
keeping = record {
  Node = ℕ;
  root = some 0;
  config_find = λ node name.
      if equal name (text "pstore_rules")
      then some 1
      else if equal name (text "dmesg-efi")
      then some 2
      else none;
  config_str = λ node name. some (text "keep");
}

kept : action_for keeping (text "dmesg-efi-1") ≡ keep
unfolding action_for perform_rule_check action_of getbasefilename scan
kept = refl

full : IsFull kernel
full = record { accepts = λ fd bytes log. refl }

abbrev or_empty : Option Text → Text
or_empty none = []
or_empty (some t) = t

-- What is left of the contents after a beginning of them.
drop_progress : (p rest : Text) → p ++ rest ≡ contents → drop (length p) contents ≡ rest
drop_progress p rest e = ap (drop (length p)) (sym e) ∙ drop-append p rest

disk : IsDisk kernel (λ path. contents)
disk = record {
  full = full;
  can_read = λ fd log. refl;
  can_open = λ path log. (refl, refl);
  goes_on = λ fd log bytes rest at r.
      ([], sym (append-nil bytes ∙ ap (or_empty) (sym r) ∙ drop_progress (progress log) rest at));
  at_end = λ fd log rest at r. sym (drop_progress (progress log) rest at) ∙ ap or_empty r;
}

willing : IsWilling kernel
willing = record { can_unlink = λ path log. refl; can_umount = λ log. refl }

-- What a run leaves.
abbrev left : Config → Log
left config = elim (clean kernel config 3 []) [ none ↦ [] | some (good, log) ↦ log ]

left_lem : clean kernel no_config 3 [] ≡ some (true, left no_config)
unfolding clean is_fs_mounted dir_not_empty replace_dst list_files clean_files clean_file perform
    move_file open_dst append_file unlink_source finish error1 error2 filecopy copy_loop copy_round
    write_chunk action_for perform_rule_check
left_lem = refl

removed_dst : unlinked dst (left no_config) ≡ true
unfolding clean is_fs_mounted dir_not_empty replace_dst list_files clean_files clean_file perform
    move_file open_dst append_file unlink_source finish error1 error2 filecopy copy_loop copy_round
    write_chunk action_for perform_rule_check path_of
removed_dst = refl

getbasefilename-base_of_example :
    getbasefilename (text "dmesg-efi-1") 4096
    ≡ (length (base_of (text "dmesg-efi-1")), base_of (text "dmesg-efi-1"))
getbasefilename-base_of_example = getbasefilename-base_of (text "dmesg-efi-1") 4096 (omega arith)

base_of_dump : base_of (text "dmesg-efi-1") ≡ text "dmesg-efi"
unfolding base_of split
base_of_dump = refl

-- With the rule `keep` for the dump, only the old DST is removed.
clean_removes_listed_example :
    (log : Log) × (clean kernel keeping 3 [] ≡ some (true, log))
    × (unlinked dst log ≡ (
        removable keeping dst (text "." ∷ text "dmesg-efi-1" ∷ [])
        || ((kernel.exists dst [] && equal dst dst) || unlinked dst [])))
unfolding is_fs_mounted dir_not_empty
clean_removes_listed_example =
    clean_removes_listed kernel (λ path. contents) disk willing keeping 3 (λ path. omega arith)
      (text ".") (text "dmesg-efi-1" ∷ []) [] refl refl refl dst

clean_spares_example :
    (removable no_config dst (listing kernel (before_scan kernel []))
      || (equal dst dst || unlinked dst []))
    ≡ true
clean_spares_example =
    clean_spares dst kernel no_config 3 [] (left no_config) true left_lem removed_dst

clean-Exited_example : Exited kernel no_config 1 0 [] (true, left no_config)
unfolding is_fs_mounted
clean-Exited_example = clean-Exited kernel no_config 3 [] (true, left no_config) left_lem

-- Every file is two reads long.
abbrev short_files : Kernel
short_files = record kernel {
  read = λ fd log. some (if leb 2 (count_reads log) then [] else 7 ∷ []);
}

short_files-IsFinite : IsFinite short_files 2
short_files-IsFinite = record { ends = λ fd log h. ground arith }

clean_ends_example : is_some (clean short_files keeping 3 []) ≡ true
clean_ends_example = clean_ends short_files keeping 2 short_files-IsFinite 3 [] (omega arith)

abbrev copied : Log
copied =
    closes 5
    ∷ writes 9 [] (some 0)
    ∷ reads 5 (some [])
    ∷ writes 9 contents (some 2)
    ∷ reads 5 (some contents)
    ∷ opens reading (text "a") (some 5)
    ∷ []

small_copy : Copied kernel [] copied × (last_read kernel copied ≡ some [])
unfolding filecopy copy_loop copy_round write_chunk
small_copy = filecopy-Copied kernel 2 (text "a") 9 [] copied full refl
