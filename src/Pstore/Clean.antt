-- ===== src/Pstore/Clean.antt =====
-- pstore/pstore-clean.c: main.
use android_device_xiaomi_la.Common.{
  ℕ, Bool, true, false, not, ◌||◌, List, [], ◌∷◌, ◌++◌, Option, none, some, take, if◌then◌else◌,
  Text, text, equal, contains,
}
use android_device_xiaomi_la.Pstore.Names.{Config, Action, by_default, keep, move, action_for}
use android_device_xiaomi_la.Pstore.Kernel.{
  Kernel, Log, truncating, appending, opens, writes, closes, unlinks, unmounts, removes_dir,
}
use android_device_xiaomi_la.Pstore.Copy.{filecopy}

-- MNT and DST
abbrev pub mnt : Text
mnt = text "/dev/pstore"

abbrev pub dst : Text
dst = text "/data/dontpanic/apanic_console"

-- snprintf into a buffer of PATH_MAX bytes
abbrev pub printed : Text → Text
printed s = take 4095 s

-- "%s/%s"
unfoldable pub path_of : Text → Text → Text
path_of dir name = printed (dir ++ (text "/" ++ name))

abbrev pub is_dots : Text → Bool
is_dots name = equal name (text ".") || equal name (text "..")

abbrev pub any_file : List Text → Bool
any_file [] = false
any_file (name ∷ names) = not (is_dots name) || any_file names

abbrev pub any_mount : Text → List Text → Bool
any_mount path [] = false
any_mount path (line ∷ lines) = contains line path || any_mount path lines

abbrev pub reverse_onto : List Text → List Text → List Text
reverse_onto [] done = done
reverse_onto (x ∷ xs) done = reverse_onto xs (x ∷ done)

-- What is written to DST before a file.
abbrev pub heading : Text → Text
heading d_name = printed (text "------ " ++ (d_name ++ text " ------\n"))

abbrev pub close_dst : Option ℕ → Log → Log
close_dst none log = log
close_dst (some fd) log = closes fd ∷ log

-- The parts of main pass on `dstfd`, `none` for -1, and the calls made so far.
module _ (kernel : Kernel) (config : Config) where
  unfoldable pub is_fs_mounted : Text → Log → Bool
  is_fs_mounted path log = any_mount path (kernel.mounts log)

  -- dir_not_empty; `none` is -1.
  unfoldable pub dir_not_empty : Log → Option Bool
  dir_not_empty log = elim (kernel.entries log) [ none ↦ none | some names ↦ some (any_file names) ]

  -- unlink(srcpath), and whether the loop goes on.
  unfoldable pub unlink_source : Text → Option ℕ → Log → Bool × Option ℕ × Log
  unlink_source d_name dstfd log =
      let done = kernel.unlink (path_of mnt d_name) log in
      (done, dstfd, unlinks (path_of mnt d_name) done ∷ log)

  -- case MOVE
  unfoldable pub move_file : ℕ → Text → Text → Option ℕ → Log → Option (Bool × Option ℕ × Log)
  unfolding unlink_source
  move_file n dstpath d_name dstfd log =
      let destpath = path_of dstpath d_name in
      elim (kernel.open_file truncating destpath log) [
        | none ↦ some (unlink_source d_name dstfd (opens truncating destpath none ∷ log))
        | some fd ↦
            elim (filecopy kernel n (path_of mnt d_name) fd
              (opens truncating destpath (some fd) ∷ log)) [
                | none ↦ none
                | some (copied, log') ↦ some (unlink_source d_name dstfd (closes fd ∷ log'))
              ]
      ]

  -- `if (dstfd == -1 && (dstfd = open(DST, ...)) < 0)`
  unfoldable pub open_dst : Option ℕ → Log → Option ℕ × Log
  open_dst (some fd) log = (some fd, log)
  open_dst none log =
      let fd = kernel.open_file appending dst log in (fd, opens appending dst fd ∷ log)

  -- The default case, with the descriptor.
  unfoldable pub append_file : ℕ → Text → Option ℕ → Log → Option (Bool × Option ℕ × Log)
  unfolding unlink_source
  append_file n d_name none log = some (false, none, log)
  append_file n d_name (some fd) log =
      elim (filecopy kernel n (path_of mnt d_name) fd
        (writes fd (heading d_name) (kernel.write fd (heading d_name) log) ∷ log)) [
          | none ↦ none
          | some (copied, log') ↦ some (unlink_source d_name (some fd) log')
        ]

  unfoldable pub perform : ℕ → Action → Text → Option ℕ → Log → Option (Bool × Option ℕ × Log)
  unfolding move_file open_dst append_file
  perform n (move dstpath) d_name dstfd log = move_file n dstpath d_name dstfd log
  perform n keep d_name dstfd log = some (true, dstfd, log)
  perform n by_default d_name dstfd log =
      let (fd, log') = open_dst dstfd log in append_file n d_name fd log'

  -- The body of the loop over the names.
  unfoldable pub clean_file : ℕ → Text → Option ℕ → Log → Option (Bool × Option ℕ × Log)
  unfolding perform
  clean_file n d_name dstfd log =
      if is_dots d_name
      then some (true, dstfd, log)
      else perform n (action_for config d_name) d_name dstfd log

  -- The loop; it is left with `false` for `goto error3`.
  unfoldable pub clean_files : ℕ → List Text → Option ℕ → Log → Option (Bool × Option ℕ × Log)
  unfolding clean_file
  clean_files n [] dstfd log = some (true, dstfd, log)
  clean_files n (d_name ∷ names) dstfd log = elim (clean_file n d_name dstfd log) [
    | none ↦ none
    | some (true, dstfd', log') ↦ clean_files n names dstfd' log'
    | some (false, dstfd', log') ↦ some (false, dstfd', log')
  ]

  -- From `error1` on: the result -1.
  unfoldable pub error1 : Log → Bool × Log
  error1 log = (false, removes_dir (kernel.rmdir log) ∷ log)

  -- From `error2` on.
  unfoldable pub error2 : Option ℕ → Log → Bool × Log
  unfolding error1
  error2 dstfd log = let log' = close_dst dstfd log in error1 (unmounts (kernel.umount log') ∷ log')

  -- From `done` on: `true` stands for the result 0.
  unfoldable pub finish : Log → Bool × Log
  unfolding error1
  finish log =
      let done = kernel.umount log in
      let log' = unmounts done ∷ log in
      if done then (true, removes_dir (kernel.rmdir log') ∷ log') else error1 log'

  -- What follows the loop.
  abbrev pub after_files : Option (Bool × Option ℕ × Log) → Option (Bool × Log)
  after_files none = none
  after_files (some (true, dstfd, log)) = some (finish log)
  after_files (some (false, dstfd, log)) = some (error2 dstfd log)

  -- From scandir on. The loop runs from the last name to the first.
  unfoldable pub list_files : ℕ → Log → Option (Bool × Log)
  unfolding clean_files finish error2
  list_files n log = elim (kernel.scandir log) [
    | none ↦ some (error2 none log)
    | some [] ↦ some (error2 none log)
    | some (x ∷ names) ↦ after_files (clean_files n (reverse_onto (x ∷ names) []) none log)
  ]

  -- The removal of an old DST, and what follows.
  unfoldable pub replace_dst : ℕ → Log → Option (Bool × Log)
  unfolding list_files
  replace_dst n log =
      let done = kernel.unlink dst log in
      if kernel.exists dst log
      then (if done
          then list_files n (unlinks dst true ∷ log)
          else some (error2 none (unlinks dst false ∷ log)))
      else list_files n log

  -- main, with a bound on the rounds of each copy.
  unfoldable pub clean : ℕ → Log → Option (Bool × Log)
  unfolding is_fs_mounted dir_not_empty replace_dst
  clean n log =
      if is_fs_mounted mnt log
      then elim (dir_not_empty log) [
        | none ↦ some (error2 none log)
        | some false ↦ some (finish log)
        | some true ↦ replace_dst n log
      ]
      else some (error1 log)
