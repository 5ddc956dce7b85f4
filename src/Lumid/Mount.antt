-- ===== src/Lumid/Mount.antt =====
-- The mounts of system/core/lumid/src/mount.c.
--
-- What the kernel answers may depend on the calls made before, the latest first. What is logged is
-- left out, with the count of mounts that only the log shows. The fields of a line of fstab that fit
-- an int, dump and pass, are read and not used.
pub mod Fstab
pub mod Initial
mod Tests
use lumi_os.Base.{
  ℕ, ◌+◌, Bool, true, false, not, ◌&&◌, ◌||◌, Option, none, some, List, [], ◌∷◌, ℤ, pos, neg,
  is_negative, Text, codes, text_eq, is_empty, contains, strstr, starts, field, skip_spaces, lines,
  if◌then◌else◌, ltb, ◌==◌,
}
use lumi_os.Lumid.Types.{max_line_len}
use lumi_os.Lumid.Cgroup.{util_mkdir_p}

-- MS_RDONLY, MS_NOEXEC, MS_NOSUID and MS_NODEV.
pub record MountFlags : Type 0 where
  pub read_only : Bool
  pub no_exec : Bool
  pub no_suid : Bool
  pub no_dev : Bool

pub record MountEntry : Type 0 where
  pub source : Text
  pub target : Text
  pub fstype : Text
  pub flags : MountFlags
  pub options : Option Text

-- mknod is called with S_IFCHR, the mode and makedev (major, minor).
pub data MountCall : Type 0 where
  mkdir_p : Text → MountCall
  mount : MountEntry → MountCall
  mknod : Text → ℕ → ℕ → ℕ → MountCall
  symlink : Text → Text → MountCall

-- 0, -1 with EBUSY, or -1 with another error.
pub data Answer : Type 0 where
  done busy refused : Answer

-- Whether stat finds the path, whether mkdir makes it or finds it, and what mount answers.
pub record MountKernel : Type 0 where
  pub exists : List MountCall → Text → Bool
  pub made : List MountCall → Text → Bool
  pub answer : List MountCall → MountEntry → Answer

abbrev no_suid_exec_dev : MountFlags
no_suid_exec_dev = record { read_only = false; no_exec = true; no_suid = true; no_dev = true }

abbrev only_no_suid : MountFlags
only_no_suid = record { read_only = false; no_exec = false; no_suid = true; no_dev = false }

abbrev no_suid_exec : MountFlags
no_suid_exec = record { read_only = false; no_exec = true; no_suid = true; no_dev = false }

abbrev no_suid_dev : MountFlags
no_suid_dev = record { read_only = false; no_exec = false; no_suid = true; no_dev = true }

abbrev early : Text → Text → Text → MountFlags → Option Text → MountEntry
early source target fstype flags options = record {
  source = source;
  target = target;
  fstype = fstype;
  flags = flags;
  options = options;
}

pub early_mounts : List MountEntry
early_mounts =
    early (codes "proc") (codes "/proc") (codes "proc") no_suid_exec_dev none
    ∷ early (codes "sysfs") (codes "/sys") (codes "sysfs") no_suid_exec_dev none
    ∷ early (codes "devtmpfs") (codes "/dev") (codes "devtmpfs") only_no_suid
        (some (codes "mode=0755"))
    ∷ early (codes "devpts") (codes "/dev/pts") (codes "devpts") no_suid_exec
        (some (codes "mode=0620,ptmxmode=0666"))
    ∷ early (codes "tmpfs") (codes "/dev/shm") (codes "tmpfs") no_suid_dev
        (some (codes "mode=1777"))
    ∷ early (codes "tmpfs") (codes "/run") (codes "tmpfs") no_suid_dev (some (codes "mode=0755"))
    ∷ early (codes "tmpfs") (codes "/tmp") (codes "tmpfs") no_suid_dev (some (codes "mode=1777"))
    ∷ early (codes "cgroup2") (codes "/sys/fs/cgroup") (codes "cgroup2") no_suid_exec_dev none
    ∷ []

module _ (k : MountKernel) where
  -- The mount of one entry, with the count of those that failed.
  mount_early : MountEntry → ℕ → List MountCall → ℕ × List MountCall
  mount_early m failed t =
      (elim (k.answer t m) [ done ↦ failed | busy ↦ failed | refused ↦ failed + 1 ], mount m ∷ t)

  -- The body of the loop: a mount point that is not there is made.
  pub try_mount : MountEntry → ℕ → List MountCall → ℕ × List MountCall
  unfolding mount_early
  try_mount m failed t =
      if k.exists t m.target
      then mount_early m failed t
      else if is_negative (util_mkdir_p (k.made t) m.target).0
      then (failed + 1, mkdir_p m.target ∷ t)
      else mount_early m failed (mkdir_p m.target ∷ t)

  pub try_each : List MountEntry → ℕ → List MountCall → ℕ × List MountCall
  unfolding try_mount
  try_each [] failed t = (failed, t)
  try_each (m ∷ ms) failed t = let (n, u) = try_mount m failed t in try_each ms n u

  -- Where /dev/null is not there.
  pub device_nodes : List MountCall → List MountCall
  device_nodes t =
      if k.exists t (codes "/dev/null")
      then t
      else (mknod (codes "/dev/tty") 0o666 5 0
          ∷ mknod (codes "/dev/console") 0o600 5 1
          ∷ mknod (codes "/dev/urandom") 0o666 1 9
          ∷ mknod (codes "/dev/random") 0o666 1 8
          ∷ mknod (codes "/dev/zero") 0o666 1 5
          ∷ mknod (codes "/dev/null") 0o666 1 3
          ∷ t)

  symlinks : List MountCall → List MountCall
  symlinks t =
      symlink (codes "/proc/self/fd/2") (codes "/dev/stderr")
      ∷ symlink (codes "/proc/self/fd/1") (codes "/dev/stdout")
      ∷ symlink (codes "/proc/self/fd/0") (codes "/dev/stdin")
      ∷ symlink (codes "/proc/self/fd") (codes "/dev/fd")
      ∷ t

  unfoldable pub mount_initial_filesystems : List MountCall → ℤ × List MountCall
  unfolding try_each early_mounts device_nodes symlinks
  mount_initial_filesystems t =
      let (failed, u) = try_each early_mounts 0 t in
      (if ltb 0 failed then neg 1 else pos 0, symlinks (device_nodes u))

-- while (*l == ' ' || *l == '\t') l++;
pub skip_blanks : Text → Text
skip_blanks [] = []
skip_blanks (c ∷ s) = if c == b' ' || c == 9 then skip_blanks s else c ∷ s

-- *l == '#' || *l == '\n' || *l == '\0'
pub is_skipped : Text → Bool
is_skipped [] = true
is_skipped (c ∷ s) = c == b'#' || c == 10

pub record FstabEntry : Type 0 where
  pub source : Text
  pub target : Text
  pub fstype : Text
  pub options : Text

-- %<max>s, or none at the end of the text.
pub scan_field : ℕ → Text → Option (Text × Text)
scan_field max s =
    let (w, rest) = field max (skip_spaces s) in if is_empty w then none else some (w, rest)

-- sscanf (l, "%255s %255s %63s %255s %d %d", …), or none where it is below 4.
pub scan_fstab : Text → Option FstabEntry
unfolding scan_field
scan_fstab l = elim (scan_field 255 l) [
  | none ↦ none
  | some (source, s1) ↦ elim (scan_field 255 s1) [
    | none ↦ none
    | some (target, s2) ↦ elim (scan_field 63 s2) [
      | none ↦ none
      | some (fstype, s3) ↦ elim (scan_field 255 s3) [
        | none ↦ none
        | some (options, s4) ↦
            some (record { source = source; target = target; fstype = fstype; options = options })
      ]
    ]
  ]
]

pub is_virtual : Text → Bool
unfolding text_eq
is_virtual fstype =
    text_eq fstype (codes "proc")
    || (text_eq fstype (codes "sysfs")
        || (text_eq fstype (codes "devtmpfs")
            || (text_eq fstype (codes "tmpfs") || text_eq fstype (codes "cgroup2"))))

pub mount_flags : Text → MountFlags
unfolding contains strstr starts
mount_flags options = record {
  read_only = contains (codes "ro") options;
  no_exec = contains (codes "noexec") options;
  no_suid = contains (codes "nosuid") options;
  no_dev = contains (codes "nodev") options;
}

-- The arguments of mount for one entry.
pub mount_args : FstabEntry → MountEntry
unfolding mount_flags
mount_args e = record {
  source = e.source;
  target = e.target;
  fstype = e.fstype;
  flags = mount_flags e.options;
  options = if text_eq e.options (codes "defaults") then none else some e.options;
}

-- The results of util_mkdir_p and of mount change only what is logged.
pub mount_one : FstabEntry → List MountCall → List MountCall
unfolding is_virtual mount_args
mount_one e t = if is_virtual e.fstype then t else mount (mount_args e) ∷ mkdir_p e.target ∷ t

pub fstab_line : Text → List MountCall → List MountCall
unfolding skip_blanks is_skipped scan_fstab mount_one
fstab_line line t =
    let l = skip_blanks line in
    if is_skipped l then t else elim (scan_fstab l) [ none ↦ t | some e ↦ mount_one e t ]

pub fstab_lines : List Text → List MountCall → List MountCall
unfolding fstab_line
fstab_lines [] t = t
fstab_lines (l ∷ ls) t = fstab_lines ls (fstab_line l t)

-- The bytes of the file, or none where it cannot be opened.
pub mount_fstab : Option Text → List MountCall → ℤ × List MountCall
unfolding fstab_lines
mount_fstab none t = (neg 1, t)
mount_fstab (some bytes) t = (pos 0, fstab_lines (lines max_line_len bytes) t)
