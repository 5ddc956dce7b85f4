-- ===== src/Lumid/Mount/Tests.antt =====
-- A table of two entries, and a kernel on which every early mount is granted but one.
use lumi_os.Base.{
  ◌≡◌, refl, inl, inr, true, false, some, List, [], ◌∷◌, pos, neg, Text, codes, unlines, length,
  is_space, In, arith,
}
use lumi_os.Lumid.Cgroup.{util_mkdir_p}
use lumi_os.Lumid.Mount.{
  MountEntry, mount, MountKernel, busy, done, refused, mount_fstab, mount_initial_filesystems,
  is_virtual, is_skipped,
}
use lumi_os.Lumid.Mount.Fstab.{
  Line, IsFstabLine, AreFstabLines, print_each, mount_each, mount_fstab_lem, mount_fstab-read_only,
}

abbrev entry : Text → Text → Text → Text → Line
entry source target fstype options = record {
  entry = record { source = source; target = target; fstype = fstype; options = options };
  tail = codes "0 1";
}

abbrev data_disk : Line
data_disk = entry (codes "/dev/sda2") (codes "/data") (codes "ext4") (codes "rw,errors=remount-ro")

abbrev table : List Line
table = entry (codes "none") (codes "/tmp") (codes "tmpfs") (codes "defaults") ∷ data_disk ∷ []

is_field_tmp : IsFstabLine (entry (codes "none") (codes "/tmp") (codes "tmpfs") (codes "defaults"))
unfolding is_space is_skipped
is_field_tmp = ground arith

table-AreFstabLines : AreFstabLines table
unfolding is_space is_skipped
table-AreFstabLines = (is_field_tmp, (ground arith, tt))

mount_fstab_lem_example :
    mount_fstab (some (unlines (print_each table))) [] ≡ (pos 0, mount_each table [])
mount_fstab_lem_example = mount_fstab_lem table [] table-AreFstabLines

data_disk-is_virtual : is_virtual (codes "ext4") ≡ false
unfolding is_virtual
data_disk-is_virtual = refl

mount_fstab-read_only_example :
    (m : MountEntry) × In (mount m) (mount_fstab (some (unlines (print_each table))) []).1
    × (m.target ≡ codes "/data")
    × (m.flags.read_only ≡ true)
mount_fstab-read_only_example =
    mount_fstab-read_only table [] data_disk (codes "rw,er") (codes "rs=remount-ro")
      table-AreFstabLines (inr (inl refl)) data_disk-is_virtual refl

abbrev lazy : MountKernel
lazy = record { exists = λ t s. true; made = λ t s. false; answer = λ t m. busy }

all_busy : (mount_initial_filesystems lazy []).0 ≡ pos 0
unfolding mount_initial_filesystems
all_busy = refl

abbrev bare : MountKernel
bare = record { exists = λ t s. false; made = λ t s. true; answer = λ t m. done }

one_refused : (mount_initial_filesystems (record bare { answer = λ t m. refused }) []).0 ≡ neg 1
unfolding mount_initial_filesystems util_mkdir_p
one_refused = refl

-- Eight directories and mounts, six device nodes and four links.
all_calls : length (mount_initial_filesystems bare []).1 ≡ 26
unfolding mount_initial_filesystems util_mkdir_p
all_calls = refl
