-- ===== src/Android/Child.antt =====
-- The container's first process: container_child of android-compat/container/src/container.c, with
-- namespace.c and mounts.c.
--
-- `trace` is what the process has asked of the kernel, the latest call first, each with whether it
-- succeeded; whether a call succeeds may depend on all that were made before. A NULL argument is the
-- empty text. What differs by errno is only what is printed, which is left out.
pub mod Devices
mod Tests
use lumi_os.Base.{
  ℕ, zero, suc, ◌*◌, Bool, true, false, not, Option, none, some, List, [], ◌∷◌, ◌++◌, reverse, Text,
  codes, is_empty, split_at, if◌then◌else◌, drop,
}
use lumi_os.Android.Properties.{Table, props_init, props_load_defaults}

pub data MountFlag : Type 0 where
  ms_bind ms_remount ms_rdonly ms_nosuid ms_noexec ms_nodev ms_rec ms_private : MountFlag

pub data Call : Type 0 where
  signal_alive : Call
  mount : Text → Text → Text → List MountFlag → Text → Call
  mkdir : Text → ℕ → Call
  mknod : Text → ℕ → ℕ → Call
  stat sethostname open_props chdir execve : Text → Call

abbrev pub Trace : Type 0
Trace = List (Call × Bool)

pub record Host : Type 0 where
  pub grants : Trace → Call → Bool
  pub props_file : Trace → Text

abbrev pub android_root : Text
android_root = codes "/var/lib/android"

-- ct_config_t, as far as the child reads it.
pub record ChildConfig : Type 0 where
  pub gpu_passthrough : Bool
  pub hostname : Text

-- The octal modes 0755, 0555, 01777 and 0770.
abbrev o755 : ℕ
o755 = 493

abbrev o555 : ℕ
o555 = 365

abbrev o1777 : ℕ
o1777 = 1023

abbrev o770 : ℕ
o770 = 504

abbrev pub dev_tmpfs : Call
dev_tmpfs =
    mount (codes "tmpfs") (codes "/dev") (codes "tmpfs") (ms_nosuid ∷ [])
      (codes "mode=0755,size=64k")

-- devs[], without its end.
abbrev devs : List (Text × ℕ × ℕ)
devs =
    (codes "null", 1, 3)
    ∷ (codes "zero", 1, 5)
    ∷ (codes "random", 1, 8)
    ∷ (codes "urandom", 1, 9)
    ∷ []

abbrev pub gpu_devs : List Text
gpu_devs =
    codes "/dev/dri/renderD128"
    ∷ codes "/dev/dri/card0"
    ∷ codes "/dev/kgsl-3d0"
    ∷ codes "/dev/mali0"
    ∷ []

-- The path up to its last slash: strrchr.
abbrev parent : Text → Text
parent path = elim (split_at b'/' (reverse path)) [
  | none ↦ path
  | some (name, before) ↦ reverse before
]

module _ (h : Host) where
  -- A call, with its result.
  abbrev pub grant : Call → Trace → Bool
  grant c t = h.grants t c

  abbrev pub did : Call → Trace → Trace
  did c t = (c, h.grants t c) ∷ t

  pub bind_mount : Text → Text → Bool → Trace → Bool × Trace
  bind_mount src dst readonly t0 =
      let t1 = did (stat src) t0 in
      let t2 = did (mkdir dst o755) t1 in
      let bind = mount src dst [] (ms_bind ∷ []) [] in
      let t3 = did bind t2 in
      if not (grant (stat src) t0)
      then (false, t1)
      else if not (grant bind t2)
      then (false, t3)
      else (
        true,
        if readonly
            then did (mount [] dst [] (ms_bind ∷ ms_remount ∷ ms_rdonly ∷ []) []) t3
            else t3,
      )

  pub ns_setup_mount : Trace → Bool × Trace
  ns_setup_mount t0 =
      let private = mount [] (codes "/") [] (ms_rec ∷ ms_private ∷ []) [] in
      let proc =
        mount (codes "proc") (codes "/proc") (codes "proc") (ms_nosuid ∷ ms_noexec ∷ ms_nodev ∷ [])
          [] in
      let t1 = did private t0 in
      if not (grant private t0)
      then (false, t1)
      else (true, did dev_tmpfs (did proc (did (mkdir (codes "/proc") o755) t1)))

  mkdir_mount : Text → ℕ → Text → List MountFlag → Text → Trace → Trace
  mkdir_mount path mode fs flags options t =
      did (mount fs path fs flags options) (did (mkdir path mode) t)

  pub mounts_setup_android_rootfs : Trace → Trace
  unfolding mkdir_mount
  mounts_setup_android_rootfs t =
      mkdir_mount (android_root ++ codes "/tmp") o1777 (codes "tmpfs") (ms_nosuid ∷ ms_nodev ∷ [])
        (codes "mode=1777")
        (mkdir_mount (android_root ++ codes "/sys") o555 (codes "sysfs")
          (ms_nosuid ∷ ms_noexec ∷ ms_nodev ∷ ms_rdonly ∷ []) []
          (mkdir_mount (android_root ++ codes "/proc") o555 (codes "proc")
            (ms_nosuid ∷ ms_noexec ∷ ms_nodev ∷ []) []
            (mkdir_mount (android_root ++ codes "/dev") o755 (codes "tmpfs") (ms_nosuid ∷ [])
              (codes "mode=0755,size=64k") t)))

  make_devices : List (Text × ℕ × ℕ) → Trace → Trace
  make_devices [] t = t
  make_devices ((name, major, minor) ∷ ds) t =
      make_devices ds (did (mknod (android_root ++ codes "/dev/" ++ name) major minor) t)

  pub mounts_bind_device_nodes : Trace → Trace
  unfolding make_devices bind_mount
  mounts_bind_device_nodes t0 =
      let t1 = make_devices devs t0 in
      let binder = stat (codes "/dev/binder") in
      let t2 = did binder t1 in
      if grant binder t1
      then (bind_mount (codes "/dev/binder") (android_root ++ codes "/dev/binder") false t2).1
      else t2

  pub mounts_setup_shared_storage : Trace → Trace
  unfolding bind_mount
  mounts_setup_shared_storage t0 =
      let sdcard = android_root ++ codes "/sdcard" in
      let shared = codes "/data/shared" in
      let t1 = did (mkdir sdcard o770) t0 in
      let t2 = did (stat shared) t1 in
      if grant (stat shared) t1 then (bind_mount shared sdcard false t2).1 else t2

  bind_gpu : Text → Trace → Trace
  unfolding bind_mount
  bind_gpu dev t0 =
      let dst = android_root ++ codes "/dev" ++ drop 4 dev in
      let t1 = did (stat dev) t0 in
      if grant (stat dev) t0
      then (bind_mount dev dst false (did (mkdir (parent dst) o755) t1)).1
      else t1

  bind_each : List Text → Trace → Trace
  unfolding bind_gpu
  bind_each [] t = t
  bind_each (d ∷ ds) t = bind_each ds (bind_gpu d t)

  pub mounts_setup_gpu_access : Trace → Trace
  unfolding bind_each
  mounts_setup_gpu_access t =
      bind_each gpu_devs (did (mkdir (android_root ++ codes "/dev/dri") o755) t)

  set_up_devices : ChildConfig → Trace → Trace
  unfolding mounts_setup_android_rootfs mounts_bind_device_nodes mounts_setup_shared_storage
      mounts_setup_gpu_access
  set_up_devices config t0 =
      let t1 =
        mounts_setup_shared_storage (mounts_bind_device_nodes (mounts_setup_android_rootfs t0)) in
      if config.gpu_passthrough then mounts_setup_gpu_access t1 else t1

  -- The properties in the memory of the process, and its calls so far.
  load_props : Trace → Table × Trace
  load_props t =
      let opens = open_props (android_root ++ codes "/default.prop") in
      let file = if grant opens t then some (h.props_file t) else none in
      (props_load_defaults file props_init, did opens t)

  enter_root : Trace → Bool × Trace
  enter_root t0 =
      let t1 = did (chdir android_root) t0 in
      let init = execve (codes "/system/bin/init") in
      if grant (chdir android_root) t0 then (grant init t1, did init t1) else (false, t1)

  -- What follows the set-up of the mount namespace; mounts_setup_android_rootfs and
  -- mounts_bind_device_nodes return 0 always.
  run_init : ChildConfig → Trace → Bool × Trace
  unfolding set_up_devices load_props enter_root
  run_init config t1 =
      let t2 = set_up_devices config t1 in
      let t3 = if is_empty config.hostname then t2 else did (sethostname config.hostname) t2 in
      let (props, t4) = load_props t3 in enter_root t4

  -- Whether the init program runs, and the calls.
  pub container_child : ChildConfig → Trace → Bool × Trace
  unfolding ns_setup_mount run_init
  container_child config t0 =
      let (mounted, t1) = ns_setup_mount (did signal_alive t0) in
      if mounted then run_init config t1 else (false, t1)
