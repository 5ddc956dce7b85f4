-- ===== src/Android/Child/Devices.antt =====
-- Which devices of the host the container gets.
use lumi_os.Base.{
  ℕ, ◌≡◌, refl, sym, subst, inl, inr, ◌⊎◌, Bool, true, false, not, ◌&&◌, List, [], ◌∷◌, Text, codes,
  text_eq, is_empty, ◌==◌, if◌then◌else◌, arith,
}
use lumi_os.Android.Child.{
  Call, signal_alive, mount, mkdir, mknod, stat, sethostname, chdir, execve, Trace, Host,
  ChildConfig, android_root, run_init, ms_rec, ms_private, ms_nosuid, ms_noexec, ms_nodev, ms_bind,
  ms_remount, ms_rdonly, grant, dev_tmpfs, gpu_devs, did, bind_mount, ns_setup_mount,
  mounts_setup_android_rootfs, make_devices, mounts_bind_device_nodes, mounts_setup_shared_storage,
  bind_gpu, bind_each, mounts_setup_gpu_access, set_up_devices, load_props, enter_root,
  container_child, devs, o755,
}

has_prefix : Text → Text → Bool
has_prefix [] s = true
has_prefix (c ∷ p) [] = false
has_prefix (c ∷ p) (d ∷ s) = c == d && has_prefix p s

-- A path below /dev.
pub below_dev : Text → Bool
unfolding has_prefix
below_dev path = has_prefix (codes "/dev/") path

-- The call may create something below /dev.
abbrev pub makes : Call → Bool
makes (mount source target fs flags options) = below_dev target
makes (mkdir path mode) = below_dev path
makes (mknod path major minor) = below_dev path
makes _ = false

-- The call mounts a device of the host.
abbrev pub takes_device : Call → Bool
takes_device (mount source target fs flags options) = below_dev source
takes_device _ = false

pub is_dev_tmpfs : Call → Bool
unfolding text_eq
is_dev_tmpfs (mount source target fs flags options) =
    text_eq target (codes "/dev") && text_eq fs (codes "tmpfs")
is_dev_tmpfs _ = false

-- A new tmpfs lies over /dev, and nothing was made in it since.
abbrev pub over_dev : Trace → Bool
over_dev [] = false
over_dev ((c, r) ∷ t) = if is_dev_tmpfs c && r then true else if makes c then false else over_dev t

-- No call mounts a device of the host.
abbrev pub Unbound : Trace → Type 0
Unbound [] = Unit
Unbound ((c, r) ∷ t) = (takes_device c ≡ false) × Unbound t

-- What is below /dev cannot be found while a new tmpfs, in which nothing was made, lies over it.
abbrev pub Hides : Host → Type 0
Hides h =
    (t : Trace) (path : Text)
    → over_dev t ≡ true
    → below_dev path ≡ true
    → h.grants t (stat path) ≡ false

record Hidden (t : Trace) : Type 0 where
  over : over_dev t ≡ true
  bound : Unbound t

abbrev pub AreBelowDev : List Text → Type 0
AreBelowDev [] = Unit
AreBelowDev (d ∷ ds) = (below_dev d ≡ true) × AreBelowDev ds

unbound : (b : Bool) (t u : Trace) → b ≡ false → Hidden u → Hidden (if b then t else u)
unbound b t u e i = subst (λ (c : Bool). Hidden (if c then t else u)) (sym e) i

on_both : (b : Bool) (t u : Trace) → Hidden t → Hidden u → Hidden (if b then t else u)
on_both true t u i j = i
on_both false t u i j = j

on_results :
    (b : Bool) (p q : Bool × Trace) → Hidden p.1 → Hidden q.1 → Hidden (if b then p else q).1
on_results true p q i j = i
on_results false p q i j = j

-- The mount namespace is not set up, or a new tmpfs lies over /dev.
abbrev SetUp : Bool × Trace → Type 0
SetUp r = ((r.0 ≡ false) × Unbound r.1) ⊎ ((r.0 ≡ true) × Hidden r.1)

either-SetUp : (b : Bool) (p q : Bool × Trace) → SetUp p → SetUp q → SetUp (if b then p else q)
either-SetUp true p q i j = i
either-SetUp false p q i j = j

module _ (h : Host) where
  covered : (t : Trace) → h.grants t dev_tmpfs ≡ true → over_dev (did h dev_tmpfs t) ≡ true
  unfolding is_dev_tmpfs text_eq
  covered t e = ground (arith, e)

  kept :
      (c : Call) (t : Trace)
      → makes c ≡ false
      → takes_device c ≡ false
      → Hidden t
      → Hidden (did h c t)
  kept c t m d i =
      let over = i.over in
      record { over = unfold is_dev_tmpfs in ground arith; bound = (d, i.bound) }

module _ (h : Host) (hides : Hides h) where
  stat-Hidden :
      (dev : Text) (t : Trace) → below_dev dev ≡ true → Hidden t → h.grants t (stat dev) ≡ false
  stat-Hidden dev t b i = hides t dev i.over b

  mounts_setup_android_rootfs-Hidden :
      (t : Trace) → Hidden t → Hidden (mounts_setup_android_rootfs h t)
  unfolding mounts_setup_android_rootfs below_dev
  mounts_setup_android_rootfs-Hidden t i = kept h _ _ refl refl (
      kept h _ _ refl refl (
        kept h _ _ refl refl (
          kept h _ _ refl refl (
            kept h _ _ refl refl
              (kept h _ _ refl refl (kept h _ _ refl refl (kept h _ _ refl refl i)))))))

  make_devices-Hidden :
      (ds : List (Text × ℕ × ℕ)) (t : Trace) → Hidden t → Hidden (make_devices h ds t)
  unfolding make_devices below_dev
  make_devices-Hidden [] t i = i
  make_devices-Hidden ((name, major, minor) ∷ ds) t i =
      make_devices-Hidden ds _ (kept h _ _ refl refl i)

  mounts_bind_device_nodes-Hidden : (t : Trace) → Hidden t → Hidden (mounts_bind_device_nodes h t)
  unfolding mounts_bind_device_nodes below_dev
  mounts_bind_device_nodes-Hidden t i =
      let i1 = make_devices-Hidden devs t i in
      unbound _ _ _ (stat-Hidden (codes "/dev/binder") (make_devices h devs t) refl i1)
        (kept h (stat (codes "/dev/binder")) (make_devices h devs t) refl refl i1)

  bind_mount-Hidden :
      (src dst : Text) (readonly : Bool) (t : Trace)
      → below_dev src ≡ false
      → below_dev dst ≡ false
      → Hidden t
      → Hidden (bind_mount h src dst readonly t).1
  unfolding bind_mount below_dev
  bind_mount-Hidden src dst readonly t s d i =
      let bind = mount src dst [] (ms_bind ∷ []) [] in
      let lock = mount [] dst [] (ms_bind ∷ ms_remount ∷ ms_rdonly ∷ []) [] in
      let t1 = did h (stat src) t in
      let t2 = did h (mkdir dst o755) t1 in
      let t3 = did h bind t2 in
      let t4 = if readonly then did h lock t3 else t3 in
      let i1 = kept h (stat src) t refl refl i in
      let i3 = kept h bind t2 d s (kept h (mkdir dst o755) t1 d refl i1) in
      on_results (not (grant h (stat src) t)) (false, t1)
        (if not (grant h bind t2) then (false, t3) else (true, t4)) i1
        (on_results (not (grant h bind t2)) (false, t3) (true, t4) i3
          (on_both readonly (did h lock t3) t3 (kept h lock t3 d refl i3) i3))

  mounts_setup_shared_storage-Hidden :
      (t : Trace) → Hidden t → Hidden (mounts_setup_shared_storage h t)
  unfolding mounts_setup_shared_storage below_dev
  mounts_setup_shared_storage-Hidden t i =
      let i2 = kept h _ _ refl refl (kept h _ _ refl refl i) in
      on_both _ _ _ (bind_mount-Hidden _ _ false _ refl refl i2) i2

  bind_each-Hidden :
      (ds : List Text) (t : Trace) → AreBelowDev ds → Hidden t → Hidden (bind_each h ds t)
  unfolding bind_each bind_gpu
  bind_each-Hidden [] t b i = i
  bind_each-Hidden (d ∷ ds) t b i =
      bind_each-Hidden ds _ b.1
        (unbound _ _ _ (stat-Hidden d t b.0 i) (kept h (stat d) t refl refl i))

  set_up_devices-Hidden :
      (config : ChildConfig) (t : Trace) → Hidden t → Hidden (set_up_devices h config t)
  unfolding set_up_devices mounts_setup_gpu_access below_dev
  set_up_devices-Hidden config t i =
      let i1 =
        mounts_setup_shared_storage-Hidden _
          (mounts_bind_device_nodes-Hidden _ (mounts_setup_android_rootfs-Hidden t i)) in
      on_both config.gpu_passthrough _ _
        (bind_each-Hidden gpu_devs _ (refl, (refl, (refl, (refl, tt)))) (kept h _ _ refl refl i1))
        i1

  enter_root-Hidden : (t : Trace) → Hidden t → Hidden (enter_root h t).1
  unfolding enter_root below_dev
  enter_root-Hidden t i =
      let root = chdir android_root in
      let init = execve (codes "/system/bin/init") in
      let t1 = did h root t in
      let i1 = kept h root t refl refl i in
      on_results (grant h root t) (grant h init t1, did h init t1) (false, t1)
        (kept h init t1 refl refl i1) i1

  run_init-Hidden : (config : ChildConfig) (t : Trace) → Hidden t → Hidden (run_init h config t).1
  unfolding run_init load_props below_dev
  run_init-Hidden config t i =
      let i2 = set_up_devices-Hidden config t i in
      enter_root-Hidden _ (
        kept h _ _ refl refl (
          on_both (is_empty config.hostname) _ _ i2
            (kept h (sethostname config.hostname) _ refl refl i2)))

  finish-Unbound :
      (config : ChildConfig) (r : Bool × Trace)
      → SetUp r
      → Unbound (if r.0 then run_init h config r.1 else (false, r.1)).1
  finish-Unbound config (false, t) (inl p) = p.1
  finish-Unbound config (true, t) (inl p) = absurd (cc)
  finish-Unbound config (false, t) (inr p) = p.1.bound
  finish-Unbound config (true, t) (inr p) = (run_init-Hidden config t p.1).bound

  ns_setup_mount-SetUp :
      ((t : Trace) → h.grants t dev_tmpfs ≡ true)
      → (t : Trace) → Unbound t
      → SetUp (ns_setup_mount h t)
  unfolding ns_setup_mount below_dev
  ns_setup_mount-SetUp granted t u =
      let made = mount [] (codes "/") [] (ms_rec ∷ ms_private ∷ []) [] in
      let proc =
        mount (codes "proc") (codes "/proc") (codes "proc") (ms_nosuid ∷ ms_noexec ∷ ms_nodev ∷ [])
          [] in
      let t1 = did h made t in
      let t3 = did h proc (did h (mkdir (codes "/proc") o755) t1) in
      either-SetUp (not (grant h made t)) (false, t1) (true, did h dev_tmpfs t3)
        (inl (refl, (refl, u)))
        (inr (
          refl,
          record { over = covered h t3 (granted t3); bound = (refl, (refl, (refl, (refl, u)))) },
        ))

  -- Where the mount of a tmpfs on /dev succeeds and what is below /dev cannot be found while it lies
  -- there with nothing made in it, the container gets no device of the host by a bind mount, binder
  -- and GPU included.
  pub container_child-Unbound :
      (config : ChildConfig)
      → ((t : Trace) → h.grants t dev_tmpfs ≡ true)
      → Unbound (container_child h config []).1
  unfolding container_child
  container_child-Unbound config granted =
      finish-Unbound config (ns_setup_mount h (did h signal_alive []))
        (ns_setup_mount-SetUp granted (did h signal_alive []) (refl, tt))
