-- ===== src/Lumid/Early/Shell.antt =====
-- When lumid comes up.
use lumi_os.Base.{ℕ, ◌≡◌, ◌⊎◌, inl, inr, refl, Bool, Option, List, Text, []}
use lumi_os.Lumid.Machine.{Kernel}
use lumi_os.Lumid.Load.{Entry}
use lumi_os.Lumid.Mount.{MountEntry, Answer, early_mounts}
use lumi_os.Lumid.Mount.Initial.{steady, SomeFails, mount_initial_filesystems_iff}
use lumi_os.Lumid.Main.{Round, lumid}
use lumi_os.Lumid.Early.{emergency_shell, runs, early_init, boot}

-- Under a kernel whose answers to stat, mkdir and mount do not depend on the calls before: main
-- becomes the emergency shell exactly if one of the early mounts fails, be it one that no service
-- needs: its mount point is not there and cannot be made, or mount fails with another error than
-- EBUSY. Otherwise it runs lumid, whatever cgroup_init returns.
pub boot_iff :
    (exists made : Text → Bool) (answer : MountEntry → Answer) (mounted : Bool) (k : Kernel)
    (reboot : Bool) (time : ℕ) (entries : Option (List Entry)) (rounds : List Round)
    → (SomeFails exists made answer early_mounts
        × (boot (steady exists made answer) made mounted k reboot time entries rounds
            ≡ emergency_shell))
      ⊎ ((¬ SomeFails exists made answer early_mounts)
          × (boot (steady exists made answer) made mounted k reboot time entries rounds
              ≡ runs (lumid k reboot time entries rounds)))
unfolding boot early_init
boot_iff exists made answer mounted k reboot time entries rounds =
    elim (mount_initial_filesystems_iff exists made answer []) [
      | inl (s, e) ↦ inl (s, rw e refl)
      | inr (sound, e) ↦ inr (sound, rw e refl)
    ]
