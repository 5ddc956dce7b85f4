-- ===== src/Lumid/Cgroup/Tests.antt =====
-- The control group of a service with limits.
use lumi_os.Base.{◌≡◌, refl, true, [], ◌∷◌, pos, neg, codes}
use lumi_os.Lumid.Types.{CgroupLimits}
use lumi_os.Lumid.Cgroup.{
  mkdir, write_file, number, quota, util_mkdir_p, directories, ancestors, make_each,
  cgroup_apply_limits, limit_file, thousandfold,
}

two_made :
    util_mkdir_p (λ d. true) (codes "/a/b/")
    ≡ (pos 0, mkdir (codes "/a") ∷ mkdir (codes "/a/b") ∷ [])
unfolding util_mkdir_p directories ancestors make_each
two_made = refl

abbrev some_limits : CgroupLimits
some_limits = record {
  memory_max = pos 1024;
  memory_high = neg 1;
  cpu_weight = pos 0;
  cpu_max = pos 50;
  io_weight = pos 0;
  pids_max = pos 0;
}

two_written :
    cgroup_apply_limits (codes "web") some_limits
    ≡ write_file (codes "/sys/fs/cgroup/lumid/web/memory.max") (number (pos 1024))
      ∷ write_file (codes "/sys/fs/cgroup/lumid/web/cpu.max") (quota (pos 50000))
      ∷ []
unfolding cgroup_apply_limits limit_file thousandfold
two_written = refl
