-- ===== src/Lumid/Cgroup.antt =====
-- The control groups of services: system/core/lumid/src/cgroup.c, with util_mkdir_p of util.c.
--
-- The functions give their result with the system calls that they make. `made` is whether a mkdir
-- succeeds or fails with EEXIST, and `written` whether util_write_file succeeds. A path is
-- not empty and not a slash alone.
mod Tests
use lumi_os.Base.{
  ℕ, ◌+◌, ◌-◌, ◌*◌, Bool, true, false, not, ◌&&◌, List, [], ◌∷◌, ◌++◌, ℤ, pos, negsuc, neg,
  is_positive, leb_ℤ, Text, codes, is_empty, if◌then◌else◌, ◌==◌, take,
}
use lumi_os.Lumid.Types.{CgroupLimits, max_path_len}

-- The formats "%ld" or "%d", "%d 100000" and "default %d", and a fixed text.
pub data Value : Type 0 where
  number quota default_number : ℤ → Value
  text : Text → Value

pub data CgroupCall : Type 0 where
  mkdir rmdir : Text → CgroupCall
  write_file : Text → Value → CgroupCall

-- The text in front of each slash behind the first byte, and the whole, without a slash at its end.
ancestors : Text → Text → List Text
ancestors seen [] = seen ∷ []
ancestors seen (c ∷ s) =
    let rest = ancestors (seen ++ (c ∷ [])) s in
    if c == b'/' then (if is_empty s then seen ∷ [] else seen ∷ rest) else rest

directories : Text → List Text
unfolding ancestors
directories [] = [] ∷ []
directories (c ∷ s) = ancestors (c ∷ []) s

make_each : (Text → Bool) → List Text → ℤ × List CgroupCall
make_each made [] = (pos 0, [])
make_each made (d ∷ ds) =
    let (code, rest) = make_each made ds in
    if made d then (code, mkdir d ∷ rest) else (neg 1, mkdir d ∷ [])

unfoldable pub util_mkdir_p : (Text → Bool) → Text → ℤ × List CgroupCall
unfolding directories make_each
util_mkdir_p made path = make_each made (directories (take (max_path_len - 1) path))

abbrev cgroup_root : Text
cgroup_root = codes "/sys/fs/cgroup/lumid"

abbrev pub cgroup_path : Text → Text → Text
cgroup_path name file = take (max_path_len - 1) (cgroup_root ++ codes "/" ++ name ++ file)

-- `mounted` is whether cgroup.controllers is there.
unfoldable pub cgroup_init : Bool → (Text → Bool) → ℤ × List CgroupCall
unfolding util_mkdir_p
cgroup_init false made = (neg 1, [])
cgroup_init true made =
    let (code, calls) = util_mkdir_p made cgroup_root in
    let enable =
      write_file (cgroup_root ++ codes "/cgroup.subtree_control")
        (text (codes "+cpu +memory +io +pids\n")) in
    if leb_ℤ (pos 0) code then (pos 0, calls ++ (enable ∷ [])) else (neg 1, calls)

pub cgroup_create : (Text → Bool) → Text → ℤ × List CgroupCall
unfolding util_mkdir_p
cgroup_create made name = util_mkdir_p made (cgroup_path name [])

limit_file : Bool → Text → Text → Value → List CgroupCall
limit_file wanted name file value =
    if wanted then write_file (cgroup_path name file) value ∷ [] else []

thousandfold : ℤ → ℤ
thousandfold (pos n) = pos (n * 1000)
thousandfold (negsuc n) = neg ((n + 1) * 1000)

-- The result is 0; the results of the writes are not read.
pub cgroup_apply_limits : Text → CgroupLimits → List CgroupCall
unfolding limit_file thousandfold
cgroup_apply_limits name l =
    limit_file (is_positive l.memory_max) name (codes "/memory.max") (number l.memory_max)
    ++ (limit_file (is_positive l.memory_high) name (codes "/memory.high") (number l.memory_high)
        ++ (limit_file (is_positive l.cpu_weight) name (codes "/cpu.weight") (number l.cpu_weight)
            ++ (limit_file (is_positive l.cpu_max && leb_ℤ l.cpu_max (pos 100)) name
                  (codes "/cpu.max") (quota (thousandfold l.cpu_max))
                ++ (limit_file (is_positive l.io_weight) name (codes "/io.weight")
                      (default_number l.io_weight)
                    ++ limit_file (is_positive l.pids_max) name (codes "/pids.max")
                        (number l.pids_max)))))

pub cgroup_add_pid : (Text → Bool) → Text → ℤ → ℤ × List CgroupCall
cgroup_add_pid written name pid =
    let path = cgroup_path name (codes "/cgroup.procs") in
    (if written path then pos 0 else neg 1, write_file path (number pid) ∷ [])

pub cgroup_remove : (Text → Bool) → Text → ℤ × List CgroupCall
cgroup_remove removed name =
    let path = cgroup_path name [] in (if removed path then pos 0 else neg 1, rmdir path ∷ [])
