-- ===== src/Android/Cgroup.antt =====
-- The control group of the container: android-compat/container/src/cgroup.c.
--
-- The functions are lists of the system calls that they make; where a mkdir that fails with another
-- error than EEXIST ends ct_cgroup_create, its result is an argument.
use lumi_os.Base.{
  Bool, List, [], ◌∷◌, ◌++◌, map, ℤ, is_positive, Text, codes, ◌==◌, if◌then◌else◌, take,
}

pub data Value : Type 0 where
  text : Text → Value
  number : ℤ → Value

pub data CgroupCall : Type 0 where
  mkdir rmdir : Text → CgroupCall
  write_file : Text → Value → CgroupCall

abbrev cgroup_root : Text
cgroup_root = codes "/sys/fs/cgroup/android"

-- mkdirp: the part before each slash from `seen` on, and the whole path.
pub prefixes : Text → Text → List Text
prefixes seen [] = seen ∷ []
prefixes seen (c ∷ s) =
    let rest = prefixes (seen ++ (c ∷ [])) s in if c == b'/' then seen ∷ rest else rest

-- "for (char *p = tmp + 1; ...": the first byte is passed over.
pub mkdirp : Text → List CgroupCall
unfolding prefixes
mkdirp [] = mkdir [] ∷ []
mkdirp (c ∷ s) = map (λ p. mkdir p) (prefixes (c ∷ []) (take 510 s))

-- snprintf into 512 bytes.
abbrev path_of : Text → Text → Text
path_of name file = take 511 (cgroup_root ++ codes "/" ++ name ++ file)

pub ct_cgroup_create : Text → Bool → List CgroupCall
unfolding mkdirp
ct_cgroup_create name made =
    mkdirp (path_of name [])
    ++ (if made
        then write_file (cgroup_root ++ codes "/cgroup.subtree_control")
            (text (codes "+cpu +memory +io +pids\n"))
          ∷ []
        else [])

pub ct_cgroup_set_limits : Text → ℤ → ℤ → List CgroupCall
ct_cgroup_set_limits name mem cpu =
    (if is_positive mem
      then write_file (path_of name (codes "/memory.max")) (number mem) ∷ []
      else [])
    ++ ((if is_positive cpu
          then write_file (path_of name (codes "/cpu.weight")) (number cpu) ∷ []
          else [])
        ++ (write_file (path_of name (codes "/pids.max")) (text (codes "4096")) ∷ []))

pub ct_cgroup_add_pid : Text → ℤ → List CgroupCall
ct_cgroup_add_pid name pid = write_file (path_of name (codes "/cgroup.procs")) (number pid) ∷ []

pub ct_cgroup_destroy : Text → List CgroupCall
ct_cgroup_destroy name = rmdir (path_of name []) ∷ []
