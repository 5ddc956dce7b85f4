-- ===== src/Lumid/Load.antt =====
-- service_load_all of system/core/lumid/src/service.c. A directory is the list of its entries, in the
-- order of readdir, each with its file's bytes (`none` where fopen fails).
pub mod Valid
pub mod Tests
use lumi_os.Base.{
  ℕ, zero, suc, ◌+◌, ◌-◌, ◌*◌, ◌%◌, ◌^◌, ◌/◌, Bool, true, false, ◌&&◌, ◌||◌, not, Option, none,
  some, List, [], ◌∷◌, ◌++◌, reverse, map, ℤ, pos, negsuc, neg, Text, codes, text_eq, is_empty,
  is_space, skip_spaces, drop_trailing, split_at, tokens, strtoll, atoi, if◌then◌else◌, ◌==◌, ltb,
  leb, take, drop, length, ◌≡◌, refl,
}
use lumi_os.Lumid.Types.{max_path_len, service_create}
use lumi_os.Lumid.Machine.{Machine, service_register}
use lumi_os.Lumid.Config.{parse_service}

-- "Only process .svc files"
is_svc_name : Text → Bool
is_svc_name name = leb 5 (length name) && text_eq (drop (length name - 4) name) (codes ".svc")

abbrev pub Entry : Type 0
Entry = Text × Option Text

-- One entry of the directory; `true` where a service is loaded.
load_entry : Text → Entry → Machine → Bool × Machine
unfolding is_svc_name
load_entry dir (name, none) m = (false, m)
load_entry dir (name, some bytes) m =
    if is_svc_name name
    then elim (parse_service bytes service_create) [
      | none ↦ (false, m)
      | some s ↦
          let path = take (max_path_len - 1) (dir ++ b'/' ∷ name) in
          (true, service_register (record s { config_path = path }) m)
    ]
    else (false, m)

load_entries : Text → List Entry → Machine → ℕ × Machine
unfolding load_entry
load_entries dir [] m = (0, m)
load_entries dir (e ∷ es) m =
    let (one, m1) = load_entry dir e m in
    let (loaded, m2) = load_entries dir es m1 in (if one then loaded + 1 else loaded, m2)

-- `none` is a directory that cannot be opened.
pub service_load_all : Text → Option (List Entry) → Machine → ℤ × Machine
unfolding load_entries
service_load_all dir none m = (neg 1, m)
service_load_all dir (some entries) m =
    let (loaded, m1) = load_entries dir entries m in (pos loaded, m1)
