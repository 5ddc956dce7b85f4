-- ===== src/Sandbox/PolicyFile.antt =====
-- sbx_policy_load and sbx_policy_save of system/core/sandbox/src/sandbox.c, on the bytes of the
-- file, with no NUL among them, where it can be opened.
--
-- `level` is an int in the C structure and any number in a file: it is kept beside the rest of the
-- policy, whose own field of that name is not used here.
pub mod Entry
pub mod Field
pub mod RoundTrip
pub mod Rules
mod Tests
use lumi_os.Base.{
  ℕ, ◌+◌, ◌-◌, ◌%◌, ◌^◌, Bool, true, false, not, ◌||◌, Option, none, some, List, [], ◌∷◌, ◌++◌, ℤ,
  pos, negsuc, Text, codes, text_eq, is_empty, is_space, skip_spaces, split_at, chomp, word, atoi,
  strtoul, print_in, lines, unlines, if◌then◌else◌, ltb, ◌==◌, length, take,
}
use lumi_os.Sandbox.Policy.{
  Level, unconfined, trusted, normal, strict, untrusted, PathRule, Policy, max_path_rules, zeroed,
}

pub record Loaded : Type 0 where
  pub level : ℤ
  pub rest : Policy

abbrev pub number_of : Level → ℕ
number_of unconfined = 0
number_of trusted = 1
number_of normal = 2
number_of strict = 3
number_of untrusted = 4

-- sscanf (line, "%63[^=]=%255s", key, val), or none where it is not 2.
value_of : Text → Text → Option (Text × Text)
unfolding word
value_of key rest =
    let val = take 255 (word (skip_spaces rest)) in if is_empty val then none else some (key, val)

pub scan_entry : Text → Option (Text × Text)
unfolding value_of
scan_entry line = elim (split_at b'=' line) [
  | none ↦ none
  | some (key, rest) ↦ if is_empty key || ltb 63 (length key) then none else value_of key rest
]

-- The conversion of an int to uint32_t.
pub to_u32 : ℤ → ℕ
to_u32 (pos n) = n % 2 ^ 32
to_u32 (negsuc n) = 2 ^ 32 - 1 - n % 2 ^ 32

pub flags_of : Text → ℕ
flags_of s = strtoul s % 2 ^ 32

-- path=/usr:0x03
add_path : Text → Policy → Policy
unfolding flags_of
add_path val p = elim (split_at b':' val) [
  | none ↦ p
  | some (path, flags) ↦
      if ltb (length p.path_rules) max_path_rules
      then record p {
        path_rules = p.path_rules ++ (record { path = take 255 path; flags = flags_of flags } ∷ []);
      }
      else p
]

-- strncmp (key, "path", 4) == 0 is a test of the first four bytes.
pub set_entry : Text → Text → Loaded → Loaded
unfolding add_path to_u32 flags_of
set_entry key val l =
    let p = l.rest in
    if text_eq key (codes "name")
    then record l { rest = record p { name = take 63 val } }
    else if text_eq key (codes "level")
    then record l { level = atoi val }
    else if text_eq key (codes "net")
    then record l { rest = record p { net_flags = flags_of val } }
    else if text_eq key (codes "ipc")
    then record l { rest = record p { ipc_flags = flags_of val } }
    else if text_eq key (codes "hw")
    then record l { rest = record p { hw_flags = flags_of val } }
    else if text_eq key (codes "apparmor")
    then record l { rest = record p { apparmor_profile = take 127 val } }
    else if text_eq key (codes "max_memory")
    then record l { rest = record p { max_memory = strtoul val } }
    else if text_eq key (codes "max_pids")
    then record l { rest = record p { max_pids = to_u32 (atoi val) } }
    else if text_eq key (codes "max_fds")
    then record l { rest = record p { max_fds = to_u32 (atoi val) } }
    else if text_eq (take 4 key) (codes "path")
    then record l { rest = add_path val p }
    else l

pub is_comment : Text → Bool
is_comment [] = true
is_comment (c ∷ s) = c == b'#'

pub load_line : Text → Loaded → Loaded
unfolding chomp scan_entry set_entry is_comment
load_line line l =
    let entry = chomp line in
    if is_comment entry
    then l
    else elim (scan_entry entry) [ none ↦ l | some (key, val) ↦ set_entry key val l ]

pub load_lines : List Text → Loaded → Loaded
unfolding load_line
load_lines [] l = l
load_lines (s ∷ ss) l = load_lines ss (load_line s l)

unfoldable pub sbx_policy_load : Text → Loaded
unfolding load_lines
sbx_policy_load bytes =
    load_lines (lines 512 bytes) (record { level = pos 0; rest = zeroed unconfined })

abbrev pub hex : ℕ → Text
hex n = codes "0x" ++ print_in 16 n

abbrev pub decimal : ℕ → Text
decimal n = print_in 10 n

abbrev pub when : Bool → Text → List Text
when b line = if b then line ∷ [] else []

pub path_lines : List PathRule → List Text
path_lines [] = []
path_lines (r ∷ rs) = (codes "path=" ++ (r.path ++ b':' ∷ hex r.flags)) ∷ path_lines rs

pub policy_lines : Policy → List Text
unfolding path_lines
policy_lines p =
    codes "# LumiOS sandbox policy"
    ∷ (codes "name=" ++ p.name)
    ∷ (codes "level=" ++ decimal (number_of p.level))
    ∷ (codes "net=" ++ hex p.net_flags)
    ∷ (codes "ipc=" ++ hex p.ipc_flags)
    ∷ (codes "hw=" ++ hex p.hw_flags)
    ∷ (when (not (is_empty p.apparmor_profile)) (codes "apparmor=" ++ p.apparmor_profile)
        ++ (when (ltb 0 p.max_memory) (codes "max_memory=" ++ decimal p.max_memory)
            ++ (when (ltb 0 p.max_pids) (codes "max_pids=" ++ decimal p.max_pids)
                ++ (when (ltb 0 p.max_fds) (codes "max_fds=" ++ decimal p.max_fds)
                    ++ path_lines p.path_rules))))

pub sbx_policy_save : Policy → Text
unfolding policy_lines
sbx_policy_save p = unlines (policy_lines p)
