-- ===== src/Lumid/Config.antt =====
-- system/core/lumid/src/config.c: the parser of .svc files. A file is its bytes, with no NUL among
-- them.
mod Size
pub mod Value
pub mod Bounds
pub mod Keys
pub mod State
pub mod Tests
use lumi_os.Lumid.Config.Size.{parse_size}
use lumi_os.Base.{
  ℕ, zero, suc, ◌+◌, ◌-◌, ◌*◌, ◌%◌, ◌^◌, ◌/◌, Bool, true, false, ◌&&◌, ◌||◌, not, Option, none,
  some, List, [], ◌∷◌, ◌++◌, reverse, map, ℤ, pos, negsuc, neg, Text, codes, text_eq, is_empty,
  is_space, skip_spaces, drop_trailing, split_at, tokens, strtoll, atoi, if◌then◌else◌, ◌==◌, ltb,
  leb, take, drop, length, lines, ◌≡◌, refl,
}
use lumi_os.Lumid.Types.{
  Service, EnvVar, RestartPolicy, never, always, on_failure, on_abnormal, SvcType, simple, forking,
  oneshot, notify, max_name_len, max_path_len, max_line_len, max_deps, max_env, service_create,
}

pub trim : Text → Text
trim s = drop_trailing (skip_spaces s)

-- config_parse_value: the key and the value, each in `max` bytes with its NUL.
pub parse_value : ℕ → Text → Option (Text × Text)
unfolding trim
parse_value max line = elim (split_at b'=' line) [
  | none ↦ none
  | some (before, after) ↦
      some (trim (take (max - 1) before), drop_trailing (take (max - 1) (skip_spaces after)))
]

parse_restart_policy : Text → RestartPolicy
parse_restart_policy s =
    if text_eq s (codes "always")
    then always
    else if text_eq s (codes "on-failure")
    then on_failure
    else if text_eq s (codes "on-abnormal")
    then on_abnormal
    else never

pub parse_service_type : Text → SvcType
parse_service_type s =
    if text_eq s (codes "forking")
    then forking
    else if text_eq s (codes "oneshot")
    then oneshot
    else if text_eq s (codes "notify")
    then notify
    else simple

is_separator : ℕ → Bool
is_separator c = c == 32 || c == 9 || c == b','

-- strncpy into a zeroed array of `n` bytes whose last byte is kept.
abbrev pub fill : ℕ → Text → Text
fill n s = take (n - 1) s

pub parse_dep_list : Text → List Text
unfolding is_separator
parse_dep_list s =
    map (λ t. fill max_name_len t) (take max_deps (tokens is_separator (fill max_line_len s)))

-- `*out` is written only where the size is well formed.
abbrev size_or : ℤ → Text → ℤ
size_or before s = elim (parse_size s) [ none ↦ before | some n ↦ n ]

-- The five sections: the chain of tests on the key.
set_service_key : Text → Text → Service → Service
unfolding parse_service_type
set_service_key key value s =
    if text_eq key (codes "name")
    then record s { name = fill max_name_len value }
    else if text_eq key (codes "description")
    then record s { description = fill max_path_len value }
    else if text_eq key (codes "exec")
    then record s { exec_path = fill max_path_len value }
    else if text_eq key (codes "args")
    then record s { exec_args = fill max_path_len value }
    else if text_eq key (codes "type")
    then record s { type = parse_service_type value }
    else if text_eq key (codes "user")
    then record s { user = fill max_name_len value }
    else if text_eq key (codes "group")
    then record s { group = fill max_name_len value }
    else if text_eq key (codes "workdir")
    then record s { working_dir = fill max_path_len value }
    else s

set_dependencies_key : Text → Text → Service → Service
set_dependencies_key key value s =
    if text_eq key (codes "requires")
    then record s { requires = parse_dep_list value }
    else if text_eq key (codes "after")
    then record s { after = parse_dep_list value }
    else if text_eq key (codes "before")
    then record s { before = parse_dep_list value }
    else s

set_restart_key : Text → Text → Service → Service
unfolding parse_restart_policy
set_restart_key key value s =
    if text_eq key (codes "policy")
    then record s { restart_policy = parse_restart_policy value }
    else if text_eq key (codes "delay")
    then record s { restart_delay_ms = atoi value }
    else if text_eq key (codes "max_retries")
    then record s { restart_max_retries = atoi value }
    else s

set_cgroup_key : Text → Text → Service → Service
set_cgroup_key key value s =
    let c = s.cgroup in
    if text_eq key (codes "memory_max")
    then record s { cgroup = record c { memory_max = size_or c.memory_max value } }
    else if text_eq key (codes "memory_high")
    then record s { cgroup = record c { memory_high = size_or c.memory_high value } }
    else if text_eq key (codes "cpu_weight")
    then record s { cgroup = record c { cpu_weight = atoi value } }
    else if text_eq key (codes "cpu_max")
    then record s { cgroup = record c { cpu_max = atoi value } }
    else if text_eq key (codes "io_weight")
    then record s { cgroup = record c { io_weight = atoi value } }
    else if text_eq key (codes "pids_max")
    then record s { cgroup = record c { pids_max = atoi value } }
    else s

set_environment_key : Text → Text → Service → Service
set_environment_key key value s =
    if ltb (length s.env) max_env
    then record s {
      env = s.env ++ (record { key = fill max_name_len key; value = fill max_path_len value } ∷ []);
    }
    else s

-- A `key = value` line of a section.
pub set_key : Text → Text → Text → Service → Service
unfolding set_service_key set_dependencies_key set_restart_key set_cgroup_key set_environment_key
set_key section key value s =
    if text_eq section (codes "service")
    then set_service_key key value s
    else if text_eq section (codes "dependencies")
    then set_dependencies_key key value s
    else if text_eq section (codes "restart")
    then set_restart_key key value s
    else if text_eq section (codes "cgroup")
    then set_cgroup_key key value s
    else if text_eq section (codes "environment")
    then set_environment_key key value s
    else s

-- The loop's state: `section`, the service, and whether a key was written behind the end of `key`.
-- What the source does from there on is undefined; the model goes on with the key as it is.
abbrev pub Parsing : Type 0
Parsing = Text × Service × Bool

-- char key[128]
abbrev pub key_size : ℕ
key_size = 128

-- The bytes that config_parse_value writes into `key`, with the NUL.
pub key_bytes : ℕ → Text → ℕ
key_bytes max line = elim (split_at b'=' line) [
  | none ↦ 0
  | some (before, after) ↦ length (take (max - 1) before) + 1
]

-- The bound of both arrays is that of `value`, LUMID_MAX_PATH_LEN.
parse_entry : Text → Parsing → Parsing
unfolding set_key key_bytes
parse_entry l (section, s, overrun) = elim (parse_value max_path_len l) [
  | none ↦ (section, s, overrun)
  | some (key, value) ↦
      (section, set_key section key value s, overrun || ltb key_size (key_bytes max_path_len l))
]

parse_header : Text → Parsing → Parsing
parse_header rest (section, s, overrun) = elim (split_at b']' rest) [
  | none ↦ (section, s, overrun)
  | some (title, after) ↦ (take 63 title, s, overrun)
]

-- One line, trimmed. `[` is skipped before strchr looks for `]`, which it is not.
parse_trimmed : Text → Parsing → Parsing
unfolding parse_entry parse_header
parse_trimmed [] p = p
parse_trimmed (c ∷ rest) p =
    if c == b'#' || c == b';'
    then p
    else if c == b'['
    then parse_header rest p
    else parse_entry (c ∷ rest) p

parse_lines : List Text → Parsing → Parsing
unfolding parse_trimmed trim
parse_lines [] p = p
parse_lines (l ∷ ls) p = parse_lines ls (parse_trimmed (trim l) p)

parse_file : Text → Service → Parsing
unfolding parse_lines
parse_file bytes s = parse_lines (lines max_line_len bytes) ([], s, false)

-- config_parse_service on a file that can be opened; `none` is -1.
pub parse_service : Text → Service → Option Service
unfolding parse_file
parse_service bytes s =
    let t = (parse_file bytes s).1 in
    if is_empty t.name || is_empty t.exec_path then none else some t

-- Whether config_parse_service writes behind the end of `key`.
pub overruns_key : Text → Bool
unfolding parse_file
overruns_key bytes = (parse_file bytes service_create).2
