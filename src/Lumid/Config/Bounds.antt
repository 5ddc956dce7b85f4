-- ===== src/Lumid/Config/Bounds.antt =====
-- What the parser of config.c stores in the arrays of `service_t`.
use lumi_os.Base.{
  ℕ, ◌-◌, ◌≤◌, ◌<◌, ◌≡◌, subst, inl, inr, Bool, true, false, ◌||◌, none, some, List, [], ◌∷◌, ◌++◌,
  Text, text_eq, codes, is_empty, length, length-append, length-take, take, if◌then◌else◌, map,
  length-map, ◌==◌, split_at, tokens, arith, Bool-cases, Option-cases, lines,
}
use lumi_os.Lumid.Types.{
  Service, EnvVar, max_name_len, max_path_len, max_line_len, max_deps, max_env, service_create,
}
use lumi_os.Lumid.Config.{
  trim, parse_value, parse_service_type, fill, is_separator, parse_dep_list, set_service_key,
  set_dependencies_key, set_restart_key, set_cgroup_key, set_environment_key, set_key, Parsing,
  parse_entry, parse_header, parse_trimmed, parse_lines, parse_file, parse_service,
}

-- The text and its NUL fit in `n` bytes.
abbrev pub Fits : ℕ → Text → Type 0
Fits n s = length s < n

abbrev pub AllFit : ℕ → List Text → Type 0
AllFit n [] = Unit
AllFit n (s ∷ ss) = Fits n s × AllFit n ss

abbrev pub EnvFits : List EnvVar → Type 0
EnvFits [] = Unit
EnvFits (e ∷ es) = (Fits max_name_len e.key × Fits max_path_len e.value) × EnvFits es

-- Every array of the structure holds what the model's lists and texts hold.
pub record IsBounded (s : Service) : Type 0 where
  pub name : Fits max_name_len s.name
  pub description : Fits max_path_len s.description
  pub exec_path : Fits max_path_len s.exec_path
  pub exec_args : Fits max_path_len s.exec_args
  pub working_dir : Fits max_path_len s.working_dir
  pub user : Fits max_name_len s.user
  pub group : Fits max_name_len s.group
  pub requires : length s.requires ≤ max_deps
  pub requires_fit : AllFit max_name_len s.requires
  pub after : length s.after ≤ max_deps
  pub after_fit : AllFit max_name_len s.after
  pub before : length s.before ≤ max_deps
  pub before_fit : AllFit max_name_len s.before
  pub env : length s.env ≤ max_env
  pub env_fit : EnvFits s.env

Fits-fill_name : (s : Text) → Fits max_name_len (fill max_name_len s)
Fits-fill_name s = omega (arith, length-take (max_name_len - 1) s)

Fits-fill_path : (s : Text) → Fits max_path_len (fill max_path_len s)
Fits-fill_path s = omega (arith, length-take (max_path_len - 1) s)

AllFit-map : (ss : List Text) → AllFit max_name_len (map (λ t. fill max_name_len t) ss)
AllFit-map [] = tt
AllFit-map (s ∷ ss) = (Fits-fill_name s, AllFit-map ss)

parse_dep_list_bounds :
    (s : Text) → (length (parse_dep_list s) ≤ max_deps) × AllFit max_name_len (parse_dep_list s)
unfolding parse_dep_list
parse_dep_list_bounds s =
    let ts = tokens is_separator (fill max_line_len s) in
    (
      omega (
        arith,
        length-map (take max_deps ts) (λ t. fill max_name_len t),
        length-take max_deps ts,
      ),
      AllFit-map (take max_deps ts),
    )

EnvFits-append :
    (es : List EnvVar) (e : EnvVar)
    → EnvFits es
    → Fits max_name_len e.key × Fits max_path_len e.value
    → EnvFits (es ++ (e ∷ []))
EnvFits-append [] e h k = (k, tt)
EnvFits-append (f ∷ es) e h k = (h.0, EnvFits-append es e h.1 k)

-- A chain of tests keeps what each of its branches keeps.
if-IsBounded :
    (c : Bool) {s t : Service} → IsBounded s → IsBounded t → IsBounded (if c then s else t)
if-IsBounded true h k = h
if-IsBounded false h k = k

set_service_key-IsBounded :
    (key value : Text) (s : Service) → IsBounded s → IsBounded (set_service_key key value s)
unfolding set_service_key
set_service_key-IsBounded key value s b =
    if-IsBounded (text_eq key (codes "name")) {s = record s { name = fill max_name_len value }}
      (ground (arith, Fits-fill_name value))
      (if-IsBounded (text_eq key (codes "description"))
        {s = record s { description = fill max_path_len value }}
        (ground (arith, Fits-fill_path value))
        (if-IsBounded (text_eq key (codes "exec"))
          {s = record s { exec_path = fill max_path_len value }}
          (ground (arith, Fits-fill_path value))
          (if-IsBounded (text_eq key (codes "args"))
            {s = record s { exec_args = fill max_path_len value }}
            (ground (arith, Fits-fill_path value))
            (if-IsBounded (text_eq key (codes "type"))
              {s = record s { type = parse_service_type value }} (ground arith)
              (if-IsBounded (text_eq key (codes "user"))
                {s = record s { user = fill max_name_len value }}
                (ground (arith, Fits-fill_name value))
                (if-IsBounded (text_eq key (codes "group"))
                  {s = record s { group = fill max_name_len value }}
                  (ground (arith, Fits-fill_name value))
                  (if-IsBounded (text_eq key (codes "workdir"))
                    {s = record s { working_dir = fill max_path_len value }}
                    (ground (arith, Fits-fill_path value)) b)))))))

set_dependencies_key-IsBounded :
    (key value : Text) (s : Service) → IsBounded s → IsBounded (set_dependencies_key key value s)
unfolding set_dependencies_key
set_dependencies_key-IsBounded key value s b = ground (arith, parse_dep_list_bounds value)

set_restart_key-IsBounded :
    (key value : Text) (s : Service) → IsBounded s → IsBounded (set_restart_key key value s)
unfolding set_restart_key
set_restart_key-IsBounded key value s b = ground arith

set_cgroup_key-IsBounded :
    (key value : Text) (s : Service) → IsBounded s → IsBounded (set_cgroup_key key value s)
unfolding set_cgroup_key
set_cgroup_key-IsBounded key value s b = ground arith

set_environment_key-IsBounded :
    (key value : Text) (s : Service) → IsBounded s → IsBounded (set_environment_key key value s)
unfolding set_environment_key
set_environment_key-IsBounded key value s b = ground (
  arith,
  Fits-fill_name key,
  Fits-fill_path value,
  length-append s.env
      (record { key = fill max_name_len key; value = fill max_path_len value } ∷ []),
  EnvFits-append s.env (record { key = fill max_name_len key; value = fill max_path_len value }),
)

set_key-IsBounded :
    (section key value : Text) (s : Service) → IsBounded s → IsBounded (set_key section key value s)
unfolding set_key
set_key-IsBounded section key value s b =
    if-IsBounded (text_eq section (codes "service")) (set_service_key-IsBounded key value s b) (
      if-IsBounded (text_eq section (codes "dependencies"))
        (set_dependencies_key-IsBounded key value s b)
        (if-IsBounded (text_eq section (codes "restart")) (set_restart_key-IsBounded key value s b)
          (if-IsBounded (text_eq section (codes "cgroup")) (set_cgroup_key-IsBounded key value s b)
            (if-IsBounded (text_eq section (codes "environment"))
              (set_environment_key-IsBounded key value s b) b))))

parse_entry-IsBounded : (l : Text) (p : Parsing) → IsBounded p.1 → IsBounded (parse_entry l p).1
unfolding parse_entry
parse_entry-IsBounded l (section, s, overrun) b = elim (Option-cases (parse_value max_path_len l)) [
  | inl e ↦ rw (e, parse_entry) b
  | inr ((key, value), e) ↦ rw (e, parse_entry) (set_key-IsBounded section key value s b)
]

parse_header-IsBounded : (l : Text) (p : Parsing) → IsBounded p.1 → IsBounded (parse_header l p).1
unfolding parse_header
parse_header-IsBounded l (section, s, overrun) b = elim (Option-cases (split_at b']' l)) [
  | inl e ↦ rw (e, parse_header) b
  | inr ((title, rest), e) ↦ rw (e, parse_header) b
]

parse_trimmed-IsBounded : (l : Text) (p : Parsing) → IsBounded p.1 → IsBounded (parse_trimmed l p).1
unfolding parse_trimmed
parse_trimmed-IsBounded [] p b = b
parse_trimmed-IsBounded (c ∷ l) p b = elim (Bool-cases (c == b'#' || c == b';')) [
  | inl e ↦ rw e b
  | inr e ↦ elim (Bool-cases (c == b'[')) [
    | inl f ↦ rw (e, f) (parse_header-IsBounded l p b)
    | inr f ↦ rw (e, f) (parse_entry-IsBounded (c ∷ l) p b)
  ]
]

parse_lines-IsBounded :
    (ls : List Text) (p : Parsing) → IsBounded p.1 → IsBounded (parse_lines ls p).1
unfolding parse_lines
parse_lines-IsBounded [] p b = b
parse_lines-IsBounded (l ∷ ls) p b =
    parse_lines-IsBounded ls (parse_trimmed (trim l) p) (parse_trimmed-IsBounded (trim l) p b)

create-IsBounded : IsBounded service_create
unfolding service_create
create-IsBounded = omega arith

-- A service that is accepted has a name and a program, and every text and list in it fits.
pub accepted-IsBounded :
    (bytes : Text) (s : Service)
    → parse_service bytes service_create ≡ some s
    → IsBounded s × (is_empty s.name ≡ false) × (is_empty s.exec_path ≡ false)
unfolding parse_service parse_file
accepted-IsBounded bytes s h =
    last _
      (parse_lines-IsBounded (lines max_line_len bytes) ([], service_create, false)
        create-IsBounded)
      h
  where
    last :
        (t : Service)
        → IsBounded t
        → (if is_empty t.name || is_empty t.exec_path then none else some t) ≡ some s
        → IsBounded s × (is_empty s.name ≡ false) × (is_empty s.exec_path ≡ false)
    last t b e = elim (Bool-cases (is_empty t.name || is_empty t.exec_path)) [
      | inl f ↦ ground arith
      | inr f ↦
          subst (λ u. IsBounded u × (is_empty u.name ≡ false) × (is_empty u.exec_path ≡ false))
            (ground arith) (b, ground arith, ground arith)
    ]
