-- ===== src/Lumid/Config/State.antt =====
-- The parser of config.c and the state of a service.
use lumi_os.Base.{
  ◌≡◌, refl, subst, ◌∙◌, inl, inr, ◌||◌, none, some, false, List, [], ◌∷◌, Text, is_empty,
  if◌then◌else◌, ◌==◌, split_at, arith, Bool-cases, Option-cases, lines,
}
use lumi_os.Lumid.Types.{Service, max_path_len, max_line_len}
use lumi_os.Lumid.Config.{
  trim, parse_value, set_service_key, set_dependencies_key, set_restart_key, set_cgroup_key,
  set_environment_key, set_key, Parsing, parse_entry, parse_header, parse_trimmed, parse_lines,
  parse_file, parse_service,
}

abbrev KeepsState : Service → Service → Type 0
KeepsState s t = t.state ≡ s.state

module _ (key value : Text) (s : Service) where
  service_key-state : (set_service_key key value s).state ≡ s.state
  unfolding set_service_key
  service_key-state = ground arith

  dependencies_key-state : (set_dependencies_key key value s).state ≡ s.state
  unfolding set_dependencies_key
  dependencies_key-state = ground arith

  restart_key-state : (set_restart_key key value s).state ≡ s.state
  unfolding set_restart_key
  restart_key-state = ground arith

  cgroup_key-state : (set_cgroup_key key value s).state ≡ s.state
  unfolding set_cgroup_key
  cgroup_key-state = ground arith

  environment_key-state : (set_environment_key key value s).state ≡ s.state
  unfolding set_environment_key
  environment_key-state = ground arith

  set_key-state : (section : Text) → (set_key section key value s).state ≡ s.state
  unfolding set_key
  set_key-state section = ground (
    arith, service_key-state, dependencies_key-state, restart_key-state, cgroup_key-state,
    environment_key-state,
  )

parse_entry-state : (l : Text) (p : Parsing) → (parse_entry l p).1.state ≡ p.1.state
unfolding parse_entry
parse_entry-state l (section, s, overrun) = elim (Option-cases (parse_value max_path_len l)) [
  | inl e ↦ rw (e, parse_entry) refl
  | inr ((key, value), e) ↦ rw (e, parse_entry) (set_key-state key value s section)
]

parse_header-state : (l : Text) (p : Parsing) → (parse_header l p).1.state ≡ p.1.state
unfolding parse_header
parse_header-state l (section, s, overrun) = elim (Option-cases (split_at b']' l)) [
  | inl e ↦ rw (e, parse_header) refl
  | inr ((title, rest), e) ↦ rw (e, parse_header) refl
]

parse_trimmed-state : (l : Text) (p : Parsing) → (parse_trimmed l p).1.state ≡ p.1.state
unfolding parse_trimmed
parse_trimmed-state [] p = refl
parse_trimmed-state (c ∷ l) p = elim (Bool-cases (c == b'#' || c == b';')) [
  | inl e ↦ rw e refl
  | inr e ↦ elim (Bool-cases (c == b'[')) [
    | inl f ↦ rw (e, f) (parse_header-state l p)
    | inr f ↦ rw (e, f) (parse_entry-state (c ∷ l) p)
  ]
]

parse_lines-state : (ls : List Text) (p : Parsing) → (parse_lines ls p).1.state ≡ p.1.state
unfolding parse_lines
parse_lines-state [] p = refl
parse_lines-state (l ∷ ls) p =
    parse_lines-state ls (parse_trimmed (trim l) p) ∙ parse_trimmed-state (trim l) p

pub parse_service-state :
    (bytes : Text) (s t : Service) → parse_service bytes s ≡ some t → t.state ≡ s.state
unfolding parse_service parse_file
parse_service-state bytes s t h =
    last _ (parse_lines-state (lines max_line_len bytes) ([], s, false)) h
  where
    last :
        (u : Service)
        → u.state ≡ s.state
        → (if is_empty u.name || is_empty u.exec_path then none else some u) ≡ some t
        → t.state ≡ s.state
    last u e f = elim (Bool-cases (is_empty u.name || is_empty u.exec_path)) [
      | inl g ↦ ground arith
      | inr g ↦ let q : u ≡ t = ground arith in subst (λ v. v.state ≡ s.state) q e
    ]
