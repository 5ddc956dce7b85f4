-- ===== src/Lumid/Ipc/Replies.antt =====
-- What socket_handle_request answers.
use lumi_os.Base.{
  suc, ◌≡◌, refl, sym, ap, ◌∙◌, inl, inr, Bool, true, false, ◌&&◌, none, some, List, [], ◌∷◌, ℤ,
  pos, neg, Text, length, ltb, Bool-cases, is_empty, if◌then◌else◌,
}
use lumi_os.Lumid.Types.{Service, is_running}
use lumi_os.Lumid.Machine.{Kernel, Machine, service_find}
use lumi_os.Lumid.Ipc.{
  Command, start, stop, restart, status, status_all, enable, disable, log, poweroff, reboot, other,
  Request, Response, Message, name_of, none_written, not_found, reply, report, report_each,
  dispatch, handle_request,
}
use lumi_os.Lumid.Lifecycle.Valid.{IsValid}

-- The state and the numbers of a service, as a response shows them.
abbrev pub Shows : Service → Response → Type 0
Shows s r = (r.state ≡ s.state) × (r.pid ≡ s.pid) × (r.exit_code ≡ s.exit_code)

abbrev pub ShowsEach : List Service → List Response → Type 0
ShowsEach [] [] = Unit
ShowsEach [] (r ∷ rs) = ⊥
ShowsEach (s ∷ ss) [] = ⊥
ShowsEach (s ∷ ss) (r ∷ rs) = (Shows s r × (r.message ≡ name_of s.name)) × ShowsEach ss rs

module _ (k : Kernel) where
  report_lem :
      (c : ℤ) (msg : Message) (s : Service) (m : Machine)
      → Shows s (report k c msg s m).0
        × ((report k c msg s m).0.message ≡ msg)
        × ((report k c msg s m).0.code ≡ c)
  unfolding report
  report_lem c msg s m = elim (Bool-cases (is_running s.state && ltb 0 s.start_time)) [
    | inl e ↦ rw e ((refl, refl, refl), refl, refl)
    | inr e ↦ rw e ((refl, refl, refl), refl, refl)
  ]

  ShowsEach-report_each : (ss : List Service) (m : Machine) → ShowsEach ss (report_each k ss m).0
  unfolding report_each
  ShowsEach-report_each [] m = tt
  ShowsEach-report_each (s ∷ ss) m =
      let h = report_lem (pos 0) (name_of s.name) s m in
      ((h.0, h.1), ShowsEach-report_each ss (report k (pos 0) (name_of s.name) s m).1)

  pub length_of_ShowsEach :
      (ss : List Service) (rs : List Response) → ShowsEach ss rs → length rs ≡ length ss
  length_of_ShowsEach [] [] h = refl
  length_of_ShowsEach [] (r ∷ rs) h = absurd h
  length_of_ShowsEach (s ∷ ss) [] h = absurd h
  length_of_ShowsEach (s ∷ ss) (r ∷ rs) h = ap suc (length_of_ShowsEach ss rs h.1)

  -- STATUS_ALL on a valid state sends a first response whose code is the number of those that
  -- follow, and then one for each registered service, in the order of the list, with its name,
  -- state, process id and exit code.
  pub status_all_lem :
      (m : Machine) (name : Text)
      → IsValid m
      → let req : Request = record { cmd = status_all; service_name = name } in
        (head : Response) × (rest : List Response) × ((handle_request k (some req) m).sent
          ≡ head ∷ rest)
        × (head.code ≡ pos (length rest))
        × ShowsEach m.services rest
  unfolding handle_request
  status_all_lem m name v =
      let shown = ShowsEach-report_each m.services m in
      (_, _, refl, ap pos (v.counted ∙ sym (length_of_ShowsEach m.services _ shown)), shown)

-- START, STOP, RESTART, STATUS, ENABLE or DISABLE.
abbrev pub is_for_service : Command → Bool
is_for_service start = true
is_for_service stop = true
is_for_service restart = true
is_for_service status = true
is_for_service enable = true
is_for_service disable = true
is_for_service _ = false

abbrev pub is_toggle : Command → Bool
is_toggle enable = true
is_toggle disable = true
is_toggle _ = false

missing_dispatch :
    (k : Kernel) (m : Machine) (cmd : Command) (name : Text)
    → is_for_service cmd ≡ true
    → dispatch k cmd name none m ≡ record {
      result = pos 0;
      sent =
          (if is_toggle cmd then reply (pos 0) none_written else reply (neg 1) (not_found name))
          ∷ [];
      after = m;
    }
unfolding dispatch
missing_dispatch k m start name h = refl
missing_dispatch k m stop name h = refl
missing_dispatch k m restart name h = refl
missing_dispatch k m status name h = refl
missing_dispatch k m enable name h = refl
missing_dispatch k m disable name h = refl
missing_dispatch k m status_all name h = cc
missing_dispatch k m log name h = cc
missing_dispatch k m poweroff name h = cc
missing_dispatch k m reboot name h = cc
missing_dispatch k m (other n) name h = cc

-- A request for a service that is not registered changes nothing and is answered once: with -1 and
-- "not found" by START, STOP, RESTART and STATUS, but with the code 0 of a success, and an empty
-- message, by ENABLE and DISABLE.
pub missing_service :
    (k : Kernel) (m : Machine) (cmd : Command) (name : Text)
    → is_for_service cmd ≡ true
    → service_find name m ≡ none
    → handle_request k (some (record { cmd = cmd; service_name = name })) m ≡ record {
      result = pos 0;
      sent =
          (if is_toggle cmd then reply (pos 0) none_written else reply (neg 1) (not_found name))
          ∷ [];
      after = m;
    }
unfolding handle_request
missing_service k m cmd name c h = elim (Bool-cases (is_empty name)) [
  | inl e ↦ rw e (missing_dispatch k m cmd name c)
  | inr e ↦ rw (e, h) (missing_dispatch k m cmd name c)
]
