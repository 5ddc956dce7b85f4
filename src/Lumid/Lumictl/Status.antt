-- ===== src/Lumid/Lumictl/Status.antt =====
-- lumictl against the request handler of lumid.
use lumi_os.Base.{
  ltb, ℤ, ◌≢◌, ◌⊎◌, is_positive, eq_ℤ, eq_ℤ_iff, ℕ, ◌+◌, ◌*◌, ◌/◌, ◌<◌, ◌≡◌, refl, sym, ap, subst,
  inl, inr, Bool, true, false, Option, none, some, List, [], ◌∷◌, pos, neg, Text, text_eq,
  text_eq_iff, codes, if◌then◌else◌, length, take, Bool-cases, arith,
}
use lumi_os.Lumid.Types.{
  Service, SvcState, running, failed, stopped, starting, stopping, restarting,
}
use lumi_os.Lumid.Machine.{Kernel, Machine, service_find}
use lumi_os.Lumid.Lifecycle.Valid.{IsValid}
use lumi_os.Lumid.Ipc.{
  Command, start, stop, restart, status, status_all, enable, disable, log, poweroff, reboot, other,
  Request, Response, name_of, not_found, none_written, Handled, handle_request, reply,
}
use lumi_os.Lumid.Ipc.Replies.{
  Shows, ShowsEach, status_all_lem, is_for_service, is_toggle, missing_service, length_of_ShowsEach,
}
use lumi_os.Lumid.Lumictl.{
  Uptime, days, hours, minutes, seconds, format_uptime, Output, loaded, columns, message,
  print_status, Colour, colour_of, Info, nothing, running_as, exited, exit_info, info_of, row, Ran,
  ran, read_each, show_response, Exchange, received, receive, ask, choose, run_command, lumictl,
}

-- The seconds that an uptime shows.
abbrev pub seconds_of : Uptime → ℕ
seconds_of (days d h m s) = 60 * (60 * (24 * d + h) + m) + s
seconds_of (hours h m s) = 60 * (60 * h + m) + s
seconds_of (minutes m s) = 60 * m + s
seconds_of (seconds s) = s

-- No field reaches the next unit, and the first is not 0 but where there are seconds only.
abbrev pub IsNormal : Uptime → Type 0
IsNormal (days d h m s) = (0 < d) × (h < 24) × (m < 60) × (s < 60)
IsNormal (hours h m s) = (0 < h) × (h < 24) × (m < 60) × (s < 60)
IsNormal (minutes m s) = (0 < m) × (m < 60) × (s < 60)
IsNormal (seconds s) = s < 60

-- format_uptime shows the whole seconds of the nanoseconds, in hours below 24 and minutes and
-- seconds below 60, and with no leading 0.
pub format_uptime_lem :
    (ns : ℕ) → (seconds_of (format_uptime ns) ≡ ns / 1000000000) × IsNormal (format_uptime ns)
unfolding format_uptime
format_uptime_lem ns = ground arith

-- The other end of the socket is socket_handle_request in the state `m`.
abbrev pub lumid_link : Kernel → Machine → Request → Exchange
lumid_link k m req = received (handle_request k (some req) m).sent

-- What stands behind the name and the state of an ended service with this exit code.
abbrev pub TellsEnd : ℤ → Info → Type 0
TellsEnd code i = ((code ≢ neg 1) × (i ≡ exited code)) ⊎ ((code ≡ neg 1) × (i ≡ nothing))

-- And of a service with this process id that is running.
abbrev pub TellsProcess : ℤ → Info → Type 0
TellsProcess pid i =
    ((is_positive pid ≡ true) × (up : Option Uptime) × (i ≡ running_as pid up))
    ⊎ ((is_positive pid ≡ false) × (i ≡ nothing))

abbrev pub Tells : SvcState → ℤ → ℤ → Info → Type 0
Tells running pid code i = TellsProcess pid i
Tells failed pid code i = TellsEnd code i
Tells stopped pid code i = TellsEnd code i
Tells starting pid code i = i ≡ nothing
Tells stopping pid code i = i ≡ nothing
Tells restarting pid code i = i ≡ nothing

-- One line for each service, in order, with its name and state and what Tells says of the rest.
abbrev pub PrintsEach : List Service → List Output → Type 0
PrintsEach [] [] = Unit
PrintsEach [] (o ∷ os) = ⊥
PrintsEach (s ∷ ss) [] = ⊥
PrintsEach (s ∷ ss) (o ∷ os) =
    ((colour : Colour) × (i : Info) × (o ≡ row (name_of s.name) colour s.state i)
      × Tells s.state s.pid s.exit_code i)
    × PrintsEach ss os

exit_info-TellsEnd : (code : ℤ) → TellsEnd code (exit_info code)
unfolding exit_info
exit_info-TellsEnd code = elim (Bool-cases (eq_ℤ code (neg 1))) [
  | inl e ↦ inr ((eq_ℤ_iff code (neg 1)).0 e, rw e refl)
  | inr e ↦ inl (λ q. ground (arith, (eq_ℤ_iff code (neg 1)).1 q), rw e refl)
]

info_of-Tells : (state : SvcState) (r : Response) → Tells state r.pid r.exit_code (info_of state r)
unfolding info_of
info_of-Tells running r = elim (Bool-cases (is_positive r.pid)) [
  | inl e ↦ inl (e, if ltb 0 r.uptime then some (format_uptime r.uptime) else none, rw e refl)
  | inr e ↦ inr (e, rw e refl)
]
info_of-Tells failed r = exit_info-TellsEnd r.exit_code
info_of-Tells stopped r = exit_info-TellsEnd r.exit_code
info_of-Tells starting r = refl
info_of-Tells stopping r = refl
info_of-Tells restarting r = refl

print_status-Tells :
    (tty : Bool) (s : Service) (r : Response)
    → Shows s r
    → (r.message ≡ name_of s.name)
    → (colour : Colour) × (i : Info) × (print_status tty r.message r
        ≡ row (name_of s.name) colour s.state i)
      × Tells s.state s.pid s.exit_code i
unfolding print_status
print_status-Tells tty s r (state, pid, code) named =
    let told = info_of-Tells r.state r in
    let i = info_of r.state r in
    (
      colour_of tty r.state,
      i,
      cc (state, named),
      subst (λ (q : SvcState). Tells q s.pid s.exit_code i) state
          (subst (λ (p : ℤ). Tells r.state p s.exit_code i) pid
            (subst (λ (c : ℤ). Tells r.state r.pid c i) code told)),
    )

PrintsEach-read_each :
    (tty : Bool) (ss : List Service) (rs : List Response)
    → ShowsEach ss rs
    → PrintsEach ss (read_each tty (length rs) rs)
unfolding read_each
PrintsEach-read_each tty [] [] h = tt
PrintsEach-read_each tty [] (r ∷ rs) h = absurd h
PrintsEach-read_each tty (s ∷ ss) [] h = absurd h
PrintsEach-read_each tty (s ∷ ss) (r ∷ rs) h =
    (print_status-Tells tty s r h.0.0 h.0.1, PrintsEach-read_each tty ss rs h.1)

-- `lumictl status` at a lumid in a valid state exits with 0 and prints the number of the registered
-- services, the head of the table, and then for each of them, in order, one line with its name and
-- state. Behind these stand, for a RUNNING service whose process id is above 0, that id with an
-- uptime or none; for a FAILED or STOPPED one whose exit code is not -1, that code; and for every
-- other service nothing.
pub lumictl_status_all :
    (k : Kernel) (m : Machine) (tty : Bool) (log_of : Text → Option Text)
    → IsValid m
    → (rows : List Output) × (lumictl tty log_of (lumid_link k m) (codes "status" ∷ [])
        ≡ ran (pos 0) (loaded (pos (length m.services)) ∷ columns ∷ rows))
      × PrintsEach m.services rows
unfolding lumictl run_command choose receive show_response text_eq
lumictl_status_all k m tty log_of v =
    let (head, rest, e, c, shown) = status_all_lem k m [] v in
    let counted = length_of_ShowsEach k m.services rest shown in
    (
      read_each tty (length rest) rest,
      rw (e, c, receive, show_response, counted) refl,
      PrintsEach-read_each tty m.services rest shown,
    )

not_log :
    (word svc : Text) (cmd : Command)
    → choose word svc ≡ ask cmd
    → text_eq word (codes "log") ≡ false
unfolding choose text_eq
not_log word svc cmd c = elim (Bool-cases (text_eq word (codes "log"))) [
  | inl e ↦
      let log_asked : choose (codes "log") svc ≡ ask cmd =
        subst (λ (w : Text). choose w svc ≡ ask cmd) ((text_eq_iff word (codes "log")).0 e) c in
      absurd (cc)
  | inr e ↦ e
]

-- The answer to a request for a service that is not registered.
abbrev missing_reply : Command → Text → List Response
missing_reply cmd name =
    (if is_toggle cmd then reply (pos 0) none_written else reply (neg 1) (not_found name)) ∷ []

-- What lumictl makes of it: success for ENABLE and DISABLE.
abbrev pub MissingRan : Command → Ran → Type 0
MissingRan cmd r =
    if is_toggle cmd then r ≡ ran (pos 0) (message none_written ∷ []) else r.exit_status ≡ pos 1

missing_shown :
    (tty : Bool) (cmd : Command) (svc name : Text)
    → is_for_service cmd ≡ true
    → MissingRan cmd (receive tty cmd svc (received (missing_reply cmd name)))
unfolding receive show_response
missing_shown tty start svc name h = refl
missing_shown tty stop svc name h = refl
missing_shown tty restart svc name h = refl
missing_shown tty status svc name h = refl
missing_shown tty enable svc name h = refl
missing_shown tty disable svc name h = refl
missing_shown tty status_all svc name h = absurd (cc)
missing_shown tty log svc name h = absurd (cc)
missing_shown tty poweroff svc name h = absurd (cc)
missing_shown tty reboot svc name h = absurd (cc)
missing_shown tty (other n) svc name h = absurd (cc)

-- For a service that is not registered (under the first 63 bytes of its name), lumictl start, stop,
-- restart and status exit with 1, but lumictl enable and disable exit with 0, and print an empty
-- message and no error.
pub lumictl_missing :
    (k : Kernel) (m : Machine) (tty : Bool) (log_of : Text → Option Text) (word svc : Text)
    (cmd : Command)
    → choose word svc ≡ ask cmd
    → is_for_service cmd ≡ true
    → service_find (take 63 svc) m ≡ none
    → MissingRan cmd (lumictl tty log_of (lumid_link k m) (word ∷ svc ∷ []))
unfolding lumictl run_command
lumictl_missing k m tty log_of word svc cmd c f n =
    let answered = ap (λ (h : Handled). h.sent) (missing_service k m cmd (take 63 svc) f n) in
    let asked : run_command tty log_of (lumid_link k m) word svc
        ≡ receive tty cmd svc (received (missing_reply cmd (take 63 svc))) =
      rw (not_log word svc cmd c, run_command, c, answered) refl in
    subst (λ (r : Ran). MissingRan cmd r) (sym asked) (missing_shown tty cmd svc (take 63 svc) f)
