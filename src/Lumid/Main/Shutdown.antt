-- ===== src/Lumid/Main/Shutdown.antt =====
-- How lumid leaves its event loop, and how shutdown_system leaves the machine.
use lumi_os.Base.{
  ℕ, ◌≡◌, refl, subst, ◌∙◌, inl, inr, Bool, true, false, Option, none, some, List, [], ◌∷◌, In,
  Bool-cases, if◌then◌else◌, arith,
}
use lumi_os.Lumid.Machine.{Kernel}
use lumi_os.Lumid.Load.{Entry}
use lumi_os.Lumid.Main.{
  System, Signalled, child, shutdown, hangup, ignored, Event, signals, client, Round, interrupted,
  broken, ready, restarts, powers_off, handle_signal, handle_event, handle_events, health_check,
  event_loop, shutdown_system, lumid,
}

module _ (k : Kernel) where
  handle_signal-reboot : (l : List Signalled) (s : System) → (handle_signal k l s).reboot ≡ s.reboot
  unfolding handle_signal
  handle_signal-reboot [] s = refl
  handle_signal-reboot (child ended ∷ rest) s = handle_signal-reboot rest _
  handle_signal-reboot (shutdown ∷ rest) s = handle_signal-reboot rest (record s { is_on = false })
  handle_signal-reboot (hangup entries ∷ rest) s = handle_signal-reboot rest _
  handle_signal-reboot (ignored ∷ rest) s = handle_signal-reboot rest s

  handle_events-reboot : (es : List Event) (s : System) → (handle_events k es s).reboot ≡ s.reboot
  unfolding handle_events handle_event
  handle_events-reboot [] s = refl
  handle_events-reboot (signals l ∷ es) s = handle_events-reboot es _ ∙ handle_signal-reboot l s
  handle_events-reboot (client none ∷ es) s = handle_events-reboot es s
  handle_events-reboot (client (some req) ∷ es) s = handle_events-reboot es _

  event_loop-reboot : (rounds : List Round) (s : System) → (event_loop k rounds s).reboot ≡ s.reboot
  unfolding event_loop health_check
  event_loop-reboot [] s = refl
  event_loop-reboot (interrupted ∷ rs) s = elim (Bool-cases s.is_on) [
    | inr e ↦ rw (e, event_loop) refl
    | inl e ↦ rw (e, event_loop) (event_loop-reboot rs s)
  ]
  event_loop-reboot (broken ∷ rs) s = elim (Bool-cases s.is_on) [
    | inr e ↦ rw (e, event_loop) refl
    | inl e ↦ rw (e, event_loop) refl
  ]
  event_loop-reboot (ready es ∷ rs) s = elim (Bool-cases s.is_on) [
    | inr e ↦ rw (e, event_loop) refl
    | inl e ↦ rw (e, event_loop) (event_loop-reboot rs _ ∙ handle_events-reboot es s)
  ]

  -- Once lumid runs as process 1, the machine is restarted at its end exactly when lumid was given
  -- `--reboot` at its start, and powered off otherwise, whatever signals and requests, REBOOT
  -- among them, it handled.
  lumid_halts :
      (reboot : Bool) (time : ℕ) (entries : Option (List Entry)) (rounds : List Round)
      → (shutdown_system k true (lumid k reboot time entries rounds)).0
        ≡ (if reboot then restarts else powers_off)
  unfolding lumid shutdown_system
  lumid_halts reboot time entries rounds = rw (event_loop-reboot rounds _) refl

  handle_signal_off :
      (l : List Signalled) (s : System) → s.is_on ≡ false → (handle_signal k l s).is_on ≡ false
  unfolding handle_signal
  handle_signal_off [] s h = h
  handle_signal_off (child ended ∷ rest) s h = handle_signal_off rest _ h
  handle_signal_off (shutdown ∷ rest) s h = handle_signal_off rest (record s { is_on = false }) refl
  handle_signal_off (hangup entries ∷ rest) s h = handle_signal_off rest _ h
  handle_signal_off (ignored ∷ rest) s h = handle_signal_off rest s h

  handle_signal_shuts :
      (l : List Signalled) (s : System) → In shutdown l → (handle_signal k l s).is_on ≡ false
  unfolding handle_signal
  handle_signal_shuts [] s h = elim h [ ]
  handle_signal_shuts (shutdown ∷ rest) s h =
      handle_signal_off rest (record s { is_on = false }) refl
  handle_signal_shuts (child ended ∷ rest) s (inl e) = cc
  handle_signal_shuts (child ended ∷ rest) s (inr h) = handle_signal_shuts rest _ h
  handle_signal_shuts (hangup entries ∷ rest) s (inl e) = cc
  handle_signal_shuts (hangup entries ∷ rest) s (inr h) = handle_signal_shuts rest _ h
  handle_signal_shuts (ignored ∷ rest) s (inl e) = cc
  handle_signal_shuts (ignored ∷ rest) s (inr h) = handle_signal_shuts rest s h

  handle_events_off :
      (es : List Event) (s : System) → s.is_on ≡ false → (handle_events k es s).is_on ≡ false
  unfolding handle_events handle_event
  handle_events_off [] s h = h
  handle_events_off (signals l ∷ es) s h = handle_events_off es _ (handle_signal_off l s h)
  handle_events_off (client none ∷ es) s h = handle_events_off es s h
  handle_events_off (client (some req) ∷ es) s h = handle_events_off es _ h

  handle_events_shuts :
      (l : List Signalled) (es : List Event) (s : System)
      → In (signals l) es
      → In shutdown l
      → (handle_events k es s).is_on ≡ false
  unfolding handle_events handle_event
  handle_events_shuts l [] s m h = elim m [ ]
  handle_events_shuts l (e ∷ es) s (inl q) h =
      handle_events_off es _
        (subst (λ x. (handle_event k x s).is_on ≡ false) q (handle_signal_shuts l s h))
  handle_events_shuts l (e ∷ es) s (inr m) h = handle_events_shuts l es _ m h

  event_loop_off : (rounds : List Round) (s : System) → s.is_on ≡ false → event_loop k rounds s ≡ s
  unfolding event_loop
  event_loop_off [] s h = refl
  event_loop_off (r ∷ rs) s h = ground arith

  -- A SIGTERM or SIGINT that is read in a round makes that round the last: the state after the
  -- loop does not depend on the rounds behind it.
  pub event_loop_shuts :
      (l : List Signalled) (es : List Event) (rounds : List Round) (s : System)
      → In (signals l) es
      → In shutdown l
      → event_loop k (ready es ∷ rounds) s ≡ event_loop k (ready es ∷ []) s
  unfolding event_loop health_check
  event_loop_shuts l es rounds s m h = elim (Bool-cases s.is_on) [
    | inr e ↦ rw (e, event_loop) refl
    | inl e ↦ rw (e, event_loop) (event_loop_off rounds _ (handle_events_shuts l es s m h))
  ]
