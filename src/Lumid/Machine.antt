-- ===== src/Lumid/Machine.antt =====
-- The state of system/core/lumid/src/service.c, and the kernel that it calls.
--
-- `services` is the list from `g_services`, the newest registration first. A `service_t *` is a
-- position in it, so `service_register`, which puts a service in front, moves the pointers that
-- `start_order` (`g_start_order`) holds. `trace` is what lumid has asked of the kernel, the latest
-- call first; an answer may depend on all of it.
use lumi_os.Base.{
  ℕ, zero, suc, ◌+◌, ◌<◌, ◌≡◌, Bool, Option, none, some, List, [], ◌∷◌, map, ℤ, Text, text_eq,
  if◌then◌else◌,
}
use lumi_os.Lumid.Types.{CgroupLimits, Service}

pub data Signal : Type 0 where
  sigterm sigkill : Signal

-- WIFEXITED with its code, WIFSIGNALED with its signal, or neither.
pub data WaitStatus : Type 0 where
  exited : ℕ → WaitStatus
  signaled : ℕ → WaitStatus
  neither : WaitStatus

pub data Call : Type 0 where
  open_log : Text → Call
  fork : Call
  now : Call
  cgroup_create : Text → Call
  cgroup_apply_limits : Text → CgroupLimits → Call
  cgroup_add_pid : Text → ℕ → Call
  cgroup_remove : Text → Call
  kill : ℤ → Signal → Call
  kill_self : Signal → Call
  usleep : ℕ → Call
  waitpid : ℤ → Bool → Call

-- What the kernel answers to a call made after the calls listed. `fork` gives the child's process
-- id, which is above 0, or `none` where it fails. `wait` gives waitpid's result and what `status`
-- holds after the call, which is arbitrary where the call fails.
pub record Kernel : Type 0 where
  pub opened : List Call → ℤ
  pub forked : List Call → Option ℕ
  pub clock : List Call → ℕ
  pub waited : List Call → ℤ × WaitStatus

-- fork(2) returns a process id above 0 to the parent.
abbrev pub IsPosix : Kernel → Type 0
IsPosix k = (t : List Call) (p : ℕ) → k.forked t ≡ some p → 0 < p

pub record Machine : Type 0 where
  pub services : List Service
  pub service_count : ℕ
  pub start_order : List ℕ
  pub trace : List Call

unfoldable pub call : Call → Machine → Machine
call c m = record m { trace = c ∷ m.trace }

-- A write through a pointer to a service.
abbrev pub modify : ℕ → (Service → Service) → List Service → List Service
modify i f [] = []
modify zero f (s ∷ ss) = f s ∷ ss
modify (suc i) f (s ∷ ss) = s ∷ modify i f ss

unfoldable pub write : ℕ → (Service → Service) → Machine → Machine
write i f m = record m { services = modify i f m.services }

-- The position of the first service that passes the test.
unfoldable pub find_index : (Service → Bool) → List Service → Option ℕ
find_index test [] = none
find_index test (s ∷ ss) =
    let rest = find_index test ss in
    if test s then some 0 else elim rest [ none ↦ none | some i ↦ some (suc i) ]

unfoldable pub service_find : Text → Machine → Option ℕ
unfolding find_index
service_find name m = find_index (λ s. text_eq s.name name) m.services

-- A service that is already registered under that name is kept, and the new one is freed.
unfoldable pub service_register : Service → Machine → Machine
unfolding service_find
service_register svc m = elim (service_find svc.name m) [
  | some i ↦ m
  | none ↦ record m {
    services = svc ∷ m.services;
    service_count = m.service_count + 1;
    start_order = map suc m.start_order;
  }
]
