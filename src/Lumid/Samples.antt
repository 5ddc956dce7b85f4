-- ===== src/Lumid/Samples.antt =====
-- A kernel, and services, at which the theorems of lumid are tried.
use lumi_os.Base.{
  ℕ, ◌+◌, ◌*◌, ◌<◌, ◌≡◌, refl, true, some, List, [], ◌∷◌, ℤ, pos, neg, Text, codes, length, arith,
  get_elem?,
}
use lumi_os.Lumid.Types.{Service, SvcState, stopped, running, simple, on_failure}
use lumi_os.Lumid.Lifecycle.Valid.{IsLive, IsValid}
use lumi_os.Base.{zero, suc, In, inl, inr}
use lumi_os.Lumid.Machine.{Kernel, IsPosix, Machine, exited}

-- Process ids grow with the calls, and every child that is waited for has exited with 0.
abbrev pub test_kernel : Kernel
test_kernel = record {
  opened = λ t. pos 7;
  forked = λ t. some (length t + 2);
  clock = λ t. 1000 * length t;
  waited = λ t. (pos 40, exited 0);
}

pub test_kernel-IsPosix : IsPosix test_kernel
test_kernel-IsPosix t p h = ground arith

-- A service of the simple type that is restarted after failures.
abbrev pub a_service : Text → List Text → SvcState → ℤ → Service
a_service name requires state pid = record {
  name = name;
  description = [];
  exec_path = codes "/bin/true";
  exec_args = [];
  working_dir = [];
  config_path = [];
  type = simple;
  user = [];
  group = [];
  requires = requires;
  after = [];
  before = [];
  restart_policy = on_failure;
  restart_delay_ms = pos 1000;
  restart_max_retries = pos 5;
  restart_count = 4;
  state = state;
  pid = pid;
  exit_code = neg 1;
  start_time = 1;
  stop_time = 0;
  cgroup = record {
    memory_max = neg 1;
    memory_high = neg 1;
    cpu_weight = pos 100;
    cpu_max = neg 1;
    io_weight = pos 100;
    pids_max = neg 1;
  };
  env = [];
  log_fd = neg 1;
  log_path = [];
  enabled = true;
}

-- `web` requires `db`, which runs; `web` has stopped.
abbrev pub web : Service
web = a_service (codes "web") (codes "db" ∷ []) stopped (neg 1)

abbrev pub db : Service
db = a_service (codes "db") [] running (pos 40)

abbrev pub two_services : Machine
two_services = record {
  services = web ∷ db ∷ [];
  service_count = 2;
  start_order = 1 ∷ 0 ∷ [];
  trace = [];
}

two_services-IsLive : (i : ℕ) (s : Service) → get_elem? two_services.services i ≡ some s → IsLive s
two_services-IsLive zero s h r = absurd (cc)
two_services-IsLive (suc zero) s h r = ground arith
two_services-IsLive (suc (suc i)) s h r = absurd (cc)

two_services-ordered : (i : ℕ) → In i (1 ∷ 0 ∷ []) → i < 2
two_services-ordered i (inl e) = omega arith
two_services-ordered i (inr (inl e)) = omega arith
two_services-ordered i (inr (inr h)) = elim h [ ]

web_ne_db : ¬ In (codes "web") (codes "db" ∷ [])
web_ne_db (inl e) = cc
web_ne_db (inr h) = h

pub two_services-IsValid : IsValid two_services
two_services-IsValid = record {
  counted = refl;
  named = (web_ne_db, ((λ h. h), tt));
  live = two_services-IsLive;
  ordered = two_services-ordered;
}
