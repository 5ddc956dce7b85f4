-- ===== src/Lumid/Types.antt =====
-- The types of system/core/lumid/include/lumid.h. A char array is the text that it holds, an array
-- with its count is a list, and a pointer to a service is its position in the list of services.
use lumi_os.Base.{ℕ, Bool, true, false, List, [], ℤ, pos, neg, Text}

pub data SvcState : Type 0 where
  stopped starting running stopping failed restarting : SvcState

pub data RestartPolicy : Type 0 where
  never always on_failure on_abnormal : RestartPolicy

pub data SvcType : Type 0 where
  simple forking oneshot notify : SvcType

pub record CgroupLimits : Type 0 where
  pub memory_max : ℤ
  pub memory_high : ℤ
  pub cpu_weight : ℤ
  pub cpu_max : ℤ
  pub io_weight : ℤ
  pub pids_max : ℤ

pub record EnvVar : Type 0 where
  pub key : Text
  pub value : Text

pub record Service : Type 0 where
  pub name : Text
  pub description : Text
  pub exec_path : Text
  pub exec_args : Text
  pub working_dir : Text
  pub config_path : Text
  pub type : SvcType
  pub user : Text
  pub group : Text
  pub requires : List Text
  pub after : List Text
  pub before : List Text
  pub restart_policy : RestartPolicy
  pub restart_delay_ms : ℤ
  pub restart_max_retries : ℤ
  pub restart_count : ℕ
  pub state : SvcState
  pub pid : ℤ
  pub exit_code : ℤ
  pub start_time : ℕ
  pub stop_time : ℕ
  pub cgroup : CgroupLimits
  pub env : List EnvVar
  pub log_fd : ℤ
  pub log_path : Text
  pub enabled : Bool

abbrev pub max_services : ℕ
max_services = 128

abbrev pub max_deps : ℕ
max_deps = 32

abbrev pub max_env : ℕ
max_env = 64

abbrev pub max_name_len : ℕ
max_name_len = 64

abbrev pub max_path_len : ℕ
max_path_len = 256

abbrev pub max_line_len : ℕ
max_line_len = 1024

-- svc->state == SVC_STATE_RUNNING, and so on.
abbrev pub is_running : SvcState → Bool
is_running running = true
is_running _ = false

abbrev pub is_restarting : SvcState → Bool
is_restarting restarting = true
is_restarting _ = false

-- RUNNING or STARTING: the states that service_stop acts on.
abbrev pub is_stoppable : SvcState → Bool
is_stoppable running = true
is_stoppable starting = true
is_stoppable _ = false

abbrev pub is_simple : SvcType → Bool
is_simple simple = true
is_simple _ = false

-- service_create, where calloc succeeds.
unfoldable pub service_create : Service
service_create = record {
  name = [];
  description = [];
  exec_path = [];
  exec_args = [];
  working_dir = [];
  config_path = [];
  type = simple;
  user = [];
  group = [];
  requires = [];
  after = [];
  before = [];
  restart_policy = never;
  restart_delay_ms = pos 1000;
  restart_max_retries = pos 5;
  restart_count = 0;
  state = stopped;
  pid = neg 1;
  exit_code = neg 1;
  start_time = 0;
  stop_time = 0;
  cgroup = record {
    memory_max = neg 1;
    memory_high = neg 1;
    cpu_weight = pos 100;
    cpu_max = neg 1;
    io_weight = pos 100;
    pids_max = neg 1;
  };
  env = [];
  log_fd = neg 1;
  log_path = [];
  enabled = true;
}
