-- ===== src/Android/Container/Tests.antt =====
-- A container on a kernel that grants all, and on one where the process does not report.
use lumi_os.Base.{◌≡◌, refl, true, false, none, some, [], ◌∷◌, pos, neg, codes, text_eq, arith}
use lumi_os.Android.Container.{
  CtConfig, new_ns, new_pid, new_ipc, new_uts, new_cgroup, exited, Kernel, World, ns_all,
  clone_flags, says_ok, failed, container_init, container_start, container_stop, container_destroy,
}
use lumi_os.Android.Container.State.{
  IsSettled, start, stop, wait, destroy, perform_each, perform_each-IsSettled,
}
use lumi_os.Android.Container.Lost.{container_start-lost}

abbrev willing : Kernel
willing = record {
  piped = λ t. true;
  cgroup_made = λ t. true;
  allocated = λ t. true;
  cloned = λ t. some 42;
  status_read = λ t. codes "OK";
  pid_file_opened = λ t. true;
  waited = λ t. (pos 42, exited 0);
}

abbrev silent : Kernel
silent = record willing { status_read = λ t. [] }

abbrev shared_net : CtConfig
shared_net = record {
  ns_flags = ns_all;
  share_network = true;
  gpu_passthrough = false;
  binder_enabled = true;
  memory_limit = pos 1048576;
  cpu_shares = pos 100;
  hostname = codes "android";
}

abbrev fresh : World
fresh = record { container = container_init shared_net; pid_file = none; trace = [] }

no_new_net : clone_flags shared_net ≡ new_ns ∷ new_pid ∷ new_ipc ∷ new_uts ∷ new_cgroup ∷ []
unfolding clone_flags
no_new_net = refl

perform_each-IsSettled_example :
    IsSettled (perform_each willing (start ∷ start ∷ stop ∷ wait ∷ start ∷ destroy ∷ []) fresh)
perform_each-IsSettled_example =
    perform_each-IsSettled willing shared_net (start ∷ start ∷ stop ∷ wait ∷ start ∷ destroy ∷ [])
      fresh (λ t p e. ground arith) refl

container_start-lost_example :
    ((container_start silent fresh).0 ≡ neg 1)
    × ((container_start silent fresh).1.container.state ≡ failed)
    × ((container_start silent fresh).1.container.init_pid ≡ pos 42)
    × (container_stop silent (container_start silent fresh).1
        ≡ (pos 0, (container_start silent fresh).1))
    × (container_destroy silent (container_start silent fresh).1 ≡ (container_start silent fresh).1)
unfolding says_ok text_eq container_init
container_start-lost_example =
    container_start-lost silent fresh 42 refl (λ t. refl) (λ t. refl) (λ t. refl) (λ t. refl)
