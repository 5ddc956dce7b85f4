-- ===== src/Lib.antt =====
-- A model of the core of LumiOS: its init system lumid with the client lumictl (system/core/lumid), its
-- security sandbox (system/core/sandbox), its widget toolkit (system/core/lumi-toolkit), its services
-- (system/services) and the container of its Android runtime (android-compat/container), with theorems
-- about them. lumid starts the others as services; no two of them share state.
--
-- lumid boots from a directory of unit files, starts the services that they describe in the order of
-- their dependencies, restarts them when they end, and answers the requests of lumictl. Its parts call
-- one another on one shared state, the list of services with the start order, which Lumid/Machine.antt
-- makes explicit: an operation takes the state and returns it with its result code. What lumid asks of
-- the kernel is recorded in the state's trace. What the kernel answers is a parameter, `Kernel`, of
-- which only one fact is assumed, and named `IsPosix` where it is: that fork gives the parent a process
-- id above 0. A pointer to a service is its position in the list.
--
--   Base          shared helpers: Boolean tests, lists under native indices, C's strings and integers
--   Lumid.Types   include/lumid.h: the structures, enumerations and limits
--   Lumid.Machine the state of service.c, service_find and service_register
--   Lumid.Lifecycle  service.c: service_start, service_stop, service_restart, service_start_all and
--                 service_stop_all, named as there; the child's side of the fork is Lumid.Child
--   Lumid.Child   the child's side of service_start, and util_drop_privileges of util.c
--   Lumid.Resolve service.c: topo_visit and service_resolve_deps
--   Lumid.Supervisor  supervisor.c: supervisor_handle_sigchld and supervisor_check_services, without
--                 their prefix
--   Lumid.Cgroup  cgroup.c, and util_mkdir_p of util.c
--   Lumid.Mount   mount.c: the early mounts and fstab
--   Lumid.Log     log.c; what it writes is what `lumictl log` of Lumid.Lumictl.Log reads
--   Lumid.Ipc     socket.c: socket_handle_request, as handle_request
--   Lumid.Lumictl lumictl.c: main, format_uptime, print_status and, in Log, show_log with
--                 util_read_file of util.c
--   Lumid.Config  config.c: config_parse_value and config_parse_service, and util_parse_size of util.c.
--                 A key of 128 bytes or more overruns its array there: overruns_key tells the files with
--                 such a key, and the rest of lumid is modelled as if the key had room
--   Lumid.Load    service.c: service_load_all
--   Lumid.Early   main.c: early_init over Lumid.Mount and Lumid.Cgroup, and main from there on
--   Lumid.Main    main.c: the arguments, the boot, the event loop and the shutdown
--   Lumid.Samples data for the tests, which stand in the Tests module of each part
--   Sandbox.Policy   sandbox.h, and the preset levels of sandbox.c, seccomp.c and landlock.c. They
--                 list what is denied, where docs/security.md describes a list of what is allowed
--   Sandbox.PolicyFile  sandbox.c: sbx_policy_load and sbx_policy_save
--   Sandbox.Seccomp  seccomp.c: the BPF program of seccomp_apply
--   Sandbox.Landlock landlock.c: landlock_apply
--   Sandbox.Apply    sandbox.c: sbx_apply, and apparmor_apply of apparmor.c
--   Sandbox.Profile  apparmor.c: apparmor_generate_profile
--   Sandbox.Main     main.c: from the arguments over the policy to execvp
--   Toolkit       widget.c: a tree of widgets, which is built and laid out
--   Audio         audiod/src/volume.c
--   Bluetooth     bluetoothd/src: pairing.c, scan.c, adapter.c and bluetoothd.c
--   Net           netd/src: monitor.c; its child Links has wifi.c, dhcp.c, dns.c and netd.c
--   Sensor        sensord/src: enumerate.c and sensord.c; its children Reader, Fusion and Shutdown are
--                 reader.c, fusion.c and sensord_shutdown
--   Telephony.Calls  telephonyd/src/call.c, and the loop over the calls in telephonyd_shutdown
--   Telephony.Radio  what the rest of telephonyd/src shares, and modem_send_at of modem.c; its children
--                 Modem, Sim, Network, Connection, Sms and Start are modem.c, sim.c, network.c,
--                 data.c, sms.c and telephonyd_init with modem_open
--   Android.Properties  properties.c
--   Android.Child    container_child of container.c, with namespace.c and mounts.c
--   Android.Cgroup   cgroup.c
--   Android.Container  container.c: container_init to container_destroy
--   Android.Main     main.c
--
-- In Telephony.Radio the modem, in Sensor and Net the files of sysfs, in Bluetooth what its commands
-- print, and in Sandbox, Lumid.Mount, Lumid.Early and the modules of Android the kernel, is a
-- parameter as it is for lumid; the trace of Android.Child keeps with each call whether it succeeded.
-- What a mount hides is the named hypothesis `Hides`. A float is a value of any type, with the
-- operations that the code uses as a record (Floats, Sysfs, Maths): a theorem that needs a fact about
-- them names it, as IsPrinter does.
--
-- Fuel: only topo_visit takes any. It gets one more than the 128 marks, and each nested call sets a
-- mark that was not set, so the fuel does not run out. The loop of telephonyd_shutdown makes at most
-- as many rounds as there are calls, since its index grows and the array does not; that of
-- sensord_shutdown makes as many as there are sensors. The retries of modem_send_at and the 50 lines of
-- show_log are the source's own bounds. print_in takes as many rounds as the number says, of which it
-- needs one for each digit. Every other loop is a recursion on a list or on a count of rounds. Numbers
-- are natural numbers and integers without a bound, and the wrap-around of uint64_t, of useconds_t, of
-- the product in util_parse_size and of the 32 bits of a system call's number is written out. strtoll
-- and strtoull clamp as in C; atoi is not clamped.
--
-- Not modelled: the sockets below read and write; the set-up of epoll and of signals, whose success the
-- model of main takes for granted; what the kernel makes of a call of cgroup.c; what is only printed;
-- failures of malloc, but for those in seccomp_apply and container_start; widgets that two parents
-- share; the files that util.c writes, and its time stamps; the main loops of
-- the services, which only wait; the stubs of audiod around PipeWire; the functions of
-- namespace.c that nothing calls; and the compositor, the renderer and the shell of system/core, which
-- are stubs around graphics libraries.
pub mod Android
pub mod Audio
pub mod Base
pub mod Bluetooth
pub mod Lumid
pub mod Net
pub mod Sandbox
pub mod Sensor
pub mod Telephony
pub mod Toolkit
