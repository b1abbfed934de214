-- ===== src/Agent/Main.antt =====
-- cmd/main.go: `main` from the flags to the signal, and the shutdown. What the operating system, the
-- ebpf library and the API server answer is given by the outcomes of the calls.
use x.Base.{ℕ, Bool, true, false, not, List, [], Option, none, some, if◌then◌else◌, Bytes, ◌==◌}
use x.Types.{PolicyConfig, mode_enforce}
use x.Metrics.{Collector}
use x.Bpf.Maps.{Ebpf}
use x.Bpf.Manager.{BpfError, Manager, allow_pid, configure_policy}
use x.Bpf.Lifecycle.{
  LoadError, Loader, new_loader, ExecLoad, LsmLoad, load_exec_monitor, load_lsm, start, stop,
}
use x.Policy.Config.{PodIdentityMode}
use x.Policy.Sources.{Host}
use x.Policy.Manager.{
  PolicyManager, new_policy_manager, set_policy_update_callback, pod_identity_mode, get_bpf_policy,
}
use x.Policy.Load.{Parsers, Files, load_config}
use x.Kube.Watch.{Watcher, ListReply}
use x.Cgroup.{CgroupFiles}
use x.Secrets.{Registry}
use x.Server.Handle.{Server}
use x.Agent.{
  configure_binary_filter, not_ready, apply_log_level, Started, fatal, no_identifier, by_cgroup,
  by_pods, start_identity, secret_server,
}

-- What `main` meets: the configuration file and its parsers, the library's answers, its own PID, the
-- cluster, and whether the socket could be opened.
pub record Boot (e : Ebpf) : Type 0 where
  pub config_path : Bytes
  pub config_exists : Bool
  pub parsers : Parsers
  pub files : Files
  pub host : Host
  pub memlock_removed : Bool
  pub exec_load : ExecLoad e
  pub lsm_load : LsmLoad e
  pub own_pid : ℕ
  pub in_cluster : Bool
  pub created : Option Watcher
  pub reply : ListReply
  pub listens : Bool

-- The calls of `log.Fatalf`.
pub data Fatal : Type 0 where
  exec_monitor_failed : LoadError → Fatal
  identity_failed : Fatal
  socket_failed : Fatal

-- What `main` holds while it waits for a signal.
pub record Running (e : Ebpf) : Type 0 where
  pub policies : PolicyManager (Manager e)
  pub loader : Loader e
  pub log_level : ℕ
  pub policy : PolicyConfig
  pub mode : PodIdentityMode
  pub started : Started

pub data Outcome (e : Ebpf) : Type 0 where
  ended : Fatal → Outcome e
  running : Running e → Outcome e

abbrev pub no_registry : Registry
no_registry = record { bindings = [] }

module _ (e : Ebpf) where
  abbrev pub on_manager : (Manager e → Manager e) → Loader e → Loader e
  on_manager f a = record a { manager = f a.manager }

  -- A configuration that does not load leaves the defaults.
  unfoldable pub read_config :
      Boot e → PolicyManager (Manager e) → Manager e → PolicyManager (Manager e)
  unfolding load_config
  read_config b pm m =
      if b.config_exists then (load_config b.parsers b.files b.host pm b.config_path m).0 else pm

  -- The callback that `main` sets; an error is logged.
  unfoldable pub update_policy : PolicyConfig → Manager e → Manager e
  unfolding configure_policy
  update_policy policy m = (configure_policy e m policy).0

  -- The policy manager as it is from the start-up on.
  unfoldable pub start_policies : Boot e → List ℕ → PolicyManager (Manager e)
  unfolding new_policy_manager set_policy_update_callback new_loader read_config
  start_policies b attached =
      set_policy_update_callback
        (read_config b (new_policy_manager (some no_registry)) (new_loader e attached).manager)
        update_policy

  abbrev pub seen : Started → Bool
  seen fatal = false
  seen no_identifier = true
  seen by_cgroup = true
  seen (by_pods w) = true

  -- From the loaded exec monitor to the configured LSM.
  unfoldable pub set_up : Boot e → PolicyManager (Manager e) → Loader e → Loader e
  unfolding configure_binary_filter load_lsm allow_pid get_bpf_policy update_policy
  set_up b pm a =
      let filtered = on_manager (configure_binary_filter e pm) a in
      let hooked = (load_lsm e b.memlock_removed b.lsm_load filtered).0 in
      let allowed = on_manager (λ m. (allow_pid e m b.own_pid).0) hooked in
      on_manager (update_policy (get_bpf_policy pm)) allowed

  abbrev pub serving : Boot e → PolicyManager (Manager e) → Loader e → Running e
  serving b pm a = record {
    policies = pm;
    loader = start e (set_up b pm a);
    log_level = apply_log_level pm;
    policy = get_bpf_policy pm;
    mode = pod_identity_mode pm;
    started = start_identity (pod_identity_mode pm) b.in_cluster b.created b.reply;
  }

  -- And on to the signal.
  unfoldable pub guard_and_serve : Boot e → PolicyManager (Manager e) → Loader e → Outcome e
  unfolding set_up get_bpf_policy start pod_identity_mode start_identity apply_log_level
  guard_and_serve b pm a =
      if not (seen (start_identity (pod_identity_mode pm) b.in_cluster b.created b.reply))
      then ended identity_failed
      else if not b.listens
      then ended socket_failed
      else running (serving b pm a)

  abbrev pub on_loaded :
      Boot e → PolicyManager (Manager e) → Loader e × Option LoadError → Outcome e
  on_loaded b pm (a, some err) = ended (exec_monitor_failed err)
  on_loaded b pm (a, none) = guard_and_serve b pm a

  -- `main` up to the signal, in a kernel with these links attached.
  unfoldable pub main : Boot e → List ℕ → Outcome e
  unfolding start_policies load_exec_monitor guard_and_serve new_loader
  main b attached =
      on_loaded b (start_policies b attached)
        (load_exec_monitor e b.memlock_removed b.exec_load (new_loader e attached))

  -- The end of `main`, as far as the kernel is concerned.
  unfoldable pub shut_down : Running e → Loader e
  unfolding stop
  shut_down r = stop e r.loader

  abbrev pub registry_of : Option Registry → Registry
  registry_of none = no_registry
  registry_of (some r) = r

  -- The server that runs then, over the pod cache as it is at the time of a request.
  abbrev pub server_of :
      {S V : Type 0}
      → CgroupFiles
      → Running e
      → Watcher
      → Server (Manager e) BpfError (Collector S V)
  server_of files r w =
      secret_server e r.mode r.policy (registry_of r.policies.registry) files r.started w

  -- Whether /ready answers with an error.
  unfoldable pub unready : Running e → Bool
  unfolding not_ready
  unready r = not_ready e (r.policy.enforce_mode == mode_enforce) r.loader.manager
