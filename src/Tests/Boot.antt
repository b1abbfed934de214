-- ===== src/Tests/Boot.antt =====
-- Start-ups of the agent outside a cluster, without a configuration file, with both BPF objects.
use x.Base.{
  ◌&&◌, ◌||◌, ◌++◌, is_some, if◌then◌else◌, ℕ, ◌≡◌, refl, true, false, List, [], ◌∷◌, none, some,
  codes, In, inl, is_some, ◌==◌, ==_iff, keep, eqb,
}
use x.Text.{to_lower, trim_space, trim_left, trim_right, contains_bytes, has_prefix}
use x.Types.{PolicyConfig, mode_enforce}
use x.Bpf.Maps.{MapLaws, Ebpf}
use x.Bpf.Manager.{is_lsm_loaded, configure_policy, allow_pid}
use x.Bpf.Lifecycle.{
  new_loader, ExecObjects, LsmObjects, ExecLoad, LsmLoad, load_exec_monitor, load_lsm, start, stop,
  stop_now, close_links, is_lsm_available, attach_tracepoints,
}
use x.Bpf.Hooks.{links_of, load_lsm-attached}
use x.Bpf.Links.{Event, loaded_exec, loaded_lsm, started, happen, stop-attached}
use x.Policy.Config.{default_config, bpf_policy, parse_pod_identity}
use x.Policy.Manager.{new_policy_manager, set_policy_update_callback, pod_identity_mode}
use x.Policy.Load.{Parsers}
use x.Kube.Watch.{list_failed, transport_failed}
use x.Agent.{configure_binary_filter, start_identity}
use x.Agent.Main.{
  Boot, Running, running, read_config, start_policies, set_up, serving, guard_and_serve, main,
  server_of,
}
use x.Agent.Boot.{policy_at, is_allowed, main-Configured}
use x.Tests.Maps.{ebpf, laws, assoc_laws}
use x.Tests.Scene.{files, watcher}

abbrev parsers : Parsers
parsers = record {
  yaml_config = λ text c. (c, true);
  json_config = λ text c. (c, true);
  yaml_policy = λ text p. (p, true);
  yaml_secrets = λ text. ([], true);
  yaml_monitoring = λ text m. (m, true);
}

module _ (e : Ebpf) where
  abbrev exec_load_of : ExecObjects e → ExecLoad e
  exec_load_of objs = record {
    spec_loaded = true;
    objects = some objs;
    sys_enter_execve = some 3;
    sched_process_exec = some 4;
    sched_process_exit = some 5;
    reader_created = true;
  }

  abbrev lsm_load_of : LsmObjects e → LsmLoad e
  lsm_load_of objs = record {
    lsm = some (codes "lockdown,bpf");
    spec_loaded = true;
    objects = some objs;
    file_open = some 6;
    ptrace = none;
    reader_created = true;
  }

  abbrev boot_of : ExecObjects e → LsmObjects e → Boot e
  boot_of x l = record {
    config_path = codes "/etc/kernelseal/config.yaml";
    config_exists = false;
    parsers = parsers;
    files = record { stat = λ p. none; read = λ p. none; read_in = λ d p. none };
    host = record { getenv = λ n. []; read_file = λ p. none };
    memlock_removed = true;
    exec_load = exec_load_of x;
    lsm_load = lsm_load_of l;
    own_pid = 1;
    in_cluster = false;
    created = none;
    reply = list_failed transport_failed;
    listens = true;
  }

  -- The agent that waits for a signal.
  abbrev agent_of : Boot e → Running e
  agent_of b =
      serving e b (start_policies e b [])
        (load_exec_monitor e b.memlock_removed b.exec_load (new_loader e [])).0

abbrev exec_objects : ExecObjects ebpf
exec_objects = record {
  seen_pids = [];
  target_cgroups = [];
  cgroup_filter_enabled = [];
  target_binaries = [];
  binary_filter_enabled = [];
}

abbrev lsm_objects : LsmObjects ebpf
lsm_objects = record {
  ks_allowed_pids = [];
  protected_pids = [];
  policy_config = [];
  has_file_open = true;
  has_ptrace_access_check = true;
  has_events = true;
}

abbrev exec_load : ExecLoad ebpf
exec_load = exec_load_of ebpf exec_objects

abbrev lsm_load : LsmLoad ebpf
lsm_load = lsm_load_of ebpf lsm_objects

abbrev boot : Boot ebpf
boot = boot_of ebpf exec_objects lsm_objects

abbrev agent : Running ebpf
agent = agent_of ebpf boot

-- A link of another process, 9, is attached already; the third tracepoint fails.
abbrev events : List (Event ebpf)
events =
    loaded_exec true (record exec_load { sched_process_exit = none })
    ∷ loaded_lsm true lsm_load
    ∷ started
    ∷ []

left : In 9 (stop ebpf (happen ebpf events (new_loader ebpf (9 ∷ [])))).attached
unfolding stop stop_now close_links happen load_exec_monitor attach_tracepoints load_lsm
    is_lsm_available start new_loader contains_bytes has_prefix keep
left = inl refl

stop-attached_example : In {A = ℕ} 9 (9 ∷ [])
stop-attached_example = stop-attached ebpf events (9 ∷ []) 9 left

abbrev refused : LsmLoad ebpf
refused = record lsm_load { file_open = none }

load_lsm-attached_example :
    let (a, err) = load_lsm ebpf true refused (new_loader ebpf []) in
    (is_lsm_loaded ebpf a.manager ≡ (
      (is_lsm_available refused.lsm && true && refused.spec_loaded && is_some refused.objects)
      || is_lsm_loaded ebpf (new_loader ebpf []).manager))
    × (a.attached ≡ (
        if is_lsm_available refused.lsm && true && refused.spec_loaded
        then links_of ebpf refused refused.objects ++ (new_loader ebpf []).attached
        else (new_loader ebpf []).attached))
    × (err
        ≡ (load_lsm ebpf true
            (record refused { file_open = some 5; ptrace = some 6 })
            (new_loader ebpf [])).1)
load_lsm-attached_example =
    load_lsm-attached ebpf true refused (new_loader ebpf []) (some 5) (some 6)

waits : main ebpf boot [] ≡ running agent
unfolding main guard_and_serve load_exec_monitor attach_tracepoints start_identity pod_identity_mode
    parse_pod_identity start_policies read_config new_policy_manager default_config
    set_policy_update_callback to_lower trim_space trim_left trim_right eqb
waits = refl

lsm_there : is_lsm_loaded ebpf agent.loader.manager ≡ true
unfolding is_lsm_loaded set_up start load_lsm is_lsm_available contains_bytes has_prefix
    configure_policy allow_pid configure_binary_filter
lsm_there = refl

number_put : (m : ebpf.numbers.Map) (k v : ℕ) → is_some (ebpf.numbers.put m k v) ≡ true
number_put m k v = refl

policy_put :
    (m : ebpf.policies.Map) (k : ℕ) (v : PolicyConfig) → is_some (ebpf.policies.put m k v) ≡ true
policy_put m k v = refl

policies_laws : MapLaws ebpf.policies ◌==◌
policies_laws = assoc_laws ◌==◌ ==_iff

main-Configured_example :
    (policy_at ebpf laws policies_laws agent.loader.manager
      ≡ some (bpf_policy agent.policies.config.policy))
    × (is_allowed ebpf laws policies_laws agent.loader.manager 1 ≡ true)
    × ((server_of ebpf {S = Unit} {V = ℕ} files agent watcher).cfg.require_protection
        ≡ ((bpf_policy agent.policies.config.policy).enforce_mode == mode_enforce))
main-Configured_example =
    main-Configured ebpf laws policies_laws Unit ℕ boot [] agent files watcher number_put policy_put
      waits lsm_there
