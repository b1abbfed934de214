-- ===== src/Tests/Delivery.antt =====
-- One exchange with the agent, and what follows it.
use x.Reconcile.Sweep.{bpf_store}
use x.Reconcile.{sweep}
use x.Secrets.Admission.{Admits, admits_iff}
use x.Identity.Attribution.{IsKnown}
use x.Server.Cases.{caller_of, matched, marked}
use x.Text.{base}
use x.Base.{
  arith, inr, ℕ, ◌≡◌, refl, Bool, true, false, [], none, some, codes, is_some, In, lookup, eqb,
  if◌then◌else◌, ◌==◌, ap, ◌↔◌,
}
use x.Types.{ExecEvent, new_default_policy}
use x.Bpf.Protection.{entry, is_guarded}
use x.Kube.{Pod}
use x.Secrets.{
  Secret, Selector, Binding, Registry, Caller, Match, admits, consider, consider_all,
  names_other_binary, has_namespace, has_labels, has_container, is_empty_match,
}
use x.Secrets
use x.Secrets.Matching.{Entitles, lookup-secrets_iff}
use x.Server.Handle.{Response, handle}
use x.Server.Connection.{Conn, handle_conn}
use x.Server.Delivery.{handle-env, handle-protected, last_value}
use x.Server.Release.{handle-Entitles}
use x.Bpf.Programs.{is_one, ptrace, refuses}
use x.Server.Closed.{handle-refuses}
use x.Agent.{by_pods, pods_of, handle_exec_event}
use x.Agent.Required.{handle-IsKnown}
use x.Agent.Timeline
use x.Agent.Timeline.{
  connection, System, handle_conn-Reaches, with_world, with_state, state, server_of, here, onward,
  exec_event, swept,
}
use x.Tests.Maps.{ebpf, laws}
use x.Tests.Scene.{
  uid, cid, files, pod, watcher, selector, password, registry, setting, server, cred, request,
  reads, system, world, sent, run, by_bpf, by_registry, demands_protection, sent_some, not_empty,
  has_value,
}

handle-IsKnown_example :
    (p : Pod) × (b : Binding) × (sec : Secret) × ((caller_of server reads cred request world).pod
      ≡ some p)
    × IsKnown files (some (pods_of watcher)) 42 (caller_of server reads cred request world) p
    × Entitles (base request.binary) (caller_of server reads cred request world) registry b
    × In sec b.secrets
    × (sec.name ≡ codes "DB")
    × (sec.value ≡ codes "hunter2")
handle-IsKnown_example =
    handle-IsKnown ebpf Unit ℕ new_default_policy registry files watcher reads cred request
      (by_pods watcher) world (codes "DB") (codes "hunter2") has_value

handle-Entitles_example :
    (b : Binding) × (sec : Secret) × Entitles
      (base request.binary)
      (caller_of server reads cred request world)
      registry
      b
    × In sec b.secrets
    × (sec.name ≡ codes "DB")
    × (sec.value ≡ codes "hunter2")
handle-Entitles_example =
    handle-Entitles server registry by_registry reads cred request world (codes "DB")
      (codes "hunter2") has_value

handle-refuses_example :
    refuses
      (some new_default_policy)
      none
      (entry ebpf laws (handle server reads cred request world).0.kernel 42)
      7
      42
      ptrace
    ≡ true
unfolding new_default_policy is_one
handle-refuses_example =
    handle-refuses ebpf laws server by_bpf reads cred request world new_default_policy none 7 ptrace
      refl (omega arith) refl (omega arith) (omega arith) (ap (λ (r : Response). r.protected) run)

handle-protected_example :
    ((handle server reads cred request world).1.protected ≡ true)
    × (is_some (marked server reads cred request world).1 ≡ false)
handle-protected_example =
    handle-protected server reads cred request world demands_protection not_empty

handle-env_example : lookup eqb (codes "DB") (handle server reads cred request world).1.env ≡ (
    if (handle server reads cred request world).1.ok
    then last_value (codes "DB") (matched server reads cred request world).secrets
    else none)
handle-env_example = handle-env server reads cred request world (codes "DB")

abbrev caller : Caller
caller = record {
  cgroup_path = codes "/kubepods";
  cgroup_id = 0;
  cgroup_path_relative = false;
  pod_uid = uid;
  container_id = cid;
  pod = some pod;
}

lookup-secrets_iff_example :
    In password (Secrets.lookup registry (codes "app") caller).secrets
    ↔ ((b : Binding) × Entitles (codes "app") caller registry b × In password b.secrets)
lookup-secrets_iff_example = lookup-secrets_iff (codes "app") caller registry password

admits_iff_example : (admits selector caller ≡ none) ↔ Admits selector caller
admits_iff_example = admits_iff selector caller

abbrev conn : Conn
conn = record {
  deadline_set = true;
  is_unix = true;
  peer_cred = some cred;
  request = some request;
  reads = reads;
}

abbrev after_conn : System ebpf Unit ℕ
after_conn =
    with_world ebpf Unit ℕ system (handle_conn (server_of ebpf Unit ℕ setting) conn world).0

-- The exit of PID 7.
abbrev exit_event : ExecEvent
exit_event = record {
  timestamp = 0;
  pid = 7;
  tid = 7;
  ppid = 1;
  uid = 0;
  gid = 0;
  pad0 = 0;
  cgroup_id = 0;
  event_type = 2;
  pad1 = [];
  comm = [];
  filename = [];
}

abbrev after_exit : System ebpf Unit ℕ
after_exit =
    with_state ebpf Unit ℕ after_conn (handle_exec_event exit_event (state ebpf Unit ℕ after_conn))

abbrev alive : ℕ → Bool
alive pid = pid == 42

abbrev after_sweep : System ebpf Unit ℕ
after_sweep = record after_exit {
  bpf_manager = (sweep (bpf_store ebpf) alive after_exit.bpf_manager after_exit.reconciler).0;
  reconciler = (sweep (bpf_store ebpf) alive after_exit.bpf_manager after_exit.reconciler).1;
}

-- The process asks once more.
abbrev again : System ebpf Unit ℕ
again =
    with_world ebpf Unit ℕ after_sweep
      (handle_conn (server_of ebpf Unit ℕ setting) conn (Timeline.world ebpf Unit ℕ after_sweep)).0

replied : (handle_conn (server_of ebpf Unit ℕ setting) conn world).1 ≡ some sent
unfolding handle_conn
replied = ap some run

handle_conn-Reaches_example : is_guarded ebpf laws again.bpf_manager 42 ≡ true
unfolding new_default_policy
handle_conn-Reaches_example =
    handle_conn-Reaches ebpf laws Unit ℕ setting conn system again cred sent refl refl replied
      sent_some
      (onward after_conn after_exit (exec_event exit_event refl) refl (
        onward after_exit after_sweep (swept alive refl) refl
          (onward after_sweep again (connection setting conn refl) (inr refl) here)))
