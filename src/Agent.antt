-- ===== src/Agent.antt =====
-- cmd/main.go: how the agent puts its parts together.
pub mod Events
pub mod Startup
pub mod Required
pub mod Timeline
pub mod Reclaim
pub mod Targets
pub mod Main
pub mod LsmMaps
pub mod Boot
pub mod Observe
pub mod Readiness
pub mod Page
use x.Base.{
  ℕ, ◌+◌, ◌≡◌, Bool, true, false, not, ◌&&◌, List, [], ◌∷◌, Option, none, some, if◌then◌else◌, ◌==◌,
  Bytes, is_empty, is_some, length,
}
use x.Types.{PolicyConfig, ExecEvent, LsmEvent, event_exec, event_exit, event_blocked, mode_enforce}
use x.Logging.{parse}
use x.Metrics.{
  Collector, record_exec_event, record_secrets_issued, record_secrets_denied, record_access_blocked,
  record_access_audited,
}
use x.Bpf.Maps.{Ebpf}
use x.Bpf.Manager.{
  BpfError, Manager, unprotect_pid, add_target_binary, enable_binary_filter, is_lsm_loaded,
}
use x.Policy.Config.{PodIdentityMode, preferred, required, disabled}
use x.Policy.Manager.{PolicyManager, get_target_binaries, is_kernel_binary_filter_enabled}
use x.Kube.Watch.{Watcher, ListReply, list_failed, listed, start, lookup_pod}
use x.Cgroup.{CgroupFiles}
use x.Identity.{PodLookup}
use x.Identity
use x.Secrets.{Registry, Caller}
use x.Secrets
use x.Server.Handle.{Server, Config, Denial}
use x.Server.Kernel.{bpf_protector}

-- What the event handlers act on.
pub record State (e : Ebpf) (S V : Type 0) : Type 0 where
  pub bpf_manager : Manager e
  pub collector : Collector S V

module _ {e : Ebpf} {S V : Type 0} where
  -- `handleExecEvent`.
  unfoldable pub handle_exec_event : ExecEvent → State e S V → State e S V
  unfolding record_exec_event
  handle_exec_event ev s =
      if ev.event_type == event_exec
      then record s { collector = record_exec_event s.collector }
      else if ev.event_type == event_exit
      then record s { bpf_manager = (unprotect_pid e s.bpf_manager ev.pid).0 }
      else s

  -- `handleLSMEvent`.
  unfoldable pub handle_lsm_event : LsmEvent → State e S V → State e S V
  unfolding record_access_blocked record_access_audited
  handle_lsm_event ev s =
      if ev.event_type == event_blocked
      then record s { collector = record_access_blocked s.collector }
      else record s { collector = record_access_audited s.collector }

module _ (e : Ebpf) where
  -- The loop of `configureBinaryFilter`: an error is logged, and the next binary is added.
  unfoldable pub add_target_binaries : Manager e → List Bytes → Manager e
  add_target_binaries m [] = m
  add_target_binaries m (b ∷ bs) = add_target_binaries (add_target_binary e m b).0 bs

  -- `configureBinaryFilter`.
  unfoldable pub configure_binary_filter : {W : Type 0} → PolicyManager W → Manager e → Manager e
  unfolding add_target_binaries get_target_binaries is_kernel_binary_filter_enabled
  configure_binary_filter pm m =
      let targets = get_target_binaries pm in
      if not (is_kernel_binary_filter_enabled pm)
      then m
      else if is_empty targets
      then m
      else (enable_binary_filter e (add_target_binaries m targets) true).0

  -- The `ready` function of `startMetrics`: whether it gives an error.
  unfoldable pub not_ready : Bool → Manager e → Bool
  unfolding is_lsm_loaded
  not_ready require_protection m = require_protection && not (is_lsm_loaded e m)

-- `applyLogLevel`: the level that is set.
unfoldable pub apply_log_level : {W : Type 0} → PolicyManager W → ℕ
unfolding parse
apply_log_level pm = (parse pm.config.monitoring.log_level).0

-- What `startIdentity` comes to; `fatal` ends the agent.
pub data Started : Type 0 where
  fatal : Started
  no_identifier : Started
  by_cgroup : Started
  by_pods : Watcher → Started

abbrev without_pods : PodIdentityMode → Started
without_pods required = fatal
without_pods preferred = by_cgroup
without_pods disabled = by_cgroup

abbrev started_with : PodIdentityMode → Option Watcher → ListReply → Started
started_with mode none reply = without_pods mode
started_with mode (some w) (list_failed err) = without_pods mode
started_with mode (some w) (listed v items) = by_pods (start (listed v items) w).0

abbrev identity_on : Bool → Option Watcher → ListReply → PodIdentityMode → Started
identity_on in_cluster created reply mode =
    if not in_cluster then without_pods mode else started_with mode created reply

-- `startIdentity`: `created` is what `NewWatcher` gives, and `reply` what the initial list gets.
unfoldable pub start_identity : PodIdentityMode → Bool → Option Watcher → ListReply → Started
unfolding start
start_identity disabled in_cluster created reply = no_identifier
start_identity preferred in_cluster created reply = identity_on in_cluster created reply preferred
start_identity required in_cluster created reply = identity_on in_cluster created reply required

-- A watcher as the interface `PodLookup`.
unfoldable pub pods_of : Watcher → PodLookup
unfolding lookup_pod
pods_of w = record { lookup = lookup_pod w; has_synced = w.synced }

-- The identifier that `main` gives the server, the watcher as it is at the time of a request.
abbrev pub identifier_of : CgroupFiles → Started → Watcher → Option (ℕ → Caller × Bool)
identifier_of files fatal w = none
identifier_of files no_identifier w = none
identifier_of files by_cgroup w =
    some (λ pid. let (c, err) = Identity.identify files none pid in (c, is_some err))
identifier_of files (by_pods w₀) w =
    some (λ pid. let (c, err) = Identity.identify files (some (pods_of w)) pid in (c, is_some err))

abbrev pub is_required : PodIdentityMode → Bool
is_required required = true
is_required preferred = false
is_required disabled = false

abbrev pub is_disabled : PodIdentityMode → Bool
is_disabled disabled = true
is_disabled preferred = false
is_disabled required = false

-- The server that `main` makes.
unfoldable pub secret_server :
    (e : Ebpf) {S V : Type 0}
    → PodIdentityMode
    → PolicyConfig
    → Registry
    → CgroupFiles
    → Started
    → Watcher
    → Server (Manager e) BpfError (Collector S V)
unfolding record_secrets_issued record_secrets_denied bpf_protector pods_of
secret_server e mode policy registry files started w = record {
  cfg = record {
    require_protection = policy.enforce_mode == mode_enforce;
    identify_callers = not (is_disabled mode);
    require_pod_identity = is_required mode;
  };
  resolver = Secrets.lookup registry;
  protector = bpf_protector e;
  identifier = identifier_of files started w;
  on_issued = some (λ pid names c. record_secrets_issued (length names) c);
  on_denied = some (λ pid why c. record_secrets_denied c);
}
