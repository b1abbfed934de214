-- ===== src/Agent/Observe.antt =====
-- cmd/main.go: what `main` lets others see of the agent: gauges, readiness, and the warning about its own
-- cgroup namespace.
use x.Base.{
  ℕ, Bool, true, false, not, List, Option, none, some, if◌then◌else◌, Bytes, codes, eqb, length,
}
use x.Metrics.{Collector, set_gauge}
use x.Metrics.Http.{Server, Reply, new_server, route}
use x.Metrics.Http
use x.Bpf.Maps.{Ebpf}
use x.Bpf.Manager.{Manager, is_lsm_loaded, list_protected_pids}
use x.Kube.Watch.{Watcher}
use x.Cgroup.{Identity, CgroupError}
use x.Identity.{blocks}
use x.Policy.Manager.{PolicyManager}
use x.Agent.{not_ready}

-- What the gauges sample.
pub record Sampled (e : Ebpf) : Type 0 where
  pub bpf_manager : Manager e
  pub watcher : Watcher

-- `float64` as far as `main` makes values of it.
pub record Floats (V : Type 0) : Type 0 where
  pub of_number : ℕ → V
  pub minus_one : V

-- `len(w.byUID)`, as `Watcher.Len` gives it.
unfoldable pub len : Watcher → ℕ
len w = length w.by_uid

module _ (e : Ebpf) {V : Type 0} (floats : Floats V) where
  abbrev pub count_or_error : Option (List ℕ) → V
  count_or_error none = floats.minus_one
  count_or_error (some pids) = floats.of_number (length pids)

  unfoldable pub lsm_loaded_gauge : Sampled e → V
  unfolding is_lsm_loaded
  lsm_loaded_gauge s = floats.of_number (if is_lsm_loaded e s.bpf_manager then 1 else 0)

  unfoldable pub protected_pids_gauge : Sampled e → V
  unfolding list_protected_pids
  protected_pids_gauge s = count_or_error (list_protected_pids e s.bpf_manager)

  unfoldable pub pods_watched_gauge : Sampled e → V
  unfolding len
  pods_watched_gauge s = floats.of_number (len s.watcher)

  -- The calls of `SetGauge`; only with a watcher is there a gauge of its pods.
  unfoldable pub set_gauges : Bool → Collector (Sampled e) V → Collector (Sampled e) V
  unfolding set_gauge lsm_loaded_gauge protected_pids_gauge pods_watched_gauge
  set_gauges has_watcher c =
      let c' = set_gauge (codes "kernelseal_lsm_loaded") (some lsm_loaded_gauge) c in
      let c'' =
        if has_watcher
        then set_gauge (codes "kernelseal_pods_watched") (some pods_watched_gauge) c'
        else c' in
      set_gauge (codes "kernelseal_protected_pids") (some protected_pids_gauge) c''

-- The `ready` function of `startMetrics`.
unfoldable pub ready : (e : Ebpf) → Bool → Sampled e → Option Bytes
unfolding not_ready
ready e require_protection s =
    if not_ready e require_protection s.bpf_manager
    then some (codes "BPF-LSM required by policy but not loaded")
    else none

abbrev pub if_started : {S V : Type 0} → Server S V × Bool → Option (Server S V)
if_started (srv, true) = none
if_started (srv, false) = some srv

-- `startMetrics`: `bound` is the address that the port could be bound to.
unfoldable pub start_metrics :
    (e : Ebpf) {V W : Type 0}
    → PolicyManager W
    → Collector (Sampled e) V
    → Bool
    → Option Bytes
    → Option (Server (Sampled e) V)
unfolding new_server Http.start ready
start_metrics e pm collector require_protection bound =
    if not pm.config.monitoring.enabled
    then none
    else if_started (
        Http.start bound (
          new_server pm.config.monitoring.metrics_port collector
            (some (ready e require_protection))))

-- What `warnIfOwnCgroupNamespaced` comes to.
pub data OwnCgroup : Type 0 where
  not_read as_expected namespaced : OwnCgroup

-- `warnIfOwnCgroupNamespaced`, on what `Resolve` gives for the agent itself.
unfoldable pub own_cgroup : Bool → Identity × Option CgroupError → OwnCgroup
own_cgroup in_cluster (own, err) =
    if blocks err
    then not_read
    else if not (eqb own.path (codes "/"))
    then as_expected
    else if not in_cluster
    then as_expected
    else namespaced
