-- ===== src/Agent/Readiness.antt =====
-- What /ready says of the agent that `main` started.
use x.Base.{
  ℕ, ◌≡◌, sym, ap, Bool, true, false, not, ◌&&◌, Option, none, some, arith, if◌then◌else◌, Bytes,
  codes, eqb,
}
use x.Metrics.{Collector}
use x.Metrics.Http.{Server, Reply, new_server, route}
use x.Metrics.Http
use x.Bpf.Maps.{Ebpf}
use x.Bpf.Manager.{is_lsm_loaded}
use x.Policy.Manager.{PolicyManager}
use x.Agent.{not_ready}
use x.Agent.Observe.{Sampled, ready, if_started, start_metrics}

abbrev ready_of : {S V : Type 0} → Option (Server S V) → Option (S → Option Bytes)
ready_of none = none
ready_of (some srv) = srv.ready

abbrev pub status_of : Option Reply → Option ℕ
status_of none = none
status_of (some r) = some r.status

start_metrics-ready :
    (e : Ebpf) {V W : Type 0} (pm : PolicyManager W) (c : Collector (Sampled e) V)
    (require_protection : Bool) (bound : Option Bytes) (srv : Server (Sampled e) V)
    → start_metrics e pm c require_protection bound ≡ some srv
    → srv.ready ≡ some (ready e require_protection)
unfolding start_metrics new_server Http.start
start_metrics-ready e {V} pm c require_protection bound srv h =
    chosen pm.config.monitoring.enabled bound h
  where
    made : Server (Sampled e) V
    made = new_server pm.config.monitoring.metrics_port c (some (ready e require_protection))

    chosen :
        (b : Bool) (o : Option Bytes)
        → (if not b then none else if_started (Http.start o made)) ≡ some srv
        → srv.ready ≡ some (ready e require_protection)
    chosen false o q = absurd (cc)
    chosen true none q = absurd (cc)
    chosen true (some a) q = ap (λ x. ready_of x) (sym q)

-- The server that `startMetrics` gives answers /ready with 503 exactly while the policy demands protection
-- and the LSM object is not loaded, and with 200 otherwise.
pub start_metrics-route :
    (e : Ebpf) {V W : Type 0} (pm : PolicyManager W) (c : Collector (Sampled e) V)
    (require_protection : Bool) (bound : Option Bytes) (srv : Server (Sampled e) V) (float : ℕ → V)
    (format : V → Bytes) (s : Sampled e)
    → start_metrics e pm c require_protection bound ≡ some srv
    → status_of (route float format s srv (codes "/ready"))
      ≡ some (if require_protection && not (is_lsm_loaded e s.bpf_manager) then 503 else 200)
unfolding start_metrics new_server Http.start ready not_ready route eqb
start_metrics-route e pm c require_protection bound srv float format s h =
    rw (start_metrics-ready e pm c require_protection bound srv h) (ground arith)
