-- ===== src/Tests/Ready.antt =====
-- The metrics server of an agent whose LSM object is not loaded, and its page.
use x.Base.{Bool, ◌==◌, ℕ, arith, ◌≡◌, refl, true, false, [], none, some, codes, eqb}
use x.Text.{ℤ, pos, negsuc, decimal, decimal_onto}
use x.Bpf.Manager.{new_manager, is_lsm_loaded}
use x.Policy.Config.{default_config}
use x.Policy.Manager.{PolicyManager, new_policy_manager}
use x.Metrics.{new_collector}
use x.Metrics.Http.{Server, new_server, route, handle_metrics}
use x.Metrics.Http
use x.Metrics.Lines.{scrape}
use x.Metrics.Value.{Float64, format_value}
use x.Agent.Page.{shown, handle_metrics-shown}
use x.Agent.Observe.{Sampled, Floats, set_gauges, ready, start_metrics}
use x.Agent.Readiness.{status_of}
use x.Tests.Maps.{ebpf}
use x.Tests.Scene.{watcher}

abbrev pods_unseen : Sampled ebpf
pods_unseen = record { bpf_manager = new_manager ebpf; watcher = watcher }

abbrev policy_manager : PolicyManager Unit
policy_manager = new_policy_manager none

abbrev metrics_server : Server (Sampled ebpf) ℕ
metrics_server = record {
  collector = new_collector;
  ready = some (ready ebpf true);
  addr = codes ":9090";
  listener = some (codes "[::]:9090");
  stopped = false;
}

metrics_started :
    start_metrics ebpf policy_manager new_collector true (some (codes "[::]:9090"))
    ≡ some metrics_server
unfolding start_metrics new_server new_policy_manager default_config decimal decimal_onto Http.start
metrics_started = refl

metrics_unready :
    status_of (route (λ n. n) (λ v. []) pods_unseen metrics_server (codes "/ready")) ≡ some 503
unfolding route ready eqb is_lsm_loaded new_manager
metrics_unready = refl

-- Whole numbers in place of floats.
abbrev whole : Floats ℤ
whole = record { of_number = pos; minus_one = negsuc 0 }

abbrev same : ℤ → ℤ → Bool
same (pos m) (pos n) = m == n
same (pos m) (negsuc n) = false
same (negsuc m) (pos n) = false
same (negsuc m) (negsuc n) = m == n

abbrev numbers : Float64 ℤ
numbers = record { of_int = λ n. n; to_int = λ v. v; same = same; shortest = λ v. codes "NaN" }

abbrev scraped_server : Server (Sampled ebpf) ℤ
unfolding set_gauges new_collector
scraped_server = record {
  collector = record (set_gauges ebpf whole true new_collector) { secrets_issued = 12 };
  ready = none;
  addr = codes ":9090";
  listener = none;
  stopped = false;
}

handle_metrics-shown_example :
    scrape (handle_metrics pos (format_value numbers) pods_unseen scraped_server).body
    ≡ shown ebpf whole numbers true scraped_server.collector pods_unseen
unfolding set_gauges scraped_server
handle_metrics-shown_example =
    handle_metrics-shown ebpf whole numbers true scraped_server pods_unseen (λ v. ground arith) refl
