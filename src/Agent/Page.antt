-- ===== src/Agent/Page.antt =====
-- cmd/main.go and internal/metrics/metrics.go: the page that the agent answers /metrics with.
use x.Base.{
  ◌≡◌, refl, ap, sym, ◌∙◌, subst, Bool, true, false, [], ◌∷◌, ◌++◌, Bytes, codes, eqb, Assoc, All,
  lookup, insert, if◌then◌else◌, map,
}
use x.Text.Sort.{sort, place, le_bytes}
use x.Bpf.Maps.{Ebpf}
use x.Bpf.Manager.{is_lsm_loaded, list_protected_pids}
use x.Metrics.{Collector, new_collector, set_gauge, snapshot, sample}
use x.Metrics.Http.{Server, handle_metrics}
use x.Metrics.Lines.{scrape, scrape-write_text, reading, IsName, IsLine, name_of}
use x.Metrics.Scrape.{snapshot-AreSamples}
use x.Metrics.Value.{Float64, format_value, format_value-IsLine}
use x.Agent.Observe.{
  Sampled, Floats, len, count_or_error, set_gauges, lsm_loaded_gauge, protected_pids_gauge,
  pods_watched_gauge,
}

module _ (e : Ebpf) {V : Type 0} (floats : Floats V) (numbers : Float64 V) where
  abbrev gauges_of : Bool → Assoc Bytes (Sampled e → V)
  unfolding set_gauges new_collector
  gauges_of has_watcher = (set_gauges e floats has_watcher new_collector).gauges

  abbrev pub watched : Bool → Sampled e → Assoc Bytes Bytes
  unfolding len
  watched false s = []
  watched true s =
      (codes "kernelseal_pods_watched", format_value numbers (floats.of_number (len s.watcher)))
      ∷ []

  -- The samples that a scraper is to find: five counters and the gauges.
  abbrev pub shown : Bool → Collector (Sampled e) V → Sampled e → Assoc Bytes Bytes
  unfolding is_lsm_loaded list_protected_pids
  shown has_watcher c s =
      (codes "kernelseal_exec_events_total", format_value numbers (floats.of_number c.exec_events))
      ∷ (
        codes "kernelseal_secrets_issued_total",
        format_value numbers (floats.of_number c.secrets_issued),
      )
      ∷ (
        codes "kernelseal_secrets_denied_total",
        format_value numbers (floats.of_number c.secrets_denied),
      )
      ∷ (
        codes "kernelseal_access_blocked_total",
        format_value numbers (floats.of_number c.access_blocked),
      )
      ∷ (
        codes "kernelseal_access_audit_total",
        format_value numbers (floats.of_number c.access_audited),
      )
      ∷ (
        codes "kernelseal_lsm_loaded",
        format_value numbers (floats.of_number (if is_lsm_loaded e s.bpf_manager then 1 else 0)),
      )
      ∷ (watched has_watcher s
          ++ ((
            codes "kernelseal_protected_pids",
            format_value numbers (count_or_error e floats (list_protected_pids e s.bpf_manager)),
          )
              ∷ []))

  gauges-AreNames : (has_watcher : Bool) → All (λ g. IsName g.0) (gauges_of has_watcher)
  unfolding gauges_of set_gauges set_gauge insert eqb new_collector
  gauges-AreNames false = (name_of _ _ refl, (name_of _ _ refl, tt))
  gauges-AreNames true = (name_of _ _ refl, (name_of _ _ refl, (name_of _ _ refl, tt)))

  snapshot-shown :
      (has_watcher : Bool) (c : Collector (Sampled e) V) (s : Sampled e)
      → map
          (reading (format_value numbers))
          (snapshot floats.of_number s (record c { gauges = gauges_of has_watcher }))
        ≡ shown has_watcher c s
  unfolding snapshot sample lookup sort place le_bytes gauges_of set_gauges set_gauge insert eqb
      new_collector shown lsm_loaded_gauge protected_pids_gauge pods_watched_gauge
  snapshot-shown false c s = refl
  snapshot-shown true c s = refl

  -- Where the format of a number that is not whole has no line break and the gauges are those that
  -- `main` sets, the answer to /metrics, read line by line as samples, is the five counters, whether the
  -- LSM object is loaded, the number of pods watched if there is a watcher, and the number of protected
  -- PIDs, or -1 where they cannot be listed, each as `formatValue` writes its `float64`.
  pub handle_metrics-shown :
      (has_watcher : Bool) (srv : Server (Sampled e) V) (s : Sampled e)
      → ((v : V) → IsLine (numbers.shortest v))
      → srv.collector.gauges ≡ (set_gauges e floats has_watcher new_collector).gauges
      → scrape (handle_metrics floats.of_number (format_value numbers) s srv).body
        ≡ shown has_watcher srv.collector s
  unfolding handle_metrics gauges_of
  handle_metrics-shown has_watcher srv s k g =
      scrape-write_text (format_value numbers) (snapshot floats.of_number s srv.collector) (
        snapshot-AreSamples floats.of_number (format_value numbers) s
          (format_value-IsLine numbers k) srv.collector
          (subst (All (λ g. IsName g.0)) (sym g) (gauges-AreNames has_watcher)))
      ∙ ap
          (λ gs.
            map (reading (format_value numbers))
              (snapshot floats.of_number s (record srv.collector { gauges = gs })))
          g
      ∙ snapshot-shown has_watcher srv.collector s
