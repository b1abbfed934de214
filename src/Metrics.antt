-- ===== src/Metrics.antt =====
-- internal/metrics/metrics.go: the collector and what the HTTP handlers answer. HTTP itself is the
-- standard library's.
pub mod Http
pub mod Lines
pub mod Scrape
pub mod Value
use x.Base.{
  ℕ, ◌+◌, ◌%◌, ◌^◌, Bool, List, [], ◌∷◌, ◌++◌, map, Option, none, some, if◌then◌else◌, ltb, Bytes,
  codes, eqb, Assoc, lookup, insert, delete,
}
use x.Text.Sort.{sort}

-- An addition to an `atomic.Uint64`.
abbrev pub add64 : ℕ → ℕ → ℕ
add64 a n = (a + n) % 2 ^ 64

-- `Collector`. A gauge is a function of a state `S`; `V` is `float64`.
pub record Collector (S V : Type 0) : Type 0 where
  pub exec_events : ℕ
  pub secrets_issued : ℕ
  pub secrets_denied : ℕ
  pub access_blocked : ℕ
  pub access_audited : ℕ
  pub gauges : Assoc Bytes (S → V)

pub data Kind : Type 0 where
  counter gauge : Kind

-- `metric`.
pub record Metric (V : Type 0) : Type 0 where
  pub name : Bytes
  pub help : Bytes
  pub kind : Kind
  pub value : V

abbrev count : {V : Type 0} → (ℕ → V) → Bytes → Bytes → ℕ → Metric V
count float name help n = record { name = name; help = help; kind = counter; value = float n }

module _ {S V : Type 0} where
  -- `NewCollector`.
  unfoldable pub new_collector : Collector S V
  new_collector = record {
    exec_events = 0;
    secrets_issued = 0;
    secrets_denied = 0;
    access_blocked = 0;
    access_audited = 0;
    gauges = [];
  }

  -- `RecordExecEvent`.
  unfoldable pub record_exec_event : Collector S V → Collector S V
  record_exec_event c = record c { exec_events = add64 c.exec_events 1 }

  -- `RecordSecretsIssued`.
  unfoldable pub record_secrets_issued : ℕ → Collector S V → Collector S V
  record_secrets_issued n c =
      if ltb 0 n then record c { secrets_issued = add64 c.secrets_issued n } else c

  -- `RecordSecretsDenied`.
  unfoldable pub record_secrets_denied : Collector S V → Collector S V
  record_secrets_denied c = record c { secrets_denied = add64 c.secrets_denied 1 }

  -- `RecordAccessBlocked`.
  unfoldable pub record_access_blocked : Collector S V → Collector S V
  record_access_blocked c = record c { access_blocked = add64 c.access_blocked 1 }

  -- `RecordAccessAudited`.
  unfoldable pub record_access_audited : Collector S V → Collector S V
  record_access_audited c = record c { access_audited = add64 c.access_audited 1 }

  -- `SetGauge`; `none` is a nil function.
  unfoldable pub set_gauge : Bytes → Option (S → V) → Collector S V → Collector S V
  unfolding insert delete
  set_gauge name none c = record c { gauges = delete eqb name c.gauges }
  set_gauge name (some f) c = record c { gauges = insert eqb name f c.gauges }

  abbrev sampled : S → Bytes → Option (S → V) → List (Metric V)
  sampled s name none = []
  sampled s name (some f) =
      record { name = name; help = codes "KernelSeal runtime gauge."; kind = gauge; value = f s }
      ∷ []

  -- The loop of `snapshot` over the sorted names.
  unfoldable pub sample : S → Assoc Bytes (S → V) → List Bytes → List (Metric V)
  unfolding lookup
  sample s gauges [] = []
  sample s gauges (name ∷ names) = sampled s name (lookup eqb name gauges) ++ sample s gauges names

  -- `snapshot`; `float` is the conversion to `float64`.
  unfoldable pub snapshot : (ℕ → V) → S → Collector S V → List (Metric V)
  unfolding sample
  snapshot float s c =
      count float (codes "kernelseal_exec_events_total")
        (codes "Total process execution events processed.") c.exec_events
      ∷ count float (codes "kernelseal_secrets_issued_total")
          (codes "Total secrets released to target processes.") c.secrets_issued
      ∷ count float (codes "kernelseal_secrets_denied_total")
          (codes "Total secret requests refused.") c.secrets_denied
      ∷ count float (codes "kernelseal_access_blocked_total")
          (codes "Total access attempts blocked by BPF-LSM.") c.access_blocked
      ∷ count float (codes "kernelseal_access_audit_total")
          (codes "Total access attempts audited but allowed.") c.access_audited
      ∷ sample s c.gauges (sort (map (λ g. g.0) c.gauges))

abbrev pub kind_name : Kind → Bytes
kind_name counter = codes "counter"
kind_name gauge = codes "gauge"

-- `WriteText` on a snapshot; `format` is `formatValue`.
unfoldable pub write_text : {V : Type 0} → (V → Bytes) → List (Metric V) → Bytes
write_text format [] = []
write_text format (m ∷ ms) =
    (codes "# HELP " ++ m.name ++ codes " " ++ m.help ++ b'\n' ∷ [])
    ++ (codes "# TYPE " ++ m.name ++ codes " " ++ kind_name m.kind ++ b'\n' ∷ [])
    ++ (m.name ++ codes " " ++ format m.value ++ b'\n' ∷ [])
    ++ write_text format ms

-- `handleReady`: the status. `none` is a nil `ready`, and its Boolean says that it gave an error.
unfoldable pub handle_ready : Option Bool → ℕ
handle_ready none = 200
handle_ready (some failed) = if failed then 503 else 200
