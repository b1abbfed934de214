-- ===== src/Metrics/Scrape.antt =====
-- internal/metrics/metrics.go: what a page of metrics says, counter by counter and gauge by gauge.
use x.Base.{
  ℕ, ◌≡◌, refl, ap, sym, ◌∙◌, inl, inr, true, List, [], ◌∷◌, map, Option, none, some, arith, Bytes,
  codes, eqb, eqb_iff, Assoc, lookup, All, All-append, passes, All-map, In, Option-cases,
  if◌then◌else◌,
}
use x.Text.Sort.{sort, In-sort, All-sort}
use x.Metrics.{Metric, Collector, sample, sampled, snapshot, count}
use x.Metrics.Http.{Server, handle_metrics}
use x.Metrics.Lines.{
  scrape, scrape-write_text, reading, IsName, IsLine, IsSample, line, name_of, is_plain, stays,
}

module _ {S V : Type 0} (float : ℕ → V) (format : V → Bytes) (s : S) where
  abbrev value_of : Option (S → V) → Option Bytes
  value_of none = none
  value_of (some f) = some (format (f s))

  -- What is to be read under a name: one of the five counters, or the gauge that the name has now.
  abbrev pub told : Collector S V → Bytes → Option Bytes
  unfolding eqb lookup
  told c name =
      if eqb (codes "kernelseal_exec_events_total") name
      then some (format (float c.exec_events))
      else if eqb (codes "kernelseal_secrets_issued_total") name
      then some (format (float c.secrets_issued))
      else if eqb (codes "kernelseal_secrets_denied_total") name
      then some (format (float c.secrets_denied))
      else if eqb (codes "kernelseal_access_blocked_total") name
      then some (format (float c.access_blocked))
      else if eqb (codes "kernelseal_access_audit_total") name
      then some (format (float c.access_audited))
      else value_of (lookup eqb name c.gauges)

  abbrev readings : List (Metric V) → Assoc Bytes Bytes
  readings = map (reading format)

  sample-absent :
      (gauges : Assoc Bytes (S → V)) (name : Bytes) (names : List Bytes)
      → lookup eqb name gauges ≡ none
      → lookup eqb name (readings (sample s gauges names)) ≡ none
  unfolding sample lookup
  sample-absent gauges name [] h = refl
  sample-absent gauges name (n ∷ names) h = ground (
    arith,
    sample-absent gauges name names h,
    eqb_iff n name,
    ap (λ n. lookup eqb n gauges) {x = n} {y = name},
  )

  sample-present :
      (gauges : Assoc Bytes (S → V)) (name : Bytes) (f : S → V) (names : List Bytes)
      → lookup eqb name gauges ≡ some f
      → In name names
      → lookup eqb name (readings (sample s gauges names)) ≡ some (format (f s))
  unfolding sample lookup
  sample-present gauges name f [] h i = absurd i
  sample-present gauges name f (n ∷ names) h i = ground (
    arith,
    sample-present gauges name f names h,
    eqb_iff n name,
    ap (λ n. lookup eqb n gauges) {x = n} {y = name},
  )

  lookup-In :
      (gauges : Assoc Bytes (S → V)) (name : Bytes) (f : S → V)
      → lookup eqb name gauges ≡ some f
      → In name (map (λ g. g.0) gauges)
  unfolding lookup
  lookup-In [] name f h = absurd (ground arith)
  lookup-In ((n, g) ∷ gauges) name f h = ground (arith, lookup-In gauges name f, eqb_iff n name)

  sample-sort :
      (gauges : Assoc Bytes (S → V)) (name : Bytes)
      → lookup eqb name (readings (sample s gauges (sort (map (λ g. g.0) gauges))))
        ≡ value_of (lookup eqb name gauges)
  sample-sort gauges name = elim (Option-cases (lookup eqb name gauges)) [
    | inl e ↦ sample-absent gauges name (sort (map (λ g. g.0) gauges)) e ∙ ap value_of (sym e)
    | inr p ↦
        sample-present gauges name p.0 (sort (map (λ g. g.0) gauges)) p.1
          ((In-sort name (map (λ g. g.0) gauges)).1 (lookup-In gauges name p.0 p.1))
        ∙ ap value_of (sym p.1)
  ]

  sample-AreSamples :
      ((v : V) → IsLine (format v))
      → (gauges : Assoc Bytes (S → V)) (names : List Bytes) → All IsName names
      → All (IsSample format) (sample s gauges names)
  unfolding sample
  sample-AreSamples k gauges [] h = tt
  sample-AreSamples k gauges (n ∷ names) h =
      All-append (IsSample format) (sampled s n (lookup eqb n gauges)) (sample s gauges names)
        (one (lookup eqb n gauges)) (sample-AreSamples k gauges names h.1)
    where
      one : (o : Option (S → V)) → All (IsSample format) (sampled s n o)
      one none = tt
      one (some f) = (record { name = h.0; help = ground arith; value = k (f s) }, tt)

  names-AreNames :
      (gauges : Assoc Bytes (S → V))
      → All (λ g. IsName g.0) gauges
      → All IsName (sort (map (λ g. g.0) gauges))
  names-AreNames gauges h =
      All-sort IsName (map (λ g. g.0) gauges) (All-map IsName (λ g. g.0) gauges h)

  counter-IsSample :
      ((v : V) → IsLine (format v))
      → (c : ℕ) (name help : Bytes) (n : ℕ) → passes is_plain (c ∷ name) ≡ true
      → passes stays help ≡ true
      → IsSample format (count float (c ∷ name) help n)
  counter-IsSample k c name help n i l = record {
    name = name_of c name i;
    help = line help l;
    value = k (float n);
  }

  pub snapshot-AreSamples :
      ((v : V) → IsLine (format v))
      → (c : Collector S V) → All (λ g. IsName g.0) c.gauges
      → All (IsSample format) (snapshot float s c)
  unfolding snapshot
  snapshot-AreSamples k c h = (
    counter-IsSample k _ _ _ c.exec_events refl refl,
    (
      counter-IsSample k _ _ _ c.secrets_issued refl refl,
      (
        counter-IsSample k _ _ _ c.secrets_denied refl refl,
        (
          counter-IsSample k _ _ _ c.access_blocked refl refl,
          (
            counter-IsSample k _ _ _ c.access_audited refl refl,
            sample-AreSamples k c.gauges (sort (map (λ g. g.0) c.gauges))
                (names-AreNames c.gauges h),
          ),
        ),
      ),
    ),
  )

  -- Where the format of a value has no line break, and the name of each gauge is not empty and has no space,
  -- line break or '#', the answer to /metrics, read line by line as samples, says under each of the five
  -- counters' names its count, under any other name the value of the gauge that has the name, and under a
  -- name that no gauge has nothing.
  pub handle_metrics-told :
      ((v : V) → IsLine (format v))
      → (srv : Server S V) → All (λ g. IsName g.0) srv.collector.gauges
      → (name : Bytes)
      → lookup eqb name (scrape (handle_metrics float format s srv).body) ≡ told srv.collector name
  unfolding handle_metrics snapshot lookup eqb
  handle_metrics-told k srv h name =
      ap (lookup eqb name) (
        scrape-write_text format (snapshot float s srv.collector)
          (snapshot-AreSamples k srv.collector h))
      ∙ rw (sample-sort srv.collector.gauges name) refl
