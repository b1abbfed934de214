-- ===== src/Reconcile.antt =====
-- internal/reconcile/reconcile.go: the sweep over the protected PIDs.
pub mod Sweep
pub mod Loop
use x.Base.{
  ℕ, suc, ◌+◌, ◌%◌, ◌^◌, Bool, true, false, List, [], ◌∷◌, Option, none, some, if◌then◌else◌,
  is_some, ltb, ◌==◌,
}

-- The interface `Store`; `none` is an error of the listing.
pub record Store (S E : Type 0) : Type 0 where
  pub list_protected_pids : S → Option (List ℕ)
  pub unprotect_pid : S → ℕ → S × Option E

-- `DefaultInterval`, in nanoseconds.
abbrev pub default_interval : ℕ
default_interval = 30000000000

-- The interval of `New`; a negative duration reads like 0.
unfoldable pub interval_of : ℕ → ℕ
interval_of n = if n == 0 then default_interval else n

pub record Reconciler : Type 0 where
  pub reclaimed : ℕ

module _ {S E : Type 0} (store : Store S E) (alive : ℕ → Bool) where
  abbrev removals : Option E → ℕ
  removals none = 1
  removals (some e) = 0

  -- The loop of `Sweep`: the store and how many entries it removed.
  unfoldable pub sweep_pids : S → ℕ → List ℕ → S × ℕ
  sweep_pids k removed [] = (k, removed)
  sweep_pids k removed (pid ∷ pids) =
      let (k', err) = store.unprotect_pid k pid in
      sweep_pids (if alive pid then k else k')
        (if alive pid then removed else removed + removals err) pids

  -- `Reconciler.Sweep`: the store, the reconciler, and the count, `none` where the listing fails.
  unfoldable pub sweep : S → Reconciler → S × Reconciler × Option ℕ
  sweep k r = elim (store.list_protected_pids k) [
    | none ↦ (k, r, none)
    | some pids ↦
        let (k', removed) = sweep_pids k 0 pids in
        (k', record r { reclaimed = (r.reclaimed + removed) % 2 ^ 64 }, some removed)
  ]

-- What the loop of `Start` wakes up to: the closed channel of `Stop`, or a tick, at which these PIDs are
-- alive.
pub data Wake : Type 0 where
  stopped : Wake
  tick : (alive : ℕ → Bool) → Wake

module _ {S E : Type 0} (store : Store S E) where
  abbrev swept_on : S × Reconciler × Option ℕ → S × Reconciler
  swept_on (k, r, n) = (k, r)

  -- The loop of `Start`; what a sweep gives decides about a log line only.
  unfoldable pub run_loop : List Wake → S → Reconciler → S × Reconciler
  unfolding sweep
  run_loop [] k r = (k, r)
  run_loop (stopped ∷ wakes) k r = (k, r)
  run_loop (tick alive ∷ wakes) k r =
      let (k', r') = swept_on (sweep store alive k r) in run_loop wakes k' r'

-- `processAlive`, on whether /proc/<pid> can be stated.
unfoldable pub process_alive : (ℕ → Bool) → ℕ → Bool
process_alive stat pid = stat pid
