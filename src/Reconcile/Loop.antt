-- ===== src/Reconcile/Loop.antt =====
-- The loop of the reconciler over the BPF manager.
use x.Base.{
  ℕ, ◌≡◌, ap, ◌∙◌, ◌⊎◌, inl, inr, Bool, true, false, ◌&&◌, List, [], ◌∷◌, none, some, arith, ◌==◌,
  is_some, Option-cases,
}
use x.Bpf.Maps.{MapLaws, Ebpf}
use x.Bpf.Manager.{Manager, unprotect_pid, list_protected_pids}
use x.Bpf.Protection.{is_protected}
use x.Reconcile.{Reconciler, Wake, stopped, tick, sweep, run_loop}
use x.Reconcile.Sweep.{bpf_store, sweep_lem}

-- The process was alive at every tick up to the stop.
abbrev pub lives_through : ℕ → List Wake → Bool
lives_through j [] = true
lives_through j (stopped ∷ wakes) = true
lives_through j (tick alive ∷ wakes) = alive j && lives_through j wakes

module _ (e : Ebpf) (laws : MapLaws e.numbers ◌==◌) where
  abbrev guards : Manager e → ℕ → Bool
  guards = is_protected e laws

  and_assoc : (a b c : Bool) → ((a && b) && c) ≡ (a && (b && c))
  and_assoc a b c = ground arith

  -- Where listings and releases give no error: the loop leaves in the map of protected PIDs exactly the PIDs
  -- that were there and whose processes were alive at every tick before the stop.
  pub run_loop-guards :
      (wakes : List Wake) (k : Manager e) (r : Reconciler) (j : ℕ)
      → ((m : Manager e) → is_some (list_protected_pids e m) ≡ true)
      → ((m : Manager e) (pid : ℕ) → is_some (unprotect_pid e m pid).1 ≡ false)
      → guards (run_loop (bpf_store e) wakes k r).0 j ≡ (guards k j && lives_through j wakes)
  unfolding run_loop
  run_loop-guards [] k r j lists deletes = ground arith
  run_loop-guards (stopped ∷ wakes) k r j lists deletes = ground arith
  run_loop-guards (tick alive ∷ wakes) k r j lists deletes =
      run_loop-guards wakes (sweep (bpf_store e) alive k r).0 (sweep (bpf_store e) alive k r).1 j
        lists deletes
      ∙ ap (λ b. b && lives_through j wakes) (swept (Option-cases (list_protected_pids e k)))
      ∙ and_assoc (guards k j) (alive j) (lives_through j wakes)
    where
      swept :
          (list_protected_pids e k ≡ none)
            ⊎ ((pids : List ℕ) × (list_protected_pids e k ≡ some pids))
          → guards (sweep (bpf_store e) alive k r).0 j ≡ (guards k j && alive j)
      swept (inl q) = absurd (ground (arith, lists k))
      swept (inr (pids, q)) = (sweep_lem e laws alive deletes k r pids j q).0
