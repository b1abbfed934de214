-- ===== src/Reconcile/Sweep.antt =====
-- What one sweep over the BPF manager leaves protected.
use x.Base.{
  ℕ, ◌+◌, ◌%◌, ◌^◌, ◌≡◌, inl, inr, refl, ap, ◌∙◌, Bool, true, false, not, ◌&&◌, List, [], ◌∷◌, some,
  arith, if◌then◌else◌, Bool-cases, is_some, keep, ◌||◌, Option-cases, In, ◌==◌, ==_iff, length,
}
use x.Bpf.Maps.{MapLaws, Ebpf}
use x.Bpf.Manager.{BpfError, Manager, unprotect_pid, list_protected_pids}
use x.Bpf.Protection.{
  entry, is_protected, unprotect_pid-entry, unprotect_pid_lem, list_protected_pids_lem,
}
use x.Reconcile.{Store, Reconciler, sweep_pids, sweep}

-- `Manager` as a `Store`.
unfoldable pub bpf_store : (e : Ebpf) → Store (Manager e) BpfError
bpf_store e = record {
  list_protected_pids = list_protected_pids e;
  unprotect_pid = unprotect_pid e;
}

module _ (e : Ebpf) (laws : MapLaws e.numbers ◌==◌) (alive : ℕ → Bool) where
  abbrev guards : Manager e → ℕ → Bool
  guards = is_protected e laws

  abbrev swept : Manager e → ℕ → List ℕ → Manager e × ℕ
  swept = sweep_pids (bpf_store e) alive

  abbrev next : Manager e → ℕ → Manager e
  next k pid = if alive pid then k else (unprotect_pid e k pid).0

  next-guards :
      (k : Manager e) (pid j : ℕ)
      → guards (next k pid) j ≡ (
          if alive pid || is_some (unprotect_pid e k pid).1
          then guards k j
          else if pid == j
          then false
          else guards k j)
  next-guards k pid j = ground (arith, unprotect_pid_lem e laws k pid j)

  -- A sweep over any PIDs protects none that was not protected before.
  sweep_pids-shrinks :
      (k : Manager e) (n : ℕ) (pids : List ℕ) (j : ℕ)
      → guards (swept k n pids).0 j ≡ true
      → guards k j ≡ true
  unfolding sweep_pids bpf_store
  sweep_pids-shrinks k n [] j h = h
  sweep_pids-shrinks k n (pid ∷ pids) j h =
      ground (arith, next-guards k pid j, sweep_pids-shrinks (next k pid) _ pids j h)

  next-entry :
      (k : Manager e) (pid j : ℕ) → alive j ≡ true → entry e laws (next k pid) j ≡ entry e laws k j
  next-entry k pid j a = ground (arith, unprotect_pid-entry e laws k pid j, ==_iff pid j)

  -- A process that is alive keeps its entry.
  sweep_pids-entry :
      (k : Manager e) (n : ℕ) (pids : List ℕ) (j : ℕ)
      → alive j ≡ true
      → entry e laws (swept k n pids).0 j ≡ entry e laws k j
  unfolding sweep_pids bpf_store
  sweep_pids-entry k n [] j a = refl
  sweep_pids-entry k n (pid ∷ pids) j a =
      sweep_pids-entry (next k pid) _ pids j a ∙ next-entry k pid j a

  sweep_pids_alive :
      (k : Manager e) (n : ℕ) (pids : List ℕ) (j : ℕ)
      → alive j ≡ true
      → guards (swept k n pids).0 j ≡ guards k j
  unfolding is_protected
  sweep_pids_alive k n pids j a = ap is_some (sweep_pids-entry k n pids j a)

  pub sweep_pids_outside :
      (k : Manager e) (n : ℕ) (pids : List ℕ) (j : ℕ)
      → guards k j ≡ false
      → guards (swept k n pids).0 j ≡ false
  sweep_pids_outside k n pids j h = elim (Bool-cases (guards (swept k n pids).0 j)) [
    | inr g ↦ g
    | inl g ↦ absurd (both (sweep_pids-shrinks k n pids j g))
  ]
    where
      both : guards k j ≡ true → ⊥
      both g = cc

  module _ (deletes : (k : Manager e) (pid : ℕ) → is_some (unprotect_pid e k pid).1 ≡ false) where
    sweep_pids_dead :
        (k : Manager e) (n : ℕ) (pids : List ℕ) (j : ℕ)
        → In j pids
        → alive j ≡ false
        → guards (swept k n pids).0 j ≡ false
    unfolding sweep_pids bpf_store
    sweep_pids_dead k n [] j m a = absurd m
    sweep_pids_dead k n (pid ∷ pids) j (inl q) a =
        sweep_pids_outside (next k pid) _ pids j
          (ground (arith, next-guards k pid j, deletes k pid, ==_iff pid j))
    sweep_pids_dead k n (pid ∷ pids) j (inr m) a = sweep_pids_dead (next k pid) _ pids j m a

    sweep_pids_count :
        (k : Manager e) (n : ℕ) (pids : List ℕ)
        → (swept k n pids).1 ≡ n + length (keep (λ pid. not (alive pid)) pids)
    unfolding sweep_pids bpf_store keep
    sweep_pids_count k n [] = omega arith
    sweep_pids_count k n (pid ∷ pids) =
        sweep_pids_count (next k pid) _ pids ∙ ground (arith, deletes k pid)

    -- With a listing that succeeds and no failing delete, a sweep leaves protected exactly the PIDs
    -- that were protected and are alive, and counts the dead ones that it found.
    pub sweep_lem :
        (k : Manager e) (r : Reconciler) (pids : List ℕ) (j : ℕ)
        → list_protected_pids e k ≡ some pids
        → let (k', r', n) = sweep (bpf_store e) alive k r in
          (guards k' j ≡ (guards k j && alive j))
          × (n ≡ some (length (keep (λ pid. not (alive pid)) pids)))
          × (r'.reclaimed ≡ (r.reclaimed + length (keep (λ pid. not (alive pid)) pids)) % 2 ^ 64)
    unfolding sweep bpf_store
    sweep_lem k r pids j h =
        rw (h, sweep)
          (
            elim (Bool-cases (alive j)) [
              | inl a ↦ sweep_pids_alive k 0 pids j a ∙ ground arith
              | inr a ↦ elim (Bool-cases (guards k j)) [
                | inl g ↦
                    sweep_pids_dead k 0 pids j ((list_protected_pids_lem e laws k pids j h).1 g) a
                    ∙ ground arith
                | inr g ↦ sweep_pids_outside k 0 pids j g ∙ ground arith
              ]
            ],
            ap some (sweep_pids_count k 0 pids ∙ omega arith),
            ap (λ (n : ℕ). (r.reclaimed + n) % 2 ^ 64) (sweep_pids_count k 0 pids ∙ omega arith),
          )

  -- Whatever fails, a sweep leaves the entry of a process that is alive as it was.
  pub sweep-entry :
      (k : Manager e) (r : Reconciler) (j : ℕ)
      → alive j ≡ true
      → entry e laws (sweep (bpf_store e) alive k r).0 j ≡ entry e laws k j
  unfolding sweep bpf_store
  sweep-entry k r j a = elim (Option-cases (list_protected_pids e k)) [
    | inl h ↦ rw (h, sweep) refl
    | inr (pids, h) ↦ rw (h, sweep) (sweep_pids-entry k 0 pids j a)
  ]
