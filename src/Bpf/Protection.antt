-- ===== src/Bpf/Protection.antt =====
-- The set of protected PIDs, under the documented behaviour of a hash map.
use x.Base.{
  ℕ, ◌≡◌, ◌↔◌, refl, ap, ◌⊎◌, inl, inr, Bool, true, false, List, [], ◌∷◌, Option, none, some, arith,
  Option-cases, if◌then◌else◌, In, is_some, ◌==◌, ==_iff,
}
use x.Bpf.Maps.{MapLaws, Ebpf, Deletion, deleted, missing, failed}
use x.Bpf.Programs.{is_one}
use x.Bpf.Manager.{Manager, protect_pid, unprotect_pid, track_pid, list_protected_pids}

Deletion-cases :
    {M : Type 0} (d : Deletion M) → ((m : M) × (d ≡ deleted m)) ⊎ (d ≡ missing) ⊎ (d ≡ failed)
Deletion-cases (deleted m) = inl (m, refl)
Deletion-cases missing = inr (inl refl)
Deletion-cases failed = inr (inr refl)

module _ (e : Ebpf) (laws : MapLaws e.numbers ◌==◌) where
  abbrev entry_in : Option e.numbers.Map → ℕ → Option ℕ
  entry_in none pid = none
  entry_in (some p) pid = laws.get p pid

  -- What a lookup of this PID in the map of protected PIDs finds.
  unfoldable pub entry : Manager e → ℕ → Option ℕ
  entry m pid = entry_in m.protected_pids pid

  -- The PID is a key of the map of protected PIDs.
  unfoldable pub is_protected : Manager e → ℕ → Bool
  unfolding entry
  is_protected m pid = is_some (entry m pid)

  -- The lookup finds 1, which is what the LSM programs test for.
  unfoldable pub is_guarded : Manager e → ℕ → Bool
  unfolding entry is_one
  is_guarded m pid = is_one (entry m pid)

  -- A success stores 1 under the PID and leaves the others; an error leaves every PID as it was.
  pub protect_pid-entry :
      (m : Manager e) (pid j : ℕ)
      → let (m', err) = protect_pid e m pid in
        entry m' j ≡ (if is_some err then entry m j else if pid == j then some 1 else entry m j)
  unfolding protect_pid entry
  protect_pid-entry m pid j = elim (Option-cases m.protected_pids) [
    | inl q ↦ ground arith
    | inr (p, q) ↦ elim (Option-cases (e.numbers.put p pid 1)) [
      | inl r ↦ ground arith
      | inr (p', r) ↦ ground (arith, laws.get-put p p' pid j 1 r)
    ]
  ]

  -- A success leaves nothing under this PID and every other PID as it was; so does an error, the PID
  -- itself included.
  pub unprotect_pid-entry :
      (m : Manager e) (pid j : ℕ)
      → let (m', err) = unprotect_pid e m pid in
        entry m' j ≡ (if is_some err then entry m j else if pid == j then none else entry m j)
  unfolding unprotect_pid entry
  unprotect_pid-entry m pid j = elim (Option-cases m.protected_pids) [
    | inl q ↦ ground arith
    | inr (p, q) ↦ elim (Deletion-cases (e.numbers.delete p pid)) [
      | inl (p', r) ↦ ground (arith, laws.get-delete p p' pid j r)
      | inr (inl r) ↦ ground (arith, laws.get-missing p pid r, ==_iff pid j)
      | inr (inr r) ↦ ground arith
    ]
  ]

  pub track_pid-entry : (m : Manager e) (pid j : ℕ) → entry (track_pid e m pid).0 j ≡ entry m j
  unfolding track_pid entry
  track_pid-entry m pid j = elim (Option-cases m.seen_pids) [
    | inl q ↦ ground arith
    | inr (p, q) ↦ ground arith
  ]

  -- A success leaves this PID no key and every other PID as it was; an error leaves all as they were.
  pub unprotect_pid_lem :
      (m : Manager e) (pid j : ℕ)
      → let (m', err) = unprotect_pid e m pid in
        is_protected m' j
        ≡ (if is_some err then is_protected m j else if pid == j then false else is_protected m j)
  unfolding is_protected
  unprotect_pid_lem m pid j = ground (arith, unprotect_pid-entry m pid j)

  -- The same of whether the LSM programs' test holds.
  pub unprotect_pid-is_guarded :
      (m : Manager e) (pid j : ℕ)
      → let (m', err) = unprotect_pid e m pid in
        is_guarded m' j
        ≡ (if is_some err then is_guarded m j else if pid == j then false else is_guarded m j)
  unfolding is_guarded is_one
  unprotect_pid-is_guarded m pid j = ground (arith, unprotect_pid-entry m pid j)

  pub protect_pid-is_guarded :
      (m : Manager e) (pid j : ℕ)
      → let (m', err) = protect_pid e m pid in
        is_guarded m' j
        ≡ (if is_some err then is_guarded m j else if pid == j then true else is_guarded m j)
  unfolding is_guarded is_one
  protect_pid-is_guarded m pid j = ground (arith, protect_pid-entry m pid j)

  pub track_pid-is_guarded :
      (m : Manager e) (pid j : ℕ) → is_guarded (track_pid e m pid).0 j ≡ is_guarded m j
  unfolding is_guarded is_one
  track_pid-is_guarded m pid j = ap is_one (track_pid-entry m pid j)

  pub is_guarded-is_protected :
      (m : Manager e) (pid : ℕ) → is_guarded m pid ≡ true → is_protected m pid ≡ true
  unfolding is_guarded is_protected is_one
  is_guarded-is_protected m pid h = ground arith

  -- A listing that succeeds has the protected PIDs and no others.
  pub list_protected_pids_lem :
      (m : Manager e) (pids : List ℕ) (pid : ℕ)
      → list_protected_pids e m ≡ some pids
      → In pid pids ↔ (is_protected m pid ≡ true)
  unfolding list_protected_pids is_protected entry
  list_protected_pids_lem m pids pid h = elim (Option-cases m.protected_pids) [
    | inl q ↦ (λ i. absurd (nothing pids (ground arith) i), λ i. ground arith)
    | inr (p, q) ↦ rw (q, is_protected) (laws.mem-keys p pids pid (ground arith))
  ]
    where
      nothing : (xs : List ℕ) → xs ≡ [] → In pid xs → ⊥
      nothing [] e i = i
      nothing (x ∷ xs) e i = cc
