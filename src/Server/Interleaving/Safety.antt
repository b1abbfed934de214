-- ===== src/Server/Interleaving/Safety.antt =====
-- Whatever the order of the accesses, a process that goes on is guarded once it is told so.
use x.Base.{
  ℕ, ◌≡◌, ◌≢◌, ◌⊎◌, inl, inr, refl, sym, subst, ◌∙◌, Bool, true, Option, arith, ◌==◌, ==_iff,
  Bool-cases, Bytes,
}
use x.Bpf.Maps.{MapLaws, Ebpf}
use x.Bpf.Manager.{BpfError, Manager, unprotect_pid}
use x.Bpf.Protection.{is_guarded, unprotect_pid-is_guarded}
use x.Server.Peer.{process_start_time}
use x.Server.Handle.{Ucred, Request, Response, Server, World}
use x.Server.Kernel.{bpf_protector}
use x.Server.Machine.{idle, arrived, replied, advance}
use x.Server.Interleaving.{
  Worker, update, Machine, move, release, Step, accepted, moved, changed, released, Spares, Reaches,
  here, onward, IsQuiet,
}
use x.Server.Interleaving.Access.{
  IsSteady, advance-IsSteady, advance-guards_own, advance-guards_other,
}

module _ (e : Ebpf) (laws : MapLaws e.numbers ◌==◌) (W : Type 0) (pid : ℕ) (start : Option ℕ) where
  abbrev guards : World (Manager e) W → Bool
  guards w = is_guarded e laws w.kernel pid

  Covers : World (Manager e) W → Worker → Type 0
  Covers w v = v.cred.pid ≡ pid → IsSteady e laws start w pid v.phase

  record IsSafe (a : Machine e W) : Type 0 where
    same : process_start_time (a.proc pid) ≡ start
    each : (i : ℕ) → Covers a.world (a.workers i)

  later-Covers :
      (w w' : World (Manager e) W) (v : Worker)
      → (guards w ≡ true → guards w' ≡ true)
      → Covers w v
      → Covers w' v
  unfolding Covers
  later-Covers w w' v k c q = record {
    steady = (c q).steady;
    kept = λ z. k ((c q).kept z);
    stays = (c q).stays;
  }

  accessed-guards :
      (s : Server (Manager e) BpfError W) (stat : Option Bytes) (v : Worker)
      (w : World (Manager e) W)
      → s.protector ≡ bpf_protector e
      → Covers w v
      → guards w ≡ true
      → guards (advance s stat v.cred v.request v.phase w).0 ≡ true
  unfolding Covers
  accessed-guards s stat v w by c g = elim (Bool-cases (v.cred.pid == pid)) [
    | inl q ↦ own ((==_iff v.cred.pid pid).0 q)
    | inr q ↦
        advance-guards_other e laws s by stat v.cred v.request v.phase w pid (ground arith) ∙ g
  ]
    where
      own : v.cred.pid ≡ pid → guards (advance s stat v.cred v.request v.phase w).0 ≡ true
      own q =
          subst
            (λ j. is_guarded e laws (advance s stat v.cred v.request v.phase w).0.kernel j ≡ true) q
            (advance-guards_own e laws s by stat v.cred v.request v.phase w (c q).stays
              (subst (λ j. is_guarded e laws w.kernel j ≡ true) (sym q) g))

  accessed-Covers :
      (s : Server (Manager e) BpfError W) (stat : Option Bytes) (v : Worker)
      (w : World (Manager e) W)
      → s.protector ≡ bpf_protector e
      → (v.cred.pid ≡ pid → process_start_time stat ≡ start)
      → Covers w v
      → (let (w', p) = advance s stat v.cred v.request v.phase w in
          Covers w' (record v { phase = p }))
  unfolding Covers
  accessed-Covers s stat v w by t c q = carried (t q) q (c q)
    where
      carried :
          process_start_time stat ≡ start
          → v.cred.pid ≡ pid
          → IsSteady e laws start w pid v.phase
          → (let (w', p) = advance s stat v.cred v.request v.phase w in
              IsSteady e laws start w' pid p)
      carried h r = rw (sym h, sym r) (advance-IsSteady e laws s by stat v.cred v.request v.phase w)

  update-Covers :
      (f : ℕ → Worker) (w : World (Manager e) W) (i : ℕ) (v : Worker)
      → ((j : ℕ) → Covers w (f j))
      → Covers w v
      → (j : ℕ) → Covers w (update f i v j)
  unfolding update
  update-Covers f w i v h c j = elim (Bool-cases (i == j)) [
    | inl q ↦ rw (q, update) c
    | inr q ↦ rw (q, update) (h j)
  ]

  arrived-Covers :
      (w : World (Manager e) W) (cred : Ucred) (req : Request)
      → Covers w (record { cred = cred; request = req; phase = arrived })
  unfolding Covers
  arrived-Covers w cred req q = record { steady = λ t h. cc; kept = λ h. cc; stays = refl }

  changed_start :
      (proc : ℕ → Option Bytes) (p : ℕ) (stat : Option Bytes)
      → (p ≢ pid) ⊎ (process_start_time stat ≡ process_start_time (proc pid))
      → process_start_time (proc pid) ≡ start
      → process_start_time (update proc p stat pid) ≡ start
  unfolding update process_start_time
  changed_start proc p stat n h = elim (Bool-cases (p == pid)) [
    | inl q ↦ rw (q, update) (same_start n ((==_iff p pid).0 q))
    | inr q ↦ rw (q, update) h
  ]
    where
      same_start :
          (p ≢ pid) ⊎ (process_start_time stat ≡ process_start_time (proc pid))
          → p ≡ pid
          → process_start_time stat ≡ start
      same_start (inl m) q = absurd (m q)
      same_start (inr m) q = m ∙ h

  released-guards :
      (k : Manager e) (j : ℕ)
      → j ≢ pid
      → is_guarded e laws k pid ≡ true
      → is_guarded e laws (unprotect_pid e k j).0 pid ≡ true
  released-guards k j n g = ground (arith, unprotect_pid-is_guarded e laws k j pid)

  Step-IsSafe : (a b : Machine e W) (s : Step e W a b) → Spares e W pid a b s → IsSafe a → IsSafe b
  unfolding move release
  Step-IsSafe a b (accepted i cred req f q) p h = subst IsSafe (sym q) (record {
    same = h.same;
    each = update-Covers a.workers a.world i _ h.each (arrived-Covers a.world cred req);
  })
  Step-IsSafe a b (moved s i by q) p h = subst IsSafe (sym q) (record {
    same = h.same;
    each =
        let v = a.workers i in
        let r = advance s (a.proc v.cred.pid) v.cred v.request v.phase a.world in
        update-Covers a.workers r.0 i (record v { phase = r.1 })
          (λ j.
            later-Covers a.world r.0 (a.workers j)
              (accessed-guards s (a.proc v.cred.pid) v a.world by (h.each i)) (h.each j))
          (accessed-Covers s (a.proc v.cred.pid) v a.world by
            (λ z. subst (λ k. process_start_time (a.proc k) ≡ start) (sym z) h.same) (h.each i));
  })
  Step-IsSafe a b (changed p stat q) (inl n) h =
      subst IsSafe (sym q)
        (record { same = changed_start a.proc p stat (inl n) h.same; each = h.each })
  Step-IsSafe a b (changed p stat q) (inr n) h =
      subst IsSafe (sym q)
        (record { same = changed_start a.proc p stat (inr n) h.same; each = h.each })
  Step-IsSafe a b (released j q) n h = subst IsSafe (sym q) (record {
    same = h.same;
    each =
        λ i. later-Covers a.world _ (a.workers i) (released-guards a.world.kernel j n) (h.each i);
  })

  Reaches-IsSafe : (z a : Machine e W) → Reaches e W pid z a → IsSafe a → IsSafe z
  Reaches-IsSafe z _ here h = h
  Reaches-IsSafe z _ (onward a b s p r) h = Reaches-IsSafe z b r (Step-IsSafe a b s p h)

  quiet-Covers :
      (w : World (Manager e) W) (v : Worker) → (v.cred.pid ≡ pid → v.phase ≡ idle) → Covers w v
  unfolding Covers
  quiet-Covers w v h q = rw (h q) (record { steady = λ t z. cc; kept = λ z. cc; stays = refl })

module _ (e : Ebpf) (laws : MapLaws e.numbers ◌==◌) (W : Type 0) where
  -- However the accesses of the connections, the exits and the releases of other processes interleave,
  -- from a moment at which no connection of a PID was under way on: as long as the process that has
  -- the PID goes on and its PID is not released, once a response says that it is protected the map of
  -- protected PIDs has 1 under its PID, which is what the LSM programs test for.
  pub Reaches-guards_replied :
      (pid : ℕ) (a z : Machine e W) (i : ℕ) (r : Response)
      → IsQuiet e W pid a
      → Reaches e W pid z a
      → (z.workers i).cred.pid ≡ pid
      → (z.workers i).phase ≡ replied r
      → r.protected ≡ true
      → is_guarded e laws z.world.kernel pid ≡ true
  unfolding Covers
  Reaches-guards_replied pid a z i r quiet h own p g = (safe.each i own).kept (rw p g)
    where
      safe : IsSafe e laws W pid (process_start_time (a.proc pid)) z
      safe = Reaches-IsSafe e laws W pid (process_start_time (a.proc pid)) z a h (record {
        same = refl;
        each = λ j.
            quiet-Covers e laws W pid (process_start_time (a.proc pid)) a.world (a.workers j)
              (quiet j);
      })
