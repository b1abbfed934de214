-- ===== src/Server/Interleaving/Race.antt =====
-- A connection that outlives its process, beside one of the process that took over the PID.
use x.Base.{
  ℕ, ◌≡◌, ◌≢◌, refl, ap, ◌∙◌, inl, inr, Bool, true, false, Option, none, some, arith, ◌==◌, ==_iff,
  Bool-cases, is_some,
}
use x.Bpf.Maps.{MapLaws, Ebpf}
use x.Bpf.Manager.{BpfError, Manager, unprotect_pid}
use x.Bpf.Protection.{is_protected, unprotect_pid_lem}
use x.Secrets.{Match}
use x.Server.Peer.{process_start_time}
use x.Server.Handle.{Protector, Server, recycled}
use x.Server.Kernel.{bpf_protector}
use x.Server.Machine.{rereading, rolling_back, advance}
use x.Server.Interleaving.{update, Machine, move}

recycled-true : (t : ℕ) (o : Option ℕ) → o ≢ some t → recycled t o ≡ true
recycled-true t none n = refl
recycled-true t (some u) n = elim (Bool-cases (u == t)) [
  | inl q ↦ absurd (n (ap some ((==_iff u t).0 q)))
  | inr q ↦ rw q refl
]

module _ (e : Ebpf) (laws : MapLaws e.numbers ◌==◌) (W : Type 0) (s : Server (Manager e) BpfError W)
    (by_bpf : s.protector ≡ bpf_protector e) (i : ℕ) where
  abbrev two : Machine e W → Machine e W
  two a = move e W s i (move e W s i a)

  move-elsewhere : (a : Machine e W) (j : ℕ) → j ≢ i → (move e W s i a).workers j ≡ a.workers j
  unfolding move update
  move-elsewhere a j d = ground arith

  move-rereading :
      (a : Machine e W) (m : Match) (t : ℕ) (protected : Bool)
      → (a.workers i).phase ≡ rereading m t protected
      → recycled t (process_start_time (a.proc (a.workers i).cred.pid)) ≡ true
      → (move e W s i a).world ≡ a.world
        × ((move e W s i a).workers i ≡ record (a.workers i) { phase = rolling_back })
  unfolding move advance update
  move-rereading a m t protected p c = rw (p, c, advance) (refl, ground arith)

  rolled-guards :
      (p : Protector (Manager e) BpfError) (k : Manager e) (pid : ℕ)
      → p ≡ bpf_protector e
      → is_some (unprotect_pid e k pid).1 ≡ false
      → is_protected e laws (p.unprotect_pid k pid).0 pid ≡ false
  unfolding bpf_protector
  rolled-guards p k pid q u = rw q (ground (arith, unprotect_pid_lem e laws k pid pid))

  move-rolling_back :
      (b : Machine e W) (pid : ℕ)
      → (b.workers i).phase ≡ rolling_back
      → (b.workers i).cred.pid ≡ pid
      → is_some (unprotect_pid e b.world.kernel pid).1 ≡ false
      → is_protected e laws (move e W s i b).world.kernel pid ≡ false
  unfolding move advance
  move-rolling_back b pid q c u =
      rw (q, c, advance) (rolled-guards s.protector b.world.kernel pid by_bpf u)

  -- A goroutine that finds another start time at its second read leaves its PID unguarded two accesses
  -- later, where the roll-back gives no error, although each other goroutine stands where it stood,
  -- also one that has told the process that has the PID now that it is protected.
  pub roll_back-guards :
      (a : Machine e W) (m : Match) (t : ℕ) (protected : Bool) (j : ℕ)
      → (a.workers i).phase ≡ rereading m t protected
      → process_start_time (a.proc (a.workers i).cred.pid) ≢ some t
      → is_some (unprotect_pid e a.world.kernel (a.workers i).cred.pid).1 ≡ false
      → j ≢ i
      → (is_protected e laws (two a).world.kernel (a.workers i).cred.pid ≡ false)
        × ((two a).workers j ≡ a.workers j)
  roll_back-guards a m t protected j p n u d =
      (rolled, move-elsewhere (move e W s i a) j d ∙ move-elsewhere a j d)
    where
      first :
          ((move e W s i a).world ≡ a.world)
          × ((move e W s i a).workers i ≡ record (a.workers i) { phase = rolling_back })
      first = move-rereading a m t protected p (recycled-true t _ n)

      rolled : is_protected e laws (two a).world.kernel (a.workers i).cred.pid ≡ false
      rolled =
          move-rolling_back (move e W s i a) (a.workers i).cred.pid (ap (λ v. v.phase) first.1)
            (ap (λ v. v.cred.pid) first.1) (rw first.0 u)
