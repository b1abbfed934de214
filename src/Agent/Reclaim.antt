-- ===== src/Agent/Reclaim.antt =====
-- A process that has died loses its protection at the next sweep, even if its exit was never reported.
use x.Base.{
  inl, inr, ℕ, ◌≡◌, ap, ◌∙◌, Bool, false, ◌&&◌, List, some, arith, ◌==◌, is_some, Option-cases,
}
use x.Types.{ExecEvent}
use x.Metrics.{Collector}
use x.Bpf.Maps.{MapLaws, Ebpf}
use x.Bpf.Manager.{Manager, unprotect_pid, list_protected_pids}
use x.Bpf.Protection.{is_protected, unprotect_pid_lem}
use x.Reconcile.{Reconciler, sweep}
use x.Reconcile.Sweep.{bpf_store, sweep_pids_outside, sweep_lem}
use x.Server.Handle.{Response, World}
use x.Server.Connection.{IsHandled, Conn, handle_conn, left_alone, handled, handle_conn-Handled}
use x.Server.Kernel.{handle-entry_other}
use x.Agent.{State, handle_exec_event}
use x.Agent.Timeline.{
  System, world, state, Setting, server_of, Step, connection, exec_event, lsm_event, swept,
  IsOfOther, by_bpf, other, lsm_event-bpf_manager,
}

module _ (e : Ebpf) (S V : Type 0) where
  -- No connection of this PID.
  abbrev pub Leaves : ℕ → (a b : System e S V) → Step e S V a b → Type 0
  Leaves pid a b (connection t c q) = IsOfOther e S V pid c.peer_cred
  Leaves pid a b (exec_event ev q) = Unit
  Leaves pid a b (lsm_event ev q) = Unit
  Leaves pid a b (swept alive q) = Unit

  pub data Follows (pid : ℕ) (z : System e S V) : System e S V → Type 0 where
    here : Follows pid z z
    onward :
        (a b : System e S V) (s : Step e S V a b)
        → Leaves pid a b s
        → Follows pid z b
        → Follows pid z a

module _ (e : Ebpf) (laws : MapLaws e.numbers ◌==◌) (S V : Type 0) where
  abbrev guards : Manager e → ℕ → Bool
  guards = is_protected e laws

  handled-unguarded :
      (t : Setting e S V) (c : Conn) (w : World (Manager e) (Collector S V)) (r : Response)
      (pid : ℕ)
      → IsHandled (server_of e S V t) c w r
      → IsOfOther e S V pid c.peer_cred
      → guards (handle_conn (server_of e S V t) c w).0.kernel pid ≡ guards w.kernel pid
  unfolding is_protected
  handled-unguarded t c w r pid i h =
      ap (λ x. guards x.0.kernel pid) i.result
      ∙ ap is_some (
          handle-entry_other e laws (server_of e S V t) (by_bpf e laws S V t) c.reads i.cred i.req w
            pid (other e laws S V pid c.peer_cred i.cred i.by_cred h))

  connection-unguarded :
      (t : Setting e S V) (c : Conn) (w : World (Manager e) (Collector S V)) (pid : ℕ)
      → IsOfOther e S V pid c.peer_cred
      → guards (handle_conn (server_of e S V t) c w).0.kernel pid ≡ guards w.kernel pid
  connection-unguarded t c w pid h = elim (handle_conn-Handled (server_of e S V t) c w) [
    | left_alone o q n ↦ ap (λ x. guards x.0.kernel pid) q
    | handled r i ↦ handled-unguarded t c w r pid i h
  ]

  exec_event-unguarded :
      (ev : ExecEvent) (s : State e S V) (pid : ℕ)
      → guards s.bpf_manager pid ≡ false
      → guards (handle_exec_event ev s).bpf_manager pid ≡ false
  unfolding handle_exec_event
  exec_event-unguarded ev s pid h =
      ground (arith, unprotect_pid_lem e laws s.bpf_manager ev.pid pid)

  sweep-unguarded :
      (alive : ℕ → Bool) (k : Manager e) (r : Reconciler) (pid : ℕ)
      → guards k pid ≡ false
      → guards (sweep (bpf_store e) alive k r).0 pid ≡ false
  unfolding sweep bpf_store
  sweep-unguarded alive k r pid h = elim (Option-cases (list_protected_pids e k)) [
    | inl q ↦ rw (q, sweep) h
    | inr (pids, q) ↦ rw (q, sweep) (sweep_pids_outside e laws alive k 0 pids pid h)
  ]

  Step-unguarded :
      (a b : System e S V) (s : Step e S V a b) (pid : ℕ)
      → Leaves e S V pid a b s
      → guards a.bpf_manager pid ≡ false
      → guards b.bpf_manager pid ≡ false
  Step-unguarded a b (connection t c q) pid h g =
      ap (λ (x : System e S V). guards x.bpf_manager pid) q
      ∙ connection-unguarded t c (world e S V a) pid h
      ∙ g
  Step-unguarded a b (exec_event ev q) pid h g =
      ap (λ (x : System e S V). guards x.bpf_manager pid) q
      ∙ exec_event-unguarded ev (state e S V a) pid g
  Step-unguarded a b (lsm_event ev q) pid h g =
      ap (λ (x : System e S V). guards x.bpf_manager pid) q
      ∙ ap (λ k. guards k pid) (lsm_event-bpf_manager e laws S V ev (state e S V a))
      ∙ g
  Step-unguarded a b (swept alive q) pid h g =
      ap (λ (x : System e S V). guards x.bpf_manager pid) q
      ∙ sweep-unguarded alive a.bpf_manager a.reconciler pid g

  Follows-unguarded :
      (pid : ℕ) (z a : System e S V)
      → Follows e S V pid z a
      → guards a.bpf_manager pid ≡ false
      → guards z.bpf_manager pid ≡ false
  Follows-unguarded pid z _ here g = g
  Follows-unguarded pid z _ (onward a b s h r) g =
      Follows-unguarded pid z b r (Step-unguarded a b s pid h g)

  -- Where releases give no error, the first sweep whose listing succeeds after a process has died takes
  -- its protection, whatever events were lost, and it stays taken, whatever connections, events and
  -- sweeps follow, as long as no connection has its PID.
  pub swept-Follows :
      (alive : ℕ → Bool) (a z : System e S V) (pids : List ℕ) (pid : ℕ)
      → ((k : Manager e) (j : ℕ) → is_some (unprotect_pid e k j).1 ≡ false)
      → list_protected_pids e a.bpf_manager ≡ some pids
      → alive pid ≡ false
      → (let (k, r, n) = sweep (bpf_store e) alive a.bpf_manager a.reconciler in
          Follows e S V pid z (record a { bpf_manager = k; reconciler = r }))
      → guards z.bpf_manager pid ≡ false
  swept-Follows alive a z pids pid deletes l d f =
      Follows-unguarded pid z _ f
        (released (sweep_lem e laws alive deletes a.bpf_manager a.reconciler pids pid l).0)
    where
      released :
          guards (sweep (bpf_store e) alive a.bpf_manager a.reconciler).0 pid
            ≡ (guards a.bpf_manager pid && alive pid)
          → guards (sweep (bpf_store e) alive a.bpf_manager a.reconciler).0 pid ≡ false
      released q = ground arith
