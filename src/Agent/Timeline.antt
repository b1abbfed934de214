-- ===== src/Agent/Timeline.antt =====
-- The steps of a running agent, in any order: connections, the events of the two BPF objects, and sweeps.
use x.Base.{
  ◌⊎◌, inl, inr, ℕ, ◌≡◌, ◌≢◌, refl, sym, ap, ◌∙◌, Bool, true, false, [], Option, none, some, arith,
  ◌==◌,
}
use x.Types.{PolicyConfig, ExecEvent, LsmEvent, mode_enforce}
use x.Metrics.{Collector}
use x.Bpf.Maps.{MapLaws, Ebpf}
use x.Bpf.Manager.{BpfError, Manager}
use x.Bpf.Programs.{is_one}
use x.Bpf.Protection.{is_guarded, unprotect_pid-is_guarded}
use x.Policy.Config.{PodIdentityMode}
use x.Kube.Watch.{Watcher}
use x.Cgroup.{CgroupFiles}
use x.Secrets.{Registry}
use x.Reconcile.{Reconciler, sweep}
use x.Reconcile.Sweep.{bpf_store, sweep-entry}
use x.Server.Peer.{process_start_time}
use x.Server.Handle.{Ucred, Response, Server, World, handle}
use x.Server.Connection.{IsHandled, Conn, handle_conn, left_alone, handled, handle_conn-Handled}
use x.Server.Delivery.{handle-protected}
use x.Server.Kernel.{bpf_protector, handle-guards, handle-entry_other, handle_steady-guards}
use x.Agent.{State, Started, secret_server, handle_exec_event, handle_lsm_event}
use x.Agent.Events.{is_exit_of}

module _ (e : Ebpf) (S V : Type 0) where
  -- What all parts of the agent share.
  pub record System : Type 0 where
    pub bpf_manager : Manager e
    pub collector : Collector S V
    pub reconciler : Reconciler

  abbrev pub world : System → World (Manager e) (Collector S V)
  world a = record { kernel = a.bpf_manager; observer = a.collector }

  abbrev pub with_world : System → World (Manager e) (Collector S V) → System
  with_world a w = record a { bpf_manager = w.kernel; collector = w.observer }

  abbrev pub state : System → State e S V
  state a = record { bpf_manager = a.bpf_manager; collector = a.collector }

  abbrev pub with_state : System → State e S V → System
  with_state a s = record a { bpf_manager = s.bpf_manager; collector = s.collector }

  -- What a connection meets: the configuration, the node's cgroups and the pod cache as it is then.
  pub record Setting : Type 0 where
    pub mode : PodIdentityMode
    pub policy : PolicyConfig
    pub registry : Registry
    pub files : CgroupFiles
    pub started : Started
    pub watcher : Watcher

  abbrev pub server_of : Setting → Server (Manager e) BpfError (Collector S V)
  server_of t = secret_server e t.mode t.policy t.registry t.files t.started t.watcher

  -- One step of the agent.
  pub data Step (a b : System) : Type 0 where
    connection :
        (t : Setting) (c : Conn)
        → b ≡ with_world a (handle_conn (server_of t) c (world a)).0
        → Step a b
    exec_event : (ev : ExecEvent) → b ≡ with_state a (handle_exec_event ev (state a)) → Step a b
    lsm_event : (ev : LsmEvent) → b ≡ with_state a (handle_lsm_event ev (state a)) → Step a b
    swept :
        (alive : ℕ → Bool)
        → (let (k, r, n) = sweep (bpf_store e) alive a.bpf_manager a.reconciler in
            b ≡ record a { bpf_manager = k; reconciler = r })
        → Step a b

  -- The connection is that of another process.
  abbrev pub IsOfOther : ℕ → Option Ucred → Type 0
  IsOfOther pid none = Unit
  IsOfOther pid (some cred) = cred.pid ≢ pid

  -- A step that does not take the process with this PID for gone: a connection is that of another
  -- process, or finds the start time of its own unchanged.
  abbrev pub Spares : ℕ → (a b : System) → Step a b → Type 0
  Spares pid a b (connection t c q) =
      IsOfOther pid c.peer_cred
      ⊎ (process_start_time c.reads.before ≡ process_start_time c.reads.after)
  Spares pid a b (exec_event ev q) = is_exit_of pid ev ≡ false
  Spares pid a b (lsm_event ev q) = Unit
  Spares pid a b (swept alive q) = alive pid ≡ true

  -- The states from which any number of such steps leads to `z`.
  pub data Reaches (pid : ℕ) (z : System) : System → Type 0 where
    here : Reaches pid z z
    onward : (a b : System) (s : Step a b) → Spares pid a b s → Reaches pid z b → Reaches pid z a

module _ (e : Ebpf) (laws : MapLaws e.numbers ◌==◌) (S V : Type 0) where
  abbrev guards : Manager e → ℕ → Bool
  guards = is_guarded e laws

  pub by_bpf : (t : Setting e S V) → (server_of e S V t).protector ≡ bpf_protector e
  unfolding secret_server
  by_bpf t = refl

  pub other :
      (pid : ℕ) (o : Option Ucred) (cred : Ucred)
      → o ≡ some cred
      → IsOfOther e S V pid o
      → cred.pid ≢ pid
  other pid none cred q h = absurd (cc)
  other pid (some c) cred q h = λ p. h (ground arith)

  handled-guards :
      (t : Setting e S V) (c : Conn) (w : World (Manager e) (Collector S V)) (r : Response)
      (pid : ℕ)
      → IsHandled (server_of e S V t) c w r
      → IsOfOther e S V pid c.peer_cred
        ⊎ (process_start_time c.reads.before ≡ process_start_time c.reads.after)
      → guards w.kernel pid ≡ true
      → guards (handle_conn (server_of e S V t) c w).0.kernel pid ≡ true
  unfolding is_guarded
  handled-guards t c w r pid i (inl h) g =
      ap (λ x. guards x.0.kernel pid) i.result
      ∙ ap is_one (
          handle-entry_other e laws (server_of e S V t) (by_bpf t) c.reads i.cred i.req w pid
            (other pid c.peer_cred i.cred i.by_cred h))
      ∙ g
  handled-guards t c w r pid i (inr h) g =
      ap (λ x. guards x.0.kernel pid) i.result
      ∙ handle_steady-guards e laws (server_of e S V t) (by_bpf t) c.reads i.cred i.req w pid h g

  connection-guards :
      (t : Setting e S V) (c : Conn) (w : World (Manager e) (Collector S V)) (pid : ℕ)
      → IsOfOther e S V pid c.peer_cred
        ⊎ (process_start_time c.reads.before ≡ process_start_time c.reads.after)
      → guards w.kernel pid ≡ true
      → guards (handle_conn (server_of e S V t) c w).0.kernel pid ≡ true
  connection-guards t c w pid h g = elim (handle_conn-Handled (server_of e S V t) c w) [
    | left_alone o q n ↦ ap (λ x. guards x.0.kernel pid) q ∙ g
    | handled r i ↦ handled-guards t c w r pid i h g
  ]

  exec_event-guards :
      (ev : ExecEvent) (s : State e S V) (pid : ℕ)
      → is_exit_of pid ev ≡ false
      → guards (handle_exec_event ev s).bpf_manager pid ≡ guards s.bpf_manager pid
  unfolding handle_exec_event
  exec_event-guards ev s pid h =
      ground (arith, unprotect_pid-is_guarded e laws s.bpf_manager ev.pid pid)

  pub lsm_event-bpf_manager :
      (ev : LsmEvent) (s : State e S V) → (handle_lsm_event ev s).bpf_manager ≡ s.bpf_manager
  unfolding handle_lsm_event
  lsm_event-bpf_manager ev s = ground arith

  Step-guards :
      (a b : System e S V) (s : Step e S V a b) (pid : ℕ)
      → Spares e S V pid a b s
      → guards a.bpf_manager pid ≡ true
      → guards b.bpf_manager pid ≡ true
  unfolding is_guarded
  Step-guards a b (connection t c q) pid h g =
      ap (λ (x : System e S V). guards x.bpf_manager pid) q
      ∙ connection-guards t c (world e S V a) pid h g
  Step-guards a b (exec_event ev q) pid h g =
      ap (λ (x : System e S V). guards x.bpf_manager pid) q
      ∙ exec_event-guards ev (state e S V a) pid h
      ∙ g
  Step-guards a b (lsm_event ev q) pid h g =
      ap (λ (x : System e S V). guards x.bpf_manager pid) q
      ∙ ap (λ k. guards k pid) (lsm_event-bpf_manager ev (state e S V a))
      ∙ g
  Step-guards a b (swept alive q) pid h g =
      ap (λ (x : System e S V). guards x.bpf_manager pid) q
      ∙ ap is_one (sweep-entry e laws alive a.bpf_manager a.reconciler pid h)
      ∙ g

  Reaches-guards :
      (pid : ℕ) (z a : System e S V)
      → Reaches e S V pid z a
      → guards a.bpf_manager pid ≡ true
      → guards z.bpf_manager pid ≡ true
  Reaches-guards pid z _ here g = g
  Reaches-guards pid z _ (onward a b s h r) g = Reaches-guards pid z b r (Step-guards a b s pid h g)

  enforced :
      (t : Setting e S V)
      → t.policy.enforce_mode ≡ mode_enforce
      → (server_of e S V t).cfg.require_protection ≡ true
  unfolding secret_server
  enforced t h = ground arith

  same_cred : (o : Option Ucred) (i j : Ucred) → o ≡ some i → o ≡ some j → i ≡ j
  same_cred o i j p q = cc

  same_response : (o : Option Response) (x y : Response) → o ≡ some x → o ≡ some y → y ≡ x
  same_response o x y f g = cc

  sent-guards :
      (server : Server (Manager e) BpfError (Collector S V)) (c : Conn)
      (before : World (Manager e) (Collector S V)) (cred : Ucred) (r : Response)
      → server.protector ≡ bpf_protector e
      → server.cfg.require_protection ≡ true
      → c.peer_cred ≡ some cred
      → (handle_conn server c before).1 ≡ some r
      → r.env ≢ []
      → guards (handle_conn server c before).0.kernel cred.pid ≡ true
  sent-guards server c before cred r by m p q n = elim (handle_conn-Handled server c before) [
    | left_alone o l e' ↦ absurd (n (e' r (sym (ap (λ x. x.1) l) ∙ q)))
    | handled r' i ↦
        let same = same_cred c.peer_cred i.cred cred i.by_cred p in
        let sent =
          same_response (handle_conn server c before).1
            (handle server c.reads i.cred i.req before).1 r (ap (λ x. x.1) i.result) q in
        ap (λ x. guards x.0.kernel cred.pid) i.result
        ∙ (ap (λ (d : Ucred). guards (handle server c.reads i.cred i.req before).0.kernel d.pid)
              (sym same)
            ∙ handle-guards e laws server by c.reads i.cred i.req before
                (handle-protected server c.reads i.cred i.req before m
                  (λ x. n (ap (λ (y : Response). y.env) sent ∙ x))).0)
  ]

  -- In enforce mode, once a value is sent to a process, the map of protected PIDs has 1 under its PID, which is
  -- what the LSM programs test for, and goes on to have it, whatever connections, events and sweeps follow, as
  -- long as no event reports the exit of its PID, no sweep finds it gone, and no connection of its PID finds the
  -- start time changed.
  pub handle_conn-Reaches :
      (t : Setting e S V) (c : Conn) (a z : System e S V) (cred : Ucred) (r : Response)
      → t.policy.enforce_mode ≡ mode_enforce
      → c.peer_cred ≡ some cred
      → (handle_conn (server_of e S V t) c (world e S V a)).1 ≡ some r
      → r.env ≢ []
      → Reaches e S V cred.pid z
          (with_world e S V a (handle_conn (server_of e S V t) c (world e S V a)).0)
      → guards z.bpf_manager cred.pid ≡ true
  handle_conn-Reaches t c a z cred r m p q n h =
      Reaches-guards cred.pid z
        (with_world e S V a (handle_conn (server_of e S V t) c (world e S V a)).0) h
        (sent-guards (server_of e S V t) c (world e S V a) cred r (by_bpf t) (enforced t m) p q n)
