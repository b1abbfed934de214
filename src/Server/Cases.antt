-- ===== src/Server/Cases.antt =====
-- The ways in which one exchange ends.
use x.Base.{
  ℕ, ◌≡◌, ◌≢◌, inl, inr, true, false, not, ◌&&◌, [], ◌∷◌, Option, none, some, arith, Bool-cases,
  Option-cases, is_empty, is_empty-true, is_empty-false, is_some,
}
use x.Text.{base}
use x.Secrets.{Caller, Match, is_empty_match}
use x.Server.Peer.{process_start_time}
use x.Server.Handle.{
  Ucred, Request, Refusal, every_secret_unresolved, caller_gone, protection_unavailable, Response,
  Denial, pid_recycled, protection_missing, caller_vanished, pod_identity_refused,
  rejected_by_policy, secrets_unresolved, empty_binary, caller_unidentified, caller_not_in_pod,
  no_binding_admits, bindings_rejected, all_unresolved, no_binary_named, caller_unattributed,
  Server, World, StatReads, refuse, start_unprotected, recycled, denied, identify, issue, confirm,
  guard_and_issue, serve, names_nothing, handle,
}

left_over :
    (m : Match)
    → is_empty_match m ≡ false
    → is_empty m.secrets ≡ true
    → is_empty m.refused ≡ true
    → is_empty m.rejected ≡ true
    → m.unresolved ≢ []
unfolding is_empty_match
left_over m a h b c = (is_empty-false m.unresolved).0 (ground arith)

module _ {S E W : Type 0} (s : Server S E W) (reads : StatReads) (cred : Ucred) (req : Request)
    (w : World S W) where
  -- What the server knows of the caller, and what it looks up for it.
  abbrev pub caller_of : Caller
  caller_of = (identify s cred.pid).0

  abbrev pub matched : Match
  matched = s.resolver (base req.binary) caller_of

  -- The kernel after the PID was marked, and after it was tracked too.
  abbrev pub marked : S × Option E
  marked = s.protector.protect_pid w.kernel cred.pid

  abbrev pub tracked : World S W
  tracked = record w { kernel = (s.protector.track_pid marked.0 cred.pid).0 }

  -- The caller is known to the degree that the policy asks for.
  pub record IsIdentified : Type 0 where
    pub no_error : s.cfg.require_pod_identity ≡ true → (identify s cred.pid).1 ≡ false
    pub in_pod : s.cfg.require_pod_identity ≡ true → is_some caller_of.pod ≡ true

  pub record IsIssued (r : World S W × Response) : Type 0 where
    pub result : r ≡ issue s tracked cred.pid matched (not (is_some marked.1))
    pub identified : IsIdentified
    pub some_secret : is_empty matched.secrets ≡ false
    pub start : ℕ
    pub start_before : process_start_time reads.before ≡ some start
    pub start_after : process_start_time reads.after ≡ some start
    pub guarded : s.cfg.require_protection ≡ true → is_some marked.1 ≡ false

  pub data Outcome (r : World S W × Response) : Type 0 where
    -- Refused before anything was done to the kernel.
    refused : (why : Denial) (e : Refusal) → r ≡ (denied s w cred.pid why, refuse e) → Outcome r
    -- Nothing is configured for this binary and caller.
    unconfigured :
        IsIdentified → is_empty_match matched ≡ true → r ≡ (w, start_unprotected []) → Outcome r
    -- Nothing resolved, and the policy does not require protection.
    degraded :
        IsIdentified
        → s.cfg.require_protection ≡ false
        → matched.secrets ≡ []
        → matched.unresolved ≢ []
        → r ≡ (w, start_unprotected (every_secret_unresolved matched.unresolved ∷ []))
        → Outcome r
    -- The PID changed hands between the two reads.
    rolled_back :
        (start : ℕ)
        → process_start_time reads.before ≡ some start
        → process_start_time reads.after ≢ some start
        → r ≡ (
          denied s
              (record w { kernel = (s.protector.unprotect_pid tracked.kernel cred.pid).0 })
              cred.pid
              pid_recycled,
          refuse caller_gone,
        )
        → Outcome r
    -- The kernel does not guard the PID, and the policy requires that it does.
    withheld :
        s.cfg.require_protection ≡ true
        → is_some marked.1 ≡ true
        → r ≡ (denied s tracked cred.pid protection_missing, refuse protection_unavailable)
        → Outcome r
    issued : IsIssued r → Outcome r

  recycled-true : (start : ℕ) (o : Option ℕ) → recycled start o ≡ true → o ≢ some start
  recycled-true start none h = λ e. cc
  recycled-true start (some t) h = λ e. ground arith

  recycled-false : (start : ℕ) (o : Option ℕ) → recycled start o ≡ false → o ≡ some start
  recycled-false start none h = cc
  recycled-false start (some t) h = ground arith

  confirm-Outcome :
      (start : ℕ)
      → IsIdentified
      → is_empty matched.secrets ≡ false
      → process_start_time reads.before ≡ some start
      → Outcome (confirm s reads tracked cred.pid matched start (not (is_some marked.1)))
  unfolding confirm
  confirm-Outcome start i h b =
      elim (Bool-cases (recycled start (process_start_time reads.after))) [
        | inl c ↦
            rolled_back start b (recycled-true start (process_start_time reads.after) c) (rw c)
        | inr c ↦ elim (Bool-cases (is_some marked.1)) [
          | inr p ↦ issued (record {
            result = rw (c, p);
            identified = i;
            some_secret = h;
            start = start;
            start_before = b;
            start_after = recycled-false start (process_start_time reads.after) c;
            guarded = λ _. p;
          })
          | inl p ↦ elim (Bool-cases s.cfg.require_protection) [
            | inl q ↦ withheld q p (rw (c, p, q))
            | inr q ↦ issued (record {
              result = rw (c, p, q);
              identified = i;
              some_secret = h;
              start = start;
              start_before = b;
              start_after = recycled-false start (process_start_time reads.after) c;
              guarded = λ r. cc;
            })
          ]
        ]
      ]

  guard-Outcome :
      IsIdentified
      → is_empty matched.secrets ≡ false
      → Outcome (guard_and_issue s reads w cred.pid matched)
  unfolding guard_and_issue
  guard-Outcome i h = elim (Option-cases (process_start_time reads.before)) [
    | inl b ↦ refused caller_vanished caller_gone (rw (b, guard_and_issue))
    | inr (start, b) ↦ rw (b, guard_and_issue) (confirm-Outcome start i h b)
  ]

  serve-Outcome : IsIdentified → Outcome (serve s reads w cred.pid (base req.binary) matched)
  unfolding serve
  serve-Outcome i = elim (Bool-cases (is_empty_match matched)) [
    | inl a ↦ unconfigured i a (rw a)
    | inr a ↦ elim (Bool-cases (is_empty matched.secrets)) [
      | inr h ↦ rw (a, h) (guard-Outcome i h)
      | inl h ↦ elim (Bool-cases (is_empty matched.refused)) [
        | inr b ↦ refused pod_identity_refused (no_binding_admits (base req.binary)) (rw (a, h, b))
        | inl b ↦ elim (Bool-cases (is_empty matched.rejected)) [
          | inr c ↦
              refused rejected_by_policy (bindings_rejected matched.rejected (base req.binary))
                (rw (a, h, b, c))
          | inl c ↦ elim (Bool-cases s.cfg.require_protection) [
            | inl d ↦
                refused secrets_unresolved (all_unresolved matched.unresolved (base req.binary))
                  (rw (a, h, b, c, d))
            | inr d ↦
                degraded i d (is_empty-true matched.secrets h) (left_over matched a h b c)
                  (rw (a, h, b, c, d))
          ]
        ]
      ]
    ]
  ]

  -- Every exchange ends in one of these ways.
  pub handle-Outcome : Outcome (handle s reads cred req w)
  unfolding handle
  handle-Outcome = elim (Bool-cases (names_nothing s req.binary)) [
    | inl a ↦ refused empty_binary no_binary_named (rw a)
    | inr a ↦ elim (Bool-cases (s.cfg.require_pod_identity && (identify s cred.pid).1)) [
      | inl b ↦ refused caller_unidentified caller_unattributed (rw (a, b))
      | inr b ↦ elim (Bool-cases (s.cfg.require_pod_identity && not (is_some caller_of.pod))) [
        | inl c ↦ refused caller_not_in_pod caller_unattributed (rw (a, b, c))
        | inr c ↦
            rw (a, b, c)
              (serve-Outcome (record { no_error = λ q. ground arith; in_pod = λ q. ground arith }))
      ]
    ]
  ]
