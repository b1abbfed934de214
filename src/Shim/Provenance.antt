-- ===== src/Shim/Provenance.antt =====
-- cmd/kernelseal-exec/main.go over internal/server/server.go: where the values of a started application's
-- environment come from.
use x.Base.{
  ℕ, ◌<◌, ◌≡◌, sym, ap, ◌∙◌, subst, ◌⊎◌, inl, inr, true, false, List, [], ◌∷◌, Option, some, arith,
  Option-cases, Bool-cases, Bytes, eqb, lookup, insert, Assoc, All, All_of_In, All_from_In, In,
}
use x.Text.{base}
use x.Secrets.{Secret, Caller, Match, Binding, Registry}
use x.Secrets
use x.Secrets.Matching.{Entitles, lookup-secrets_iff}
use x.Server.Handle.{Ucred, Request, Response, Server, World, StatReads, handle, add_env, issue}
use x.Server.Cases.{
  caller_of, matched, refused, unconfigured, degraded, rolled_back, withheld, issued,
  handle-Outcome,
}
use x.Server.Delivery.{handle-protected}
use x.Server.Release.{found-lookup, handle-Entitles}
use x.Shim.{
  Round, answered, Fetched, response, failed, fetch_secrets, Flags, main, execs, merge_env,
}
use x.Shim.Env.{getenv, getenv-merge_env, or_later, IsName, AreNames}
use x.Shim.Fetch.{IsAccounted, fetch_secrets-IsAccounted}
use x.Shim.Start.{MayStart, main-MayStart, IsJustified}

abbrev pub IsNamed : Secret → Type 0
IsNamed sec = IsName sec.name

insert-AreNames :
    (k v : Bytes) (env : Assoc Bytes Bytes)
    → IsName k
    → AreNames env
    → AreNames (insert eqb k v env)
unfolding insert
insert-AreNames k v [] n a = (n, tt)
insert-AreNames k v ((j, u) ∷ env) n a = elim (Bool-cases (eqb j k)) [
  | inl e ↦ rw e (n, a.1)
  | inr e ↦ rw e (a.0, insert-AreNames k v env n a.1)
]

add_env-AreNames :
    (env : Assoc Bytes Bytes) (ss : List Secret)
    → All IsNamed ss
    → AreNames env
    → AreNames (add_env env ss)
unfolding add_env
add_env-AreNames env [] h a = a
add_env-AreNames env (sec ∷ ss) h a =
    add_env-AreNames (insert eqb sec.name sec.value env) ss h.1
      (insert-AreNames sec.name sec.value env h.0 a)

module _ {S E W : Type 0} (s : Server S E W) (r : Registry)
    (resolves : (binary : Bytes) (c : Caller) → s.resolver binary c ≡ Secrets.lookup r binary c)
    (named : All (λ b. All IsNamed b.secrets) r.bindings) where
  matched-IsNamed :
      (reads : StatReads) (cred : Ucred) (req : Request) (w : World S W)
      → All IsNamed (matched s reads cred req w).secrets
  matched-IsNamed reads cred req w =
      All_from_In IsNamed (matched s reads cred req w).secrets (λ sec m.
        let (b, e, i) =
          (lookup-secrets_iff (base req.binary) (caller_of s reads cred req w) r sec).0
            (subst (λ m. In sec m.secrets) (found-lookup s r resolves reads cred req w) m) in
        All_of_In IsNamed sec b.secrets
          (All_of_In (λ b. All IsNamed b.secrets) b r.bindings named e.bound) i)

  handle-AreNames :
      (reads : StatReads) (cred : Ucred) (req : Request) (w : World S W)
      → AreNames (handle s reads cred req w).1.env
  unfolding issue
  handle-AreNames reads cred req w = elim (handle-Outcome s reads cred req w) [
    | refused why e q ↦ rw q tt
    | unconfigured i h q ↦ rw q tt
    | degraded i d h u q ↦ rw q tt
    | rolled_back start b n q ↦ rw q tt
    | withheld d p q ↦ rw q tt
    | issued i ↦ rw i.result (
        add_env-AreNames [] (matched s reads cred req w).secrets (matched-IsNamed reads cred req w)
          tt)
  ]

  -- A value that the agent sent in one exchange for a binary: a secret of a binding of the registry that the
  -- caller is entitled to, under protection unless the policy does not ask for it.
  pub record IsSent (reads : StatReads) (cred : Ucred) (req : Request) (w : World S W)
      (name value : Bytes) : Type 0 where
    pub binding : Binding
    pub secret : Secret
    pub entitled : Entitles (base req.binary) (caller_of s reads cred req w) r binding
    pub kept : In secret binding.secrets
    pub name_of : secret.name ≡ name
    pub value_of : secret.value ≡ value
    pub protected :
        (s.cfg.require_protection ≡ false) ⊎ ((handle s reads cred req w).1.protected ≡ true)

  handle-IsSent :
      (reads : StatReads) (cred : Ucred) (req : Request) (w : World S W) (name value : Bytes)
      → lookup eqb name (handle s reads cred req w).1.env ≡ some value
      → IsSent reads cred req w name value
  unfolding lookup
  handle-IsSent reads cred req w name value h =
      let (b, sec, e, i, n, q) = handle-Entitles s r resolves reads cred req w name value h in
      record {
        binding = b;
        secret = sec;
        entitled = e;
        kept = i;
        name_of = n;
        value_of = q;
        protected = elim (Bool-cases s.cfg.require_protection) [
          | inl d ↦
              inr
                (handle-protected s reads cred req w d
                  (λ z. some_env (handle s reads cred req w).1.env z h)).0
          | inr d ↦ inl d
        ];
      }
    where
      some_env : (env : Assoc Bytes Bytes) → env ≡ [] → lookup eqb name env ≡ some value → ⊥
      some_env [] z h = ground arith
      some_env (x ∷ env) z h = ground arith

  module _ (rounds : Bytes → ℕ → Round) (timeout retry_interval : ℕ) (wait : 0 < retry_interval)
      (reads : ℕ → StatReads) (cred : ℕ → Ucred) (w : ℕ → World S W)
      (served : (path : Bytes) (i : ℕ) (resp : Response)
        → (rounds path i).attempt ≡ answered resp
        → resp ≡ (handle s (reads i) (cred i) (record { binary = path }) (w i)).1)
      (fetch : Bytes → Fetched)
      (fetched : (path : Bytes)
        → fetch_secrets (rounds path) timeout retry_interval ≡ some (fetch path)) where
    fetch-IsAccounted :
        (path : Bytes) → IsAccounted (rounds path) timeout retry_interval (fetch path)
    fetch-IsAccounted path =
        let (f, e, acc) = fetch_secrets-IsAccounted (rounds path) timeout retry_interval wait in
        subst (IsAccounted (rounds path) timeout retry_interval) (ground (arith, e, fetched path))
          acc

    abbrev pub Sent : Bytes → Bytes → Bytes → Type 0
    Sent path name value =
        (i : ℕ) × IsSent (reads i) (cred i) (record { binary = path }) (w i) name value

    response-Sent :
        (path name value : Bytes) (environ : List Bytes) (resp : Response)
        → IsAccounted (rounds path) timeout retry_interval (response resp)
        → getenv name (merge_env environ resp.env) ≡ some value
        → (getenv name environ ≡ some value) ⊎ Sent path name value
    response-Sent path name value environ resp (i, now, b, (t, a, ok)) h =
        let q = served path i resp a in
        let names =
          subst AreNames (sym (ap (λ r. r.env) q))
            (handle-AreNames (reads i) (cred i) (record { binary = path }) (w i)) in
        let g = sym (getenv-merge_env name environ resp.env names) ∙ h in
        elim (Option-cases (lookup eqb name resp.env)) [
          | inl e ↦ inl (ap (λ o. or_later o (getenv name environ)) (sym e) ∙ g)
          | inr (v, e) ↦ inr (
            i,
            handle-IsSent (reads i) (cred i) (record { binary = path }) (w i) name value
                (ap (λ r. lookup eqb name r.env) (sym q)
                  ∙ (e ∙ (ap (λ o. or_later o (getenv name environ)) (sym e) ∙ g))),
          )
        ]

    justified-Sent :
        (flags : Flags) (path name value : Bytes) (environ env : List Bytes) (f : Fetched)
        → IsAccounted (rounds path) timeout retry_interval f
        → IsJustified flags f environ env
        → getenv name env ≡ some value
        → (getenv name environ ≡ some value) ⊎ Sent path name value
    unfolding merge_env
    justified-Sent flags path name value environ env (response resp) acc j h =
        response-Sent path name value environ resp acc (ap (getenv name) (sym j) ∙ h)
    justified-Sent flags path name value environ env (failed e) acc j h =
        inl (ap (getenv name) (sym j.1) ∙ h)

    -- Where the agent's server resolves by a registry whose secrets have names without '=', and each answer
    -- that the shim reads in a round is what the server gave for the path of the binary in an exchange of
    -- that round, a variable of the application that the shim starts has the value that it had in the shim's
    -- environment, or the value of a secret of a binding of the registry that the server's caller in one of
    -- those exchanges was entitled to; and where the policy requires protection, that exchange left the
    -- caller protected.
    pub main-IsSent :
        (flags : Flags) (look_path : Bytes → Option Bytes) (environ : List Bytes) (path : Bytes)
        (argv env : List Bytes) (name value : Bytes)
        → main flags look_path fetch environ ≡ execs path argv env
        → getenv name env ≡ some value
        → (getenv name environ ≡ some value) ⊎ Sent path name value
    main-IsSent flags look_path environ path argv env name value m h =
        let (n, args, a, b, l, j) =
          subst (MayStart flags look_path fetch environ) m
            (main-MayStart flags look_path fetch environ) in
        justified-Sent flags path name value environ env (fetch path) (fetch-IsAccounted path) j h
