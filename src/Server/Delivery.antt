-- ===== src/Server/Delivery.antt =====
-- What the shim is sent, and when.
use x.Base.{
  ◌≡◌, ◌≢◌, refl, sym, ap, ◌∙◌, inl, inr, true, false, not, List, [], ◌∷◌, Option, none, some,
  arith, if◌then◌else◌, Option-cases, Bytes, is_empty, is_some, Assoc, insert, lookup,
  lookup-insert, eqb, eqb_iff, In,
}
use x.Secrets.{Secret, Match, is_empty_match}
use x.Server.Handle.{
  Ucred, Request, Response, Server, World, StatReads, refuse, Refusal, caller_gone,
  protection_unavailable, add_env, identify, issue, handle,
}
use x.Server.Cases.{
  caller_of, matched, marked, refused, unconfigured, degraded, rolled_back, withheld, issued,
  IsIdentified, handle-Outcome,
}

-- The last value given to a name.
unfoldable pub last_value : Bytes → List Secret → Option Bytes
last_value k [] = none
last_value k (s ∷ ss) = elim (last_value k ss) [
  | some v ↦ some v
  | none ↦ if eqb s.name k then some s.value else none
]

abbrev or_else : Option Bytes → Option Bytes → Option Bytes
or_else none o = o
or_else (some v) o = some v

lookup-add_env :
    (k : Bytes) (env : Assoc Bytes Bytes) (ss : List Secret)
    → lookup eqb k (add_env env ss) ≡ or_else (last_value k ss) (lookup eqb k env)
unfolding add_env last_value
lookup-add_env k env [] = refl
lookup-add_env k env (s ∷ ss) = ground (
  arith,
  lookup-add_env k (insert eqb s.name s.value env) ss,
  lookup-insert eqb eqb_iff s.name k s.value env,
)

pub last_value-In :
    (k v : Bytes) (ss : List Secret)
    → last_value k ss ≡ some v
    → (sec : Secret) × In sec ss × (sec.name ≡ k) × (sec.value ≡ v)
unfolding last_value
last_value-In k v [] h = absurd (cc)
last_value-In k v (s ∷ ss) h = elim (Option-cases (last_value k ss)) [
  | inr (u, e) ↦ let (sec, m, n, q) = last_value-In k v ss (ground arith) in (sec, inr m, n, q)
  | inl e ↦ (s, inl refl, ground (arith, eqb_iff s.name k), ground (arith, eqb_iff s.name k))
]

last_value_empty : (k : Bytes) (ss : List Secret) → is_empty ss ≡ true → last_value k ss ≡ none
unfolding last_value
last_value_empty k [] h = refl
last_value_empty k (s ∷ ss) h = cc

no_secrets : (m : Match) → is_empty_match m ≡ true → is_empty m.secrets ≡ true
unfolding is_empty_match
no_secrets m h = ground arith

insert_kept : (k v : Bytes) (env : Assoc Bytes Bytes) → is_empty (insert eqb k v env) ≡ false
unfolding insert
insert_kept k v [] = refl
insert_kept k v ((j, u) ∷ env) = ground arith

add_env_kept :
    (env : Assoc Bytes Bytes) (ss : List Secret)
    → is_empty env ≡ false
    → is_empty (add_env env ss) ≡ false
unfolding add_env
add_env_kept env [] h = h
add_env_kept env (s ∷ ss) h =
    add_env_kept (insert eqb s.name s.value env) ss (insert_kept s.name s.value env)

pub add_env_nonempty : (ss : List Secret) → is_empty ss ≡ false → is_empty (add_env [] ss) ≡ false
unfolding add_env
add_env_nonempty [] h = cc
add_env_nonempty (s ∷ ss) h =
    add_env_kept (insert eqb s.name s.value []) ss (insert_kept s.name s.value [])

or_else-none : (o : Option Bytes) → or_else o none ≡ o
or_else-none none = refl
or_else-none (some v) = refl

not_ok : ¬ (false ≡ true)
not_ok h = cc

module _ {S E W : Type 0} (s : Server S E W) (reads : StatReads) (cred : Ucred) (req : Request)
    (w : World S W) where
  abbrev ended : World S W × Response
  ended = handle s reads cred req w

  abbrev found : Match
  found = matched s reads cred req w

  -- A served response has for each name the last value that the lookup gave it, and a refusal has
  -- none.
  pub handle-env :
      (k : Bytes)
      → lookup eqb k ended.1.env ≡ (if ended.1.ok then last_value k found.secrets else none)
  unfolding lookup issue
  handle-env k = elim (handle-Outcome s reads cred req w) [
    | refused why e q ↦ rw q
    | unconfigured i h q ↦ rw q (sym (last_value_empty k found.secrets (no_secrets found h)))
    | degraded i d h u q ↦ rw q (sym (last_value_empty k found.secrets (ap is_empty h)))
    | rolled_back start b n q ↦ rw q
    | withheld d p q ↦ rw q
    | issued i ↦
        rw i.result (lookup-add_env k [] found.secrets ∙ or_else-none (last_value k found.secrets))
  ]

  -- Where protection is required, a response that carries values says that the caller is protected,
  -- and marking its PID gave no error.
  pub handle-protected :
      s.cfg.require_protection ≡ true
      → ended.1.env ≢ []
      → (ended.1.protected ≡ true) × (is_some (marked s reads cred req w).1 ≡ false)
  unfolding issue
  handle-protected d n = elim (handle-Outcome s reads cred req w) [
    | refused why e q ↦ absurd (n (ap (λ r. r.1.env) q))
    | unconfigured i h q ↦ absurd (n (ap (λ r. r.1.env) q))
    | degraded i c h u q ↦ absurd (n (ap (λ r. r.1.env) q))
    | rolled_back start b c q ↦ absurd (n (ap (λ r. r.1.env) q))
    | withheld c p q ↦ absurd (n (ap (λ r. r.1.env) q))
    | issued i ↦ (ap (λ r. r.1.protected) i.result ∙ ap not (i.guarded d), i.guarded d)
  ]

  -- A caller is served only with the identification that the policy asks for.
  pub handle-IsIdentified : ended.1.ok ≡ true → IsIdentified s reads cred req w
  handle-IsIdentified h = elim (handle-Outcome s reads cred req w) [
    | refused why e q ↦ absurd (not_ok (sym (ap (λ r. r.1.ok) q) ∙ h))
    | unconfigured i e q ↦ i
    | degraded i d e u q ↦ i
    | rolled_back start b n q ↦ absurd (not_ok (sym (ap (λ r. r.1.ok) q) ∙ h))
    | withheld d p q ↦ absurd (not_ok (sym (ap (λ r. r.1.ok) q) ∙ h))
    | issued i ↦ i.identified
  ]

  -- Where protection is required, a process is let start without it only if the lookup found
  -- nothing at all, and then nothing has changed.
  pub handle-unprotected :
      s.cfg.require_protection ≡ true
      → ended.1.ok ≡ true
      → ended.1.protected ≡ false
      → (is_empty_match found ≡ true) × (ended.0 ≡ w)
  unfolding issue
  handle-unprotected d h p = elim (handle-Outcome s reads cred req w) [
    | refused why e q ↦ absurd (not_ok (sym (ap (λ r. r.1.ok) q) ∙ h))
    | unconfigured i e q ↦ (e, ap (λ r. r.0) q)
    | degraded i c e u q ↦ absurd (not_ok (sym c ∙ d))
    | rolled_back start b n q ↦ absurd (not_ok (sym (ap (λ r. r.1.ok) q) ∙ h))
    | withheld c e q ↦ absurd (not_ok (sym (ap (λ r. r.1.ok) q) ∙ h))
    | issued i ↦ absurd (not_ok (sym p ∙ (ap (λ r. r.1.protected) i.result ∙ ap not (i.guarded d))))
  ]

  -- Where a pod is required, only a caller that was identified with no error and has a pod is served.
  pub handle-caller_of :
      s.cfg.require_pod_identity ≡ true
      → ended.1.ok ≡ true
      → ((identify s cred.pid).1 ≡ false) × (is_some (caller_of s reads cred req w).pod ≡ true)
  handle-caller_of d h = let i = handle-IsIdentified h in (i.no_error d, i.in_pod d)

  -- A response either serves or names an error, never both; and a refused one has no secrets, claims
  -- no protection and has no warning.
  pub handle-refusal : ended.1.ok ≡ false → (e : Refusal) × (ended.1 ≡ refuse e)
  unfolding issue
  handle-refusal h = elim (handle-Outcome s reads cred req w) [
    | refused why e q ↦ (e, ap (λ r. r.1) q)
    | unconfigured i e q ↦ absurd (not_ok (sym h ∙ ap (λ r. r.1.ok) q))
    | degraded i c e u q ↦ absurd (not_ok (sym h ∙ ap (λ r. r.1.ok) q))
    | rolled_back start b n q ↦ (caller_gone, ap (λ r. r.1) q)
    | withheld c e q ↦ (protection_unavailable, ap (λ r. r.1) q)
    | issued i ↦ absurd (not_ok (sym h ∙ ap (λ r. r.1.ok) i.result))
  ]
