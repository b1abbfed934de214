-- ===== src/Server/Release.antt =====
-- The server over the registry: who is sent which values.
use x.Base.{
  ◌≡◌, ◌⊎◌, true, false, [], none, some, arith, if◌then◌else◌, Bytes, lookup, eqb, In, subst,
}
use x.Text.{base}
use x.Secrets.{Secret, Caller, Match, Binding, Registry, is_empty_match}
use x.Secrets
use x.Secrets.Matching.{Entitles, lookup-secrets_iff, lookup-is_empty}
use x.Server.Handle.{Ucred, Request, Server, World, StatReads, handle}
use x.Server.Cases.{caller_of, matched}
use x.Server.Delivery.{last_value, last_value-In, handle-env, handle-unprotected}

module _ {S E W : Type 0} (s : Server S E W) (r : Registry)
    (resolves : (binary : Bytes) (c : Caller) → s.resolver binary c ≡ Secrets.lookup r binary c)
    (reads : StatReads) (cred : Ucred) (req : Request) (w : World S W) where
  pub found-lookup :
      matched s reads cred req w ≡ Secrets.lookup r (base req.binary) (caller_of s reads cred req w)
  found-lookup = resolves (base req.binary) (caller_of s reads cred req w)

  -- Where the server resolves by a registry, every value that it sends belongs to a servable binding
  -- of that registry that names the requested binary, or none, and whose selector admits the caller
  -- as the server identified it.
  pub handle-Entitles :
      (k v : Bytes)
      → lookup eqb k (handle s reads cred req w).1.env ≡ some v
      → (b : Binding) × (sec : Secret) × Entitles
          (base req.binary)
          (caller_of s reads cred req w)
          r
          b
        × In sec b.secrets
        × (sec.name ≡ k)
        × (sec.value ≡ v)
  handle-Entitles k v h =
      let (sec, m, n, q) =
        last_value-In k v (matched s reads cred req w).secrets
          (value_found (handle-env s reads cred req w k)) in
      let (b, e, i) =
        (lookup-secrets_iff (base req.binary) (caller_of s reads cred req w) r sec).0
          (subst (λ m. In sec m.secrets) found-lookup m) in
      (b, sec, e, i, n, q)
    where
      value_found :
          lookup eqb k (handle s reads cred req w).1.env ≡ (
            if (handle s reads cred req w).1.ok
            then last_value k (matched s reads cred req w).secrets
            else none)
          → last_value k (matched s reads cred req w).secrets ≡ some v
      value_found e = ground arith

  -- Where protection is required and a process is let start without it, each binding of the registry
  -- that names its binary, or none, is servable, admits it, and has nothing to give and nothing that
  -- failed to resolve.
  pub handle_unprotected-bindings :
      (b : Binding)
      → s.cfg.require_protection ≡ true
      → (handle s reads cred req w).1.ok ≡ true
      → (handle s reads cred req w).1.protected ≡ false
      → In b r.bindings
      → (b.selector.binary ≡ []) ⊎ (b.selector.binary ≡ base req.binary)
      → Entitles (base req.binary) (caller_of s reads cred req w) r b
        × (b.secrets ≡ [])
        × (b.unresolved ≡ [])
  handle_unprotected-bindings b d o p i n =
      lookup-is_empty (base req.binary) (caller_of s reads cred req w) r b
        (subst (λ m. is_empty_match m ≡ true) found-lookup
          (handle-unprotected s reads cred req w d o p).0)
        i n
