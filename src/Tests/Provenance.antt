-- ===== src/Tests/Provenance.antt =====
-- The shim against the agent's server: no agent in the first round, an answer in each later one.
use x.Base.{
  ℕ, zero, suc, ◌≡◌, refl, ap, ◌⊎◌, true, false, List, [], ◌∷◌, ◌++◌, Option, some, arith,
  Bool-cases, inl, inr, All, Bytes, codes, eqb, lookup, if◌then◌else◌,
}
use x.Text.{cut}
use x.Server.Handle.{Response, handle}
use x.Shim.{
  Attempt, unreachable, answered, Fetched, response, failed, refused_by_agent, Round, fetch_secrets,
  fetch_from, request_once, Flags, main, finish, execs, merge_env, keep_base, render,
  parse_on_error,
}
use x.Shim.Env.{getenv}
use x.Shim.Provenance.{IsNamed, Sent, main-IsSent}
use x.Tests.Scene.{server, registry, by_registry, reads, cred, world, run}

abbrev reply : Bytes → Response
reply path = (handle server reads cred (record { binary = path }) world).1

abbrev attempt_of : Response → ℕ → Attempt
attempt_of r zero = unreachable
attempt_of r (suc i) = answered r

abbrev rounds_of : Response → ℕ → Round
rounds_of r i = record { late = 1; took = 2; attempt = attempt_of r i }

abbrev outcome : Response → Fetched
outcome r = if r.ok then response r else failed (refused_by_agent r.error)

read : (r s : Response) (i : ℕ) → attempt_of r i ≡ answered s → s ≡ r
read r s zero h = cc
read r s (suc i) h = cc

fetched : (r : Response) → fetch_secrets (rounds_of r) 10 5 ≡ some (outcome r)
unfolding fetch_secrets fetch_from request_once
fetched r = elim (Bool-cases r.ok) [ inl e ↦ rw e refl | inr e ↦ rw e refl ]

abbrev flags : Flags
flags = record {
  show_version = false;
  on_error = codes "fail";
  argv = codes "app" ∷ codes "-v" ∷ [];
}

abbrev look_path : Bytes → Option Bytes
look_path name = some (codes "/bin/" ++ name)

abbrev environ : List Bytes
environ = codes "HOME=/root" ∷ codes "DB=old" ∷ []

started :
    main flags look_path (λ path. outcome (reply path)) environ
    ≡ execs (codes "/bin/app") flags.argv (codes "HOME=/root" ∷ codes "DB=hunter2" ∷ [])
unfolding main finish parse_on_error merge_env keep_base render lookup eqb cut
started = ap (λ r. finish true (outcome r) (codes "/bin/app") flags.argv environ) run

names : All (λ b. All IsNamed b.secrets) registry.bindings
names = (((omega arith, (omega arith, tt)), tt), tt)

get : getenv (codes "DB") (codes "HOME=/root" ∷ codes "DB=hunter2" ∷ []) ≡ some (codes "hunter2")
unfolding getenv cut eqb
get = refl

main-IsSent_example :
    (getenv (codes "DB") environ ≡ some (codes "hunter2"))
    ⊎ Sent server registry by_registry names
        (λ path. rounds_of (reply path))
        10
        5
        (omega arith)
        (λ i. reads)
        (λ i. cred)
        (λ i. world)
        (λ path i r. read (reply path) r i)
        (λ path. outcome (reply path))
        (λ path. fetched (reply path))
        (codes "/bin/app")
        (codes "DB")
        (codes "hunter2")
main-IsSent_example =
    main-IsSent server registry by_registry names (λ path. rounds_of (reply path)) 10 5
      (omega arith) (λ i. reads) (λ i. cred) (λ i. world) (λ path i r. read (reply path) r i)
      (λ path. outcome (reply path)) (λ path. fetched (reply path)) flags look_path environ
      (codes "/bin/app") flags.argv (codes "HOME=/root" ∷ codes "DB=hunter2" ∷ []) (codes "DB")
      (codes "hunter2") started get
