-- ===== src/Agent/Required.antt =====
-- The agent as `main` puts it together, with `podIdentity: required`.
use x.Base.{
  ℕ, ◌≡◌, refl, true, Option, none, some, arith, if◌then◌else◌, Bytes, lookup, eqb, In, is_some,
}
use x.Text.{base}
use x.Types.{PolicyConfig}
use x.Metrics.{Collector}
use x.Bpf.Maps.{Ebpf}
use x.Bpf.Manager.{BpfError, Manager}
use x.Policy.Config.{required}
use x.Kube.{Pod}
use x.Kube.Watch.{Watcher}
use x.Cgroup.{CgroupFiles}
use x.Identity.{PodLookup}
use x.Identity
use x.Identity.Attribution.{IsKnown, identify-IsKnown}
use x.Secrets.{Secret, Binding, Registry, Caller}
use x.Secrets
use x.Secrets.Matching.{Entitles}
use x.Server.Handle.{Ucred, Request, Server, World, StatReads, handle, identify}
use x.Server.Cases.{caller_of, matched}
use x.Server.Delivery.{last_value, handle-env, handle-IsIdentified}
use x.Server.Release.{handle-Entitles}
use x.Agent.{Started, fatal, no_identifier, by_cgroup, by_pods, pods_of, secret_server}

some_pod : (o : Option Pod) → is_some o ≡ true → (p : Pod) × (o ≡ some p)
some_pod none h = absurd (cc)
some_pod (some p) h = (p, refl)

no_pods :
    (files : CgroupFiles) (pid : ℕ)
    → (p : Pod) → (Identity.identify files none pid).0.pod ≡ some p
    → ⊥
no_pods files pid p h = go (identify-IsKnown files none pid p h).0.attributed.configured
  where
    go : {c : PodLookup} → none ≡ some c → ⊥
    go q = cc

module _ (e : Ebpf) (S V : Type 0) (policy : PolicyConfig) (registry : Registry)
    (files : CgroupFiles) (w : Watcher) (reads : StatReads) (cred : Ucred) (req : Request) where
  abbrev agent : Started → Server (Manager e) BpfError (Collector S V)
  agent started = secret_server e required policy registry files started w

  identified :
      (started : Started) (p : Pod)
      → (identify (agent started) cred.pid).0.pod ≡ some p
      → IsKnown files (some (pods_of w)) cred.pid (identify (agent started) cred.pid).0 p
  unfolding secret_server identify
  identified fatal p h = absurd (cc)
  identified no_identifier p h = absurd (cc)
  identified by_cgroup p h = absurd (no_pods files cred.pid p h)
  identified (by_pods w₀) p h = (identify-IsKnown files (some (pods_of w)) cred.pid p h).0

  demands : (started : Started) → (agent started).cfg.require_pod_identity ≡ true
  unfolding secret_server
  demands started = refl

  served :
      (s : Server (Manager e) BpfError (Collector S V)) (world : World (Manager e) (Collector S V))
      (k v : Bytes)
      → lookup eqb k (handle s reads cred req world).1.env ≡ some v
      → (handle s reads cred req world).1.ok ≡ true
  served s world k v h = by_env (handle-env s reads cred req world k)
    where
      by_env :
          lookup eqb k (handle s reads cred req world).1.env ≡ (
            if (handle s reads cred req world).1.ok
            then last_value k (matched s reads cred req world).secrets
            else none)
          → (handle s reads cred req world).1.ok ≡ true
      by_env q = ground arith

  resolver-lookup :
      (started : Started) (binary : Bytes) (c : Caller)
      → (agent started).resolver binary c ≡ Secrets.lookup registry binary c
  unfolding secret_server
  resolver-lookup started binary c = refl

  -- Whatever the start-up came to: a value that the agent sends in required mode goes to a process
  -- that the kernel places in a pod of the node's synced cache, and comes from a servable binding that
  -- names its binary, or none, and whose selector admits that pod and container.
  pub handle-IsKnown :
      (started : Started) (world : World (Manager e) (Collector S V)) (k v : Bytes)
      → lookup eqb k (handle (agent started) reads cred req world).1.env ≡ some v
      → (p : Pod) × (b : Binding) × (sec : Secret) × ((caller_of
            (agent started)
            reads
            cred
            req
            world).pod
          ≡ some p)
        × IsKnown files
            (some (pods_of w))
            cred.pid
            (caller_of (agent started) reads cred req world)
            p
        × Entitles (base req.binary) (caller_of (agent started) reads cred req world) registry b
        × In sec b.secrets
        × (sec.name ≡ k)
        × (sec.value ≡ v)
  handle-IsKnown started world k v h =
      let ok = served (agent started) world k v h in
      let i = handle-IsIdentified (agent started) reads cred req world ok in
      let (p, q) =
        some_pod (caller_of (agent started) reads cred req world).pod
          (i.in_pod (demands started)) in
      let (b, sec, en, m, n, u) =
        handle-Entitles (agent started) registry (resolver-lookup started) reads cred req world k v
          h in
      (p, b, sec, q, identified started p q, en, m, n, u)
