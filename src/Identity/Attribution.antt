-- ===== src/Identity/Attribution.antt =====
-- A caller carries a pod only on the word of the kernel and of a warm pod cache.
use x.Base.{
  ℕ, ◌≡◌, ◌≢◌, refl, ap, ◌∙◌, ◌⊎◌, inl, inr, true, not, [], Option, none, some, arith, Bool-cases,
  Bytes, is_empty-false, subst,
}
use x.Kube.{Pod}
use x.Secrets.{Caller}
use x.Cgroup.{
  Identity, CgroupError, CgroupFiles, PathFound, path, failed, path_for, parse_pod, is_relative,
  resolve, is_pod,
}
use x.Identity.{PodLookup, blocks, attribute, identify}

-- The pod is what a synced cache has under a UID that is not empty.
pub record IsAttributed (pods : Option PodLookup) (uid : Bytes) (p : Pod) : Type 0 where
  pub cache : PodLookup
  pub configured : pods ≡ some cache
  pub synced : cache.has_synced ≡ true
  pub named : uid ≢ []
  pub cached : cache.lookup uid ≡ some p

attribute-pod :
    (pods : Option PodLookup) (i : Identity) (p : Pod)
    → (attribute pods i).0.pod ≡ some p
    → IsAttributed pods i.pod_uid p × ((attribute pods i).1 ≡ none)
unfolding attribute
attribute-pod none i p h = absurd (cc)
attribute-pod (some c) i p h = (
  record {
    cache = c;
    configured = refl;
    synced = ground arith;
    named = (is_empty-false i.pod_uid).0 (ground arith);
    cached = ground arith;
  },
  ground arith,
)

record Keeps (i : Identity) (c : Caller) : Type 0 where
  cgroup_path : c.cgroup_path ≡ i.path
  container_id : c.container_id ≡ i.container_id
  relative : c.cgroup_path_relative ≡ i.relative

attribute-Keeps : (pods : Option PodLookup) (i : Identity) → Keeps i (attribute pods i).0
unfolding attribute
attribute-Keeps none i = record { cgroup_path = refl; container_id = refl; relative = refl }
attribute-Keeps (some c) i = record {
  cgroup_path = ground arith;
  container_id = ground arith;
  relative = ground arith;
}

PathFound-cases :
    (f : PathFound) → ((e : CgroupError) × (f ≡ failed e)) ⊎ ((q : Bytes) × (f ≡ path q))
PathFound-cases (failed e) = inl (e, refl)
PathFound-cases (path q) = inr (q, refl)

-- What a resolution that is not blocked says.
record Resolves (files : CgroupFiles) (pid : ℕ) (i : Identity) : Type 0 where
  place : Bytes
  found : path_for (files.membership pid) ≡ path place
  path : i.path ≡ place
  pod_uid : i.pod_uid ≡ (parse_pod place).0
  container_id : i.container_id ≡ (parse_pod place).1
  relative : i.relative ≡ is_relative place

resolve-Resolves :
    (files : CgroupFiles) (pid : ℕ)
    → is_pod (resolve files pid).0 ≡ true
    → Resolves files pid (resolve files pid).0
unfolding resolve
resolve-Resolves files pid h = elim (PathFound-cases (path_for (files.membership pid))) [
  | inl (e, q) ↦ absurd (no_pod e q)
  | inr (q, e) ↦ record {
    place = q;
    found = e;
    path = ground arith;
    pod_uid = ground arith;
    container_id = ground arith;
    relative = ground arith;
  }
]
  where
    no_pod : (e : CgroupError) → path_for (files.membership pid) ≡ failed e → ⊥
    no_pod e q = ground arith

-- Where the pod of a caller comes from.
pub record IsKnown (files : CgroupFiles) (pods : Option PodLookup) (pid : ℕ) (c : Caller) (p : Pod)
    : Type 0 where
  pub place : Bytes
  pub found : path_for (files.membership pid) ≡ path place
  pub attributed : IsAttributed pods (parse_pod place).0 p
  pub cgroup_path : c.cgroup_path ≡ place
  pub container_id : c.container_id ≡ (parse_pod place).1
  pub relative : c.cgroup_path_relative ≡ is_relative place

-- A caller that is given a pod has it from a synced cache, under the UID that is parsed out of the
-- cgroup path that the kernel reports for its PID, and is given it with no error; its container is
-- the one in that path.
pub identify-IsKnown :
    (files : CgroupFiles) (pods : Option PodLookup) (pid : ℕ) (p : Pod)
    → (identify files pods pid).0.pod ≡ some p
    → IsKnown files pods pid (identify files pods pid).0 p × ((identify files pods pid).1 ≡ none)
unfolding identify
identify-IsKnown files pods pid p h = elim (Bool-cases (blocks (resolve files pid).1)) [
  | inl b ↦ absurd (no_pod b)
  | inr b ↦
      let (a, e) = attribute-pod pods (resolve files pid).0 p (rw b at h) in
      let k = attribute-Keeps pods (resolve files pid).0 in
      let r = resolve-Resolves files pid (has_pod a.named) in
      rw b (
        record {
          place = r.place;
          found = r.found;
          attributed = subst (λ uid. IsAttributed pods uid p) r.pod_uid a;
          cgroup_path = k.cgroup_path ∙ r.path;
          container_id = k.container_id ∙ r.container_id;
          relative = k.relative ∙ r.relative;
        },
        e,
      )
]
  where
    no_pod : blocks (resolve files pid).1 ≡ true → ⊥
    no_pod b = ground arith

    has_pod : (resolve files pid).0.pod_uid ≢ [] → is_pod (resolve files pid).0 ≡ true
    has_pod n = ap not ((is_empty-false (resolve files pid).0.pod_uid).1 n)
