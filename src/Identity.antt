-- ===== src/Identity.antt =====
-- internal/identity/identity.go: from a PID to the caller that bindings are matched against.
pub mod Attribution
use x.Base.{
  ℕ, Bool, true, false, not, ◌&&◌, ◌||◌, List, [], ◌∷◌, Option, none, some, if◌then◌else◌, Bytes,
}
use x.Kube.{Pod}
use x.Secrets.{Caller}
use x.Cgroup.{Identity, CgroupError, unreadable, no_membership, no_id, CgroupFiles, resolve, is_pod}

-- The interface `PodLookup`.
pub record PodLookup : Type 0 where
  pub lookup : Bytes → Option Pod
  pub has_synced : Bool

pub data IdentityError : Type 0 where
  cgroup_unresolved cache_not_synced pod_not_cached : IdentityError

-- The caller with what its cgroup says.
unfoldable pub caller_of_cgroup : Identity → Caller
caller_of_cgroup i = record {
  cgroup_path = i.path;
  cgroup_id = i.id;
  cgroup_path_relative = i.relative;
  pod_uid = i.pod_uid;
  container_id = i.container_id;
  pod = none;
}

-- `err != nil && !errors.Is(err, cgroup.ErrNoID)`.
abbrev pub blocks : Option CgroupError → Bool
blocks none = false
blocks (some no_id) = false
blocks (some unreadable) = true
blocks (some no_membership) = true

unfoldable pub attribute : Option PodLookup → Identity → Caller × Option IdentityError
unfolding caller_of_cgroup
attribute none i = (caller_of_cgroup i, none)
attribute (some pods) i =
    if not (is_pod i)
    then (caller_of_cgroup i, none)
    else if not pods.has_synced
    then (caller_of_cgroup i, some cache_not_synced)
    else elim (pods.lookup i.pod_uid) [
      | none ↦ (caller_of_cgroup i, some pod_not_cached)
      | some p ↦ (record (caller_of_cgroup i) { pod = some p }, none)
    ]

-- `Resolver.Identify`; `pods` may be nil.
unfoldable pub identify : CgroupFiles → Option PodLookup → ℕ → Caller × Option IdentityError
unfolding attribute
identify files pods pid =
    let (i, err) = resolve files pid in
    if blocks err then (caller_of_cgroup i, some cgroup_unresolved) else attribute pods i
