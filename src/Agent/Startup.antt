-- ===== src/Agent/Startup.antt =====
-- What `startIdentity` promises: in required mode the agent runs only with a pod cache.
use x.Base.{
  ◌≡◌, ◌≢◌, refl, Bool, true, false, List, [], ◌∷◌, if◌then◌else◌, is_empty, Option, none, some,
  arith, Bytes,
}
use x.Policy.Config.{PodIdentityMode, preferred, required, disabled}
use x.Kube.Watch.{PodObject, Watcher, ListReply, list_failed, listed, start, list, lookup_pod}
use x.Kube.Cache.{item_with, lookup_pod-list, lookup_empty-list}
use x.Agent.{Started, fatal, no_identifier, by_cgroup, by_pods, start_identity}

-- The cache was filled by a list that succeeded.
abbrev pub IsFilled : ListReply → Watcher → Type 0
IsFilled reply w =
    (v : Bytes) × (items : List PodObject) × (reply ≡ listed v items)
    × (w.synced ≡ true)
    × ((uid : Bytes) → lookup_pod w uid ≡ (if is_empty uid then none else item_with uid items))

-- What each mode may come to.
abbrev pub IsAllowed : PodIdentityMode → ListReply → Started → Type 0
IsAllowed mode reply fatal = mode ≡ required
IsAllowed mode reply no_identifier = mode ≡ disabled
IsAllowed mode reply by_cgroup = mode ≡ preferred
IsAllowed mode reply (by_pods w) = (mode ≢ disabled) × IsFilled reply w

start-IsFilled :
    (v : Bytes) (items : List PodObject) (w : Watcher)
    → IsFilled (listed v items) (start (listed v items) w).0
unfolding start list lookup_pod
start-IsFilled v items w = (v, items, refl, refl, found)
  where
    found :
        (uid : Bytes)
        → lookup_pod (start (listed v items) w).0 uid
          ≡ (if is_empty uid then none else item_with uid items)
    found [] = lookup_empty-list v items w
    found (c ∷ uid) = lookup_pod-list (c ∷ uid) v items w (λ h. cc)

-- Only the required mode ends the agent, only the disabled mode leaves callers unidentified, only
-- the preferred mode goes on without pods, and a pod cache that is used holds exactly what a list
-- that succeeded gave.
pub start_identity-IsAllowed :
    (mode : PodIdentityMode) (in_cluster : Bool) (created : Option Watcher) (reply : ListReply)
    → IsAllowed mode reply (start_identity mode in_cluster created reply)
unfolding start_identity
start_identity-IsAllowed disabled c w r = refl
start_identity-IsAllowed preferred false w r = refl
start_identity-IsAllowed preferred true none r = refl
start_identity-IsAllowed preferred true (some w) (list_failed e) = refl
start_identity-IsAllowed preferred true (some w) (listed v items) =
    ((λ h. ground arith), start-IsFilled v items w)
start_identity-IsAllowed required false w r = refl
start_identity-IsAllowed required true none r = refl
start_identity-IsAllowed required true (some w) (list_failed e) = refl
start_identity-IsAllowed required true (some w) (listed v items) =
    ((λ h. ground arith), start-IsFilled v items w)
