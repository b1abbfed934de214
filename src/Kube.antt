-- ===== src/Kube.antt =====
-- internal/kube/pods.go: the pods of a node. Watch follows the API server, Cache and Backoff are about it.
pub mod Watch
pub mod Cache
pub mod Backoff
pub mod Url
pub mod Escape
pub mod Query
pub mod Selection
pub mod Client
pub mod Requests
pub mod Keys
pub mod Pace
pub mod Stopping
use x.Base.{[], Option, none, some, Bytes, Assoc, eqb, lookup}

pub record Pod : Type 0 where
  pub uid : Bytes
  pub name : Bytes
  pub namespace : Bytes
  pub labels : Assoc Bytes Bytes
  pub containers : Assoc Bytes Bytes

-- `m[k]` on a map of strings: the empty string where the key is missing.
abbrev pub value_or_empty : Option Bytes → Bytes
value_or_empty none = []
value_or_empty (some v) = v

unfoldable pub index : Assoc Bytes Bytes → Bytes → Bytes
unfolding lookup
index m k = value_or_empty (lookup eqb k m)
