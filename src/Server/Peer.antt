-- ===== src/Server/Peer.antt =====
-- internal/server/peer.go: what procfs says of a caller, and how the log describes it.
use x.Base.{
  ℕ, List, [], ◌∷◌, ◌++◌, Option, none, some, if◌then◌else◌, Bytes, codes, get_elem?, is_empty,
}
use x.Text.{
  after_last, fields, parse_uint, split, cut, trim_space, has_prefix, trim_prefix, decimal,
}
use x.Kube.{Pod, index}
use x.Secrets.{Caller}

abbrev and_then : {A B : Type 0} → Option A → (A → Option B) → Option B
and_then none f = none
and_then (some a) f = f a

-- From what follows the last ')': a space, and the fields from the third on. The start time is field 22.
unfoldable pub after_comm : Bytes → Option ℕ
after_comm [] = none
after_comm (c ∷ []) = none
after_comm (c ∷ d ∷ t) = and_then (get_elem? (fields (d ∷ t)) 19) parse_uint

-- `processStartTime` on the contents of /proc/<pid>/stat, `none` where the read fails.
unfoldable pub process_start_time : Option Bytes → Option ℕ
unfolding after_last after_comm
process_start_time stat = and_then stat λ s. and_then (after_last b')' s) after_comm

-- `processExe`, on what the link /proc/<pid>/exe gives.
unfoldable pub process_exe : Option Bytes → Bytes
process_exe none = codes "unknown"
process_exe (some target) = target

-- The loop of `processCgroup`: the unified entry.
unfoldable pub unified_entry : List Bytes → Option Bytes
unfolding has_prefix trim_prefix
unified_entry [] = none
unified_entry (line ∷ lines) =
    let rest = unified_entry lines in
    if has_prefix (codes "0::") line then some (trim_prefix (codes "0::") line) else rest

abbrev third_part : Option (Bytes × Bytes) → Bytes
third_part none = codes "unknown"
third_part (some (controllers, path)) = path

abbrev after_id : Option (Bytes × Bytes) → Bytes
after_id none = codes "unknown"
after_id (some (id, rest)) = third_part (cut b':' rest)

abbrev entry_path : List Bytes → Bytes
entry_path [] = codes "unknown"
entry_path (first ∷ lines) = after_id (cut b':' first)

abbrev or_first : List Bytes → Option Bytes → Bytes
or_first lines none = entry_path lines
or_first lines (some path) = path

-- `processCgroup`, on the contents of /proc/<pid>/cgroup.
unfoldable pub process_cgroup : Option Bytes → Bytes
unfolding unified_entry split trim_space cut
process_cgroup none = codes "unknown"
process_cgroup (some text) =
    let lines = split b'\n' (trim_space text) in or_first lines (unified_entry lines)

-- `describePeer`.
unfoldable pub describe_peer : (pid uid gid : ℕ) (exe cgroup : Option Bytes) → Bytes
unfolding process_exe process_cgroup decimal
describe_peer pid uid gid exe cgroup =
    codes "pid="
    ++ decimal pid
    ++ codes " uid="
    ++ decimal uid
    ++ codes " gid="
    ++ decimal gid
    ++ codes " exe="
    ++ process_exe exe
    ++ codes " cgroup="
    ++ process_cgroup cgroup

abbrev described_pod : Bytes → Caller → Option Pod → Bytes
described_pod peer c none =
    if is_empty c.pod_uid
    then peer ++ codes " pod=none"
    else peer ++ codes " poduid=" ++ c.pod_uid ++ codes " (not in this node's pod cache)"
described_pod peer c (some p) =
    peer
    ++ codes " pod="
    ++ p.namespace
    ++ codes "/"
    ++ p.name
    ++ codes " poduid="
    ++ c.pod_uid
    ++ codes " container="
    ++ index p.containers c.container_id

-- `describeCaller`.
unfoldable pub describe_caller : Bytes → Caller → Bytes
unfolding index
describe_caller peer c = described_pod peer c c.pod
