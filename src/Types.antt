-- ===== src/Types.antt =====
-- internal/types/events.go: the types that the agent shares with the BPF programs.
pub mod Strings
pub mod Wire
use x.Base.{
  ℕ, zero, suc, ◌+◌, ◌*◌, ◌/◌, ◌%◌, ◌^◌, List, [], ◌∷◌, ◌++◌, Option, none, some, ◌==◌,
  if◌then◌else◌, Bytes, codes,
}

-- `EventType`, a byte of which four values are named.
abbrev pub event_exec : ℕ
event_exec = 1

abbrev pub event_exit : ℕ
event_exit = 2

abbrev pub event_blocked : ℕ
event_blocked = 3

abbrev pub event_audit : ℕ
event_audit = 4

-- `EventType.String`.
unfoldable pub event_name : ℕ → Bytes
event_name e =
    if e == event_exec
    then codes "EXEC"
    else if e == event_exit
    then codes "EXIT"
    else if e == event_blocked
    then codes "BLOCKED"
    else if e == event_audit
    then codes "AUDIT"
    else codes "UNKNOWN"

-- `AccessType.String`.
unfoldable pub access_name : ℕ → Bytes
access_name a =
    if a == 0
    then codes "environ"
    else if a == 1
    then codes "mem"
    else if a == 2
    then codes "maps"
    else if a == 3
    then codes "ptrace"
    else codes "unknown"

-- `EnforceMode`, a byte of which three values are named.
abbrev pub mode_disabled : ℕ
mode_disabled = 0

abbrev pub mode_audit : ℕ
mode_audit = 1

abbrev pub mode_enforce : ℕ
mode_enforce = 2

-- `EnforceMode.String`.
unfoldable pub mode_name : ℕ → Bytes
mode_name m =
    if m == mode_disabled
    then codes "disabled"
    else if m == mode_audit
    then codes "audit"
    else if m == mode_enforce
    then codes "enforce"
    else codes "unknown"

-- `PolicyConfig`; every field is a byte.
pub record PolicyConfig : Type 0 where
  pub enforce_mode : ℕ
  pub block_environ : ℕ
  pub block_mem : ℕ
  pub block_maps : ℕ
  pub block_ptrace : ℕ
  pub allow_self_read : ℕ
  pub audit_all : ℕ
  pub reserved : ℕ

-- `NewDefaultPolicy`.
unfoldable pub new_default_policy : PolicyConfig
new_default_policy = record {
  enforce_mode = mode_enforce;
  block_environ = 1;
  block_mem = 1;
  block_maps = 0;
  block_ptrace = 1;
  allow_self_read = 1;
  audit_all = 0;
  reserved = 0;
}

-- `cStringToGo`: the bytes before the first NUL.
unfoldable pub c_string_to_go : Bytes → Bytes
c_string_to_go [] = []
c_string_to_go (c ∷ s) = if c == 0 then [] else c ∷ c_string_to_go s

-- `ExecEvent`.
pub record ExecEvent : Type 0 where
  pub timestamp : ℕ
  pub pid : ℕ
  pub tid : ℕ
  pub ppid : ℕ
  pub uid : ℕ
  pub gid : ℕ
  pub pad0 : ℕ
  pub cgroup_id : ℕ
  pub event_type : ℕ
  pub pad1 : Bytes
  pub comm : Bytes
  pub filename : Bytes

-- `LSMEvent`; its unnamed padding is skipped.
pub record LsmEvent : Type 0 where
  pub timestamp : ℕ
  pub pid : ℕ
  pub tid : ℕ
  pub uid : ℕ
  pub target_pid : ℕ
  pub event_type : ℕ
  pub access_type : ℕ
  pub comm : Bytes
  pub path : Bytes

-- `ExecEvent.GetComm`, `ExecEvent.GetFilename`, `LSMEvent.GetComm`, `LSMEvent.GetPath`.
unfoldable pub exec_comm : ExecEvent → Bytes
unfolding c_string_to_go
exec_comm e = c_string_to_go e.comm

unfoldable pub exec_filename : ExecEvent → Bytes
unfolding c_string_to_go
exec_filename e = c_string_to_go e.filename

unfoldable pub lsm_comm : LsmEvent → Bytes
unfolding c_string_to_go
lsm_comm e = c_string_to_go e.comm

unfoldable pub lsm_path : LsmEvent → Bytes
unfolding c_string_to_go
lsm_path e = c_string_to_go e.path

-- `binary.Read` in little-endian order: a number of `n` bytes, a field of `n` bytes.
abbrev after_byte : ℕ → Option (ℕ × Bytes) → Option (ℕ × Bytes)
after_byte b none = none
after_byte b (some (v, rest)) = some (b + 256 * v, rest)

unfoldable pub read_number : ℕ → Bytes → Option (ℕ × Bytes)
read_number zero s = some (0, s)
read_number (suc n) [] = none
read_number (suc n) (b ∷ s) = after_byte b (read_number n s)

abbrev after_first : ℕ → Option (Bytes × Bytes) → Option (Bytes × Bytes)
after_first b none = none
after_first b (some (v, rest)) = some (b ∷ v, rest)

unfoldable pub read_field : ℕ → Bytes → Option (Bytes × Bytes)
read_field zero s = some ([], s)
read_field (suc n) [] = none
read_field (suc n) (b ∷ s) = after_first b (read_field n s)

infixl 5 ◌>>=◌
abbrev pub ◌>>=◌ : {A B : Type 0} → Option A → (A → Option B) → Option B
none >>= f = none
some a >>= f = f a

-- `binary.Read` of an `ExecEvent`; what follows it in the sample is left over.
unfoldable pub read_exec_event : Bytes → Option ExecEvent
read_exec_event s0 = do
  (timestamp, s1) ← read_number 8 s0
  (pid, s2) ← read_number 4 s1
  (tid, s3) ← read_number 4 s2
  (ppid, s4) ← read_number 4 s3
  (uid, s5) ← read_number 4 s4
  (gid, s6) ← read_number 4 s5
  (pad0, s7) ← read_number 4 s6
  (cgroup_id, s8) ← read_number 8 s7
  (event_type, s9) ← read_number 1 s8
  (pad1, s10) ← read_field 3 s9
  (comm, s11) ← read_field 16 s10
  (filename, s12) ← read_field 256 s11
  some (record {
    timestamp = timestamp;
    pid = pid;
    tid = tid;
    ppid = ppid;
    uid = uid;
    gid = gid;
    pad0 = pad0;
    cgroup_id = cgroup_id;
    event_type = event_type;
    pad1 = pad1;
    comm = comm;
    filename = filename;
  })

-- `binary.Read` of an `LSMEvent`.
unfoldable pub read_lsm_event : Bytes → Option LsmEvent
read_lsm_event s0 = do
  (timestamp, s1) ← read_number 8 s0
  (pid, s2) ← read_number 4 s1
  (tid, s3) ← read_number 4 s2
  (uid, s4) ← read_number 4 s3
  (target_pid, s5) ← read_number 4 s4
  (event_type, s6) ← read_number 1 s5
  (access_type, s7) ← read_number 1 s6
  (padding, s8) ← read_field 2 s7
  (comm, s9) ← read_field 16 s8
  (path, s10) ← read_field 256 s9
  some (record {
    timestamp = timestamp;
    pid = pid;
    tid = tid;
    uid = uid;
    target_pid = target_pid;
    event_type = event_type;
    access_type = access_type;
    comm = comm;
    path = path;
  })
