-- ===== src/Types/Wire.antt =====
-- The packed layout that the agent reads is inverse to the layout that the BPF side writes.
use native.Mathlib.Nat.{pow-suc}
use x.Base.{ℕ, zero, suc, ◌/◌, ◌%◌, ◌^◌, ◌<◌, ◌≡◌, refl, some, [], ◌∷◌, ◌++◌, arith, Bytes, length}
use x.Types.{read_number, read_field, ExecEvent, read_exec_event, LsmEvent, read_lsm_event}

-- `v` in `n` bytes, the least first, as a little-endian machine stores it.
unfoldable pub write_number : ℕ → ℕ → Bytes
write_number zero v = []
write_number (suc n) v = v % 256 ∷ write_number n (v / 256)

pub read_number-write_number :
    (n v : ℕ) (rest : Bytes)
    → v < 256 ^ n
    → read_number n (write_number n v ++ rest) ≡ some (v, rest)
unfolding read_number write_number
read_number-write_number zero v rest h = ground arith
read_number-write_number (suc n) v rest h =
    ground (arith, read_number-write_number n (v / 256) rest (omega (arith, pow-suc 256 n)))

pub read_field-append :
    (n : ℕ) (s rest : Bytes) → length s ≡ n → read_field n (s ++ rest) ≡ some (s, rest)
unfolding read_field
read_field-append zero [] rest h = refl
read_field-append zero (c ∷ s) rest h = absurd (omega arith)
read_field-append (suc n) [] rest h = absurd (omega arith)
read_field-append (suc n) (c ∷ s) rest h = ground (arith, read_field-append n s rest (omega arith))

-- struct ks_exec_event as the kernel lays it out.
unfoldable pub write_exec_event : ExecEvent → Bytes → Bytes
write_exec_event e rest =
    write_number 8 e.timestamp
    ++ (write_number 4 e.pid
        ++ (write_number 4 e.tid
            ++ (write_number 4 e.ppid
                ++ (write_number 4 e.uid
                    ++ (write_number 4 e.gid
                        ++ (write_number 4 e.pad0
                            ++ (write_number 8 e.cgroup_id
                                ++ (write_number 1 e.event_type
                                    ++ (e.pad1 ++ (e.comm ++ (e.filename ++ rest)))))))))))

-- Each field fits the width that the layout gives it.
pub record FitsExec (e : ExecEvent) : Type 0 where
  pub timestamp : e.timestamp < 256 ^ 8
  pub pid : e.pid < 256 ^ 4
  pub tid : e.tid < 256 ^ 4
  pub ppid : e.ppid < 256 ^ 4
  pub uid : e.uid < 256 ^ 4
  pub gid : e.gid < 256 ^ 4
  pub pad0 : e.pad0 < 256 ^ 4
  pub cgroup_id : e.cgroup_id < 256 ^ 8
  pub event_type : e.event_type < 256 ^ 1
  pub pad1 : length e.pad1 ≡ 3
  pub comm : length e.comm ≡ 16
  pub filename : length e.filename ≡ 256

-- An exec event whose fields fit their widths is read back as it was written, whatever follows it
-- in the sample.
pub read_exec_event-write_exec_event :
    (e : ExecEvent) (rest : Bytes) → FitsExec e → read_exec_event (write_exec_event e rest) ≡ some e
unfolding read_exec_event write_exec_event
read_exec_event-write_exec_event e rest f = rw (
  read_number-write_number 8 e.timestamp _ f.timestamp,
  read_number-write_number 4 e.pid _ f.pid,
  read_number-write_number 4 e.tid _ f.tid,
  read_number-write_number 4 e.ppid _ f.ppid,
  read_number-write_number 4 e.uid _ f.uid,
  read_number-write_number 4 e.gid _ f.gid,
  read_number-write_number 4 e.pad0 _ f.pad0,
  read_number-write_number 8 e.cgroup_id _ f.cgroup_id,
  read_number-write_number 1 e.event_type _ f.event_type,
  read_field-append 3 e.pad1 _ f.pad1,
  read_field-append 16 e.comm _ f.comm,
  read_field-append 256 e.filename _ f.filename,
)

-- struct ks_lsm_event; the reserved bytes are `padding`.
unfoldable pub write_lsm_event : LsmEvent → Bytes → Bytes → Bytes
write_lsm_event e padding rest =
    write_number 8 e.timestamp
    ++ (write_number 4 e.pid
        ++ (write_number 4 e.tid
            ++ (write_number 4 e.uid
                ++ (write_number 4 e.target_pid
                    ++ (write_number 1 e.event_type
                        ++ (write_number 1 e.access_type
                            ++ (padding ++ (e.comm ++ (e.path ++ rest)))))))))

pub record FitsLsm (e : LsmEvent) : Type 0 where
  pub timestamp : e.timestamp < 256 ^ 8
  pub pid : e.pid < 256 ^ 4
  pub tid : e.tid < 256 ^ 4
  pub uid : e.uid < 256 ^ 4
  pub target_pid : e.target_pid < 256 ^ 4
  pub event_type : e.event_type < 256 ^ 1
  pub access_type : e.access_type < 256 ^ 1
  pub comm : length e.comm ≡ 16
  pub path : length e.path ≡ 256

-- An LSM event whose fields fit their widths is read back as it was written, whatever its two
-- reserved bytes hold and whatever follows it in the sample.
pub read_lsm_event-write_lsm_event :
    (e : LsmEvent) (padding rest : Bytes)
    → FitsLsm e
    → length padding ≡ 2
    → read_lsm_event (write_lsm_event e padding rest) ≡ some e
unfolding read_lsm_event write_lsm_event
read_lsm_event-write_lsm_event e padding rest f p = rw (
  read_number-write_number 8 e.timestamp _ f.timestamp,
  read_number-write_number 4 e.pid _ f.pid,
  read_number-write_number 4 e.tid _ f.tid,
  read_number-write_number 4 e.uid _ f.uid,
  read_number-write_number 4 e.target_pid _ f.target_pid,
  read_number-write_number 1 e.event_type _ f.event_type,
  read_number-write_number 1 e.access_type _ f.access_type,
  read_field-append 2 padding _ p,
  read_field-append 16 e.comm _ f.comm,
  read_field-append 256 e.path _ f.path,
)
