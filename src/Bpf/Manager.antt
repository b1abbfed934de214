-- ===== src/Bpf/Manager.antt =====
-- `Manager` and its operations on the maps. A method gives the manager and its error, `none` for nil.
use x.Base.{
  ℕ, zero, suc, ◌-◌, Bool, List, [], ◌∷◌, ◌++◌, Option, none, some, if◌then◌else◌, Bytes, take,
  length, is_some,
}
use x.Types.{PolicyConfig}
use x.Bpf.Maps.{MapOps, Ebpf, deleted, missing, failed}

pub data BpfError : Type 0 where
  lsm_unavailable lsm_not_loaded exec_monitor_not_loaded map_failed : BpfError

-- A map is `none` while its object is not loaded.
pub record Manager (e : Ebpf) : Type 0 where
  pub ks_allowed_pids : Option e.numbers.Map
  pub protected_pids : Option e.numbers.Map
  pub policy_config : Option e.policies.Map
  pub seen_pids : Option e.numbers.Map
  pub target_cgroups : Option e.numbers.Map
  pub cgroup_filter_enabled : Option e.numbers.Map
  pub target_binaries : Option e.names.Map
  pub binary_filter_enabled : Option e.numbers.Map

-- A byte string as a key of 16 bytes: `copy` into a zeroed array.
abbrev pub zeros : ℕ → Bytes
zeros = elim [ zero ↦ [] | suc (n → ih) ↦ 0 ∷ ih ]

unfoldable pub binary_key : Bytes → Bytes
binary_key name = take 16 name ++ zeros (16 - length name)

module _ (e : Ebpf) where
  abbrev N : Type 0
  N = e.numbers.Map

  -- `NewManager`.
  unfoldable pub new_manager : Manager e
  new_manager = record {
    ks_allowed_pids = none;
    protected_pids = none;
    policy_config = none;
    seen_pids = none;
    target_cgroups = none;
    cgroup_filter_enabled = none;
    target_binaries = none;
    binary_filter_enabled = none;
  }

  -- A `Put` whose error is reported: the map after it and whether it succeeded.
  abbrev put_or_fail :
      {K V : Type 0} (ops : MapOps K V) → ops.Map → K → V → ops.Map × Option BpfError
  put_or_fail ops m k v = elim (ops.put m k v) [
    | some m' ↦ (m', none)
    | none ↦ (m, some map_failed)
  ]

  -- `Manager.ConfigurePolicy`.
  unfoldable pub configure_policy : Manager e → PolicyConfig → Manager e × Option BpfError
  configure_policy m policy = elim m.policy_config [
    | none ↦ (m, some lsm_not_loaded)
    | some p ↦
        let (p', err) = put_or_fail e.policies p 0 policy in
        (record m { policy_config = some p' }, err)
  ]

  -- `Manager.AllowPID`.
  unfoldable pub allow_pid : Manager e → ℕ → Manager e × Option BpfError
  allow_pid m pid = elim m.ks_allowed_pids [
    | none ↦ (m, none)
    | some p ↦
        let (p', err) = put_or_fail e.numbers p pid 1 in
        (record m { ks_allowed_pids = some p' }, err)
  ]

  -- `Manager.IsLSMLoaded`.
  unfoldable pub is_lsm_loaded : Manager e → Bool
  is_lsm_loaded m = is_some m.protected_pids

  -- `Manager.ProtectPID`.
  unfoldable pub protect_pid : Manager e → ℕ → Manager e × Option BpfError
  protect_pid m pid = elim m.protected_pids [
    | none ↦ (m, some lsm_unavailable)
    | some p ↦
        let (p', err) = put_or_fail e.numbers p pid 1 in
        (record m { protected_pids = some p' }, err)
  ]

  -- `Manager.UnprotectPID`: a PID that was never protected is no error.
  unfoldable pub unprotect_pid : Manager e → ℕ → Manager e × Option BpfError
  unprotect_pid m pid = elim m.protected_pids [
    | none ↦ (m, none)
    | some p ↦ elim (e.numbers.delete p pid) [
      | deleted p' ↦ (record m { protected_pids = some p' }, none)
      | missing ↦ (m, none)
      | failed ↦ (m, some map_failed)
    ]
  ]

  -- `Manager.TrackPID`.
  unfoldable pub track_pid : Manager e → ℕ → Manager e × Option BpfError
  track_pid m pid = elim m.seen_pids [
    | none ↦ (m, some exec_monitor_not_loaded)
    | some p ↦
        let (p', err) = put_or_fail e.numbers p pid 0 in (record m { seen_pids = some p' }, err)
  ]

  -- `Manager.ListProtectedPIDs`; `none` is an error.
  unfoldable pub list_protected_pids : Manager e → Option (List ℕ)
  list_protected_pids m = elim m.protected_pids [
    | none ↦ some []
    | some p ↦ let (pids, ended) = e.numbers.keys p in if ended then some pids else none
  ]

  -- `Manager.AddTargetCgroup`.
  unfoldable pub add_target_cgroup : Manager e → ℕ → Manager e × Option BpfError
  add_target_cgroup m id = elim m.target_cgroups [
    | none ↦ (m, some exec_monitor_not_loaded)
    | some p ↦
        let (p', err) = put_or_fail e.numbers p id 1 in (record m { target_cgroups = some p' }, err)
  ]

  abbrev flag : Bool → ℕ
  flag b = if b then 1 else 0

  -- `Manager.EnableCgroupFilter`.
  unfoldable pub enable_cgroup_filter : Manager e → Bool → Manager e × Option BpfError
  enable_cgroup_filter m enabled = elim m.cgroup_filter_enabled [
    | none ↦ (m, some exec_monitor_not_loaded)
    | some p ↦
        let (p', err) = put_or_fail e.numbers p 0 (flag enabled) in
        (record m { cgroup_filter_enabled = some p' }, err)
  ]

  -- `Manager.AddTargetBinary`.
  unfoldable pub add_target_binary : Manager e → Bytes → Manager e × Option BpfError
  add_target_binary m name = elim m.target_binaries [
    | none ↦ (m, some exec_monitor_not_loaded)
    | some p ↦
        let (p', err) = put_or_fail e.names p (binary_key name) 1 in
        (record m { target_binaries = some p' }, err)
  ]

  -- `Manager.RemoveTargetBinary`: here a missing key is an error.
  unfoldable pub remove_target_binary : Manager e → Bytes → Manager e × Option BpfError
  remove_target_binary m name = elim m.target_binaries [
    | none ↦ (m, some exec_monitor_not_loaded)
    | some p ↦ elim (e.names.delete p (binary_key name)) [
      | deleted p' ↦ (record m { target_binaries = some p' }, none)
      | missing ↦ (m, some map_failed)
      | failed ↦ (m, some map_failed)
    ]
  ]

  -- `Manager.EnableBinaryFilter`.
  unfoldable pub enable_binary_filter : Manager e → Bool → Manager e × Option BpfError
  enable_binary_filter m enabled = elim m.binary_filter_enabled [
    | none ↦ (m, some exec_monitor_not_loaded)
    | some p ↦
        let (p', err) = put_or_fail e.numbers p 0 (flag enabled) in
        (record m { binary_filter_enabled = some p' }, err)
  ]

  -- `Manager.GetTargetBinaryCount`: a walk that breaks off counts what it has visited.
  unfoldable pub get_target_binary_count : Manager e → ℕ
  get_target_binary_count m = elim m.target_binaries [
    | none ↦ 0
    | some p ↦ length (e.names.keys p).0
  ]
