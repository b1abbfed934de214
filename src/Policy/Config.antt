-- ===== src/Policy/Config.antt =====
-- The configuration's types, its defaults, and the settings that are read out of it.
use x.Base.{
  ℕ, Bool, true, false, not, ◌&&◌, ◌||◌, List, [], ◌∷◌, Option, none, some, if◌then◌else◌, Bytes,
  codes, eqb, is_empty, Assoc,
}
use x.Text.{to_lower, trim_space, trim_suffix}
use x.Secrets.{
  Selector, Rejection, selects_nothing, root_cgroup, no_pod_named, pod_selectors_disabled,
  binary_only, is_pod_scoped,
}
use x.Types.{PolicyConfig, mode_disabled, mode_audit, mode_enforce}

pub record PolicySpec : Type 0 where
  pub mode : Bytes
  pub block_environ : Bool
  pub block_mem : Bool
  pub block_maps : Bool
  pub block_ptrace : Bool
  pub allow_self_read : Bool
  pub audit_all : Bool
  pub kernel_binary_filter : Bool
  pub pod_identity : Bytes

pub data PodIdentityMode : Type 0 where
  preferred required disabled : PodIdentityMode

pub record SecretKeyRef : Type 0 where
  pub name : Bytes
  pub key : Bytes
  pub namespace : Bytes

pub record VaultRef : Type 0 where
  pub path : Bytes
  pub key : Bytes

pub record SecretSource : Type 0 where
  pub value : Bytes
  pub secret_key_ref : Option SecretKeyRef
  pub file_ref : Bytes
  pub env_ref : Bytes
  pub vault_ref : Option VaultRef

pub record SecretRef : Type 0 where
  pub name : Bytes
  pub source : SecretSource

pub record ProcessSelector : Type 0 where
  pub binary : Bytes
  pub container : Bytes
  pub labels : Assoc Bytes Bytes
  pub namespace : Bytes
  pub cgroup_path : Bytes

pub record SecretBinding : Type 0 where
  pub name : Bytes
  pub selector : ProcessSelector
  pub secret_refs : List SecretRef

pub record MonitoringConfig : Type 0 where
  pub enabled : Bool
  pub metrics_port : ℕ
  pub log_level : Bytes
  pub audit_log : Bytes

pub record KernelSealConfig : Type 0 where
  pub version : Bytes
  pub policy : PolicySpec
  pub secrets : List SecretBinding
  pub monitoring : MonitoringConfig

-- `DefaultConfig`.
unfoldable pub default_config : KernelSealConfig
default_config = record {
  version = codes "v1";
  policy = record {
    mode = codes "enforce";
    block_environ = true;
    block_mem = true;
    block_maps = false;
    block_ptrace = true;
    allow_self_read = true;
    audit_all = false;
    kernel_binary_filter = true;
    pod_identity = codes "preferred";
  };
  secrets = [];
  monitoring = record {
    enabled = true;
    metrics_port = 9090;
    log_level = codes "info";
    audit_log = codes "/var/log/kernelseal/audit.log";
  };
}

-- `PodIdentityMode.String`.
unfoldable pub identity_name : PodIdentityMode → Bytes
identity_name required = codes "required"
identity_name disabled = codes "disabled"
identity_name preferred = codes "preferred"

-- `parsePodIdentity`: the mode, and whether there is an error.
unfoldable pub parse_pod_identity : Bytes → PodIdentityMode × Bool
parse_pod_identity s =
    let word = to_lower (trim_space s) in
    if is_empty word || eqb word (codes "preferred")
    then (preferred, false)
    else if eqb word (codes "required")
    then (required, false)
    else if eqb word (codes "disabled")
    then (disabled, false)
    else (required, true)

-- The switch on the mode in `rejectionFor`.
unfoldable pub reject_by_mode : Selector → PodIdentityMode → Option Rejection
reject_by_mode s required = if not (is_pod_scoped s) then some no_pod_named else none
reject_by_mode s disabled =
    if is_pod_scoped s
    then some pod_selectors_disabled
    else if is_empty s.binary
    then some binary_only
    else none
reject_by_mode s preferred = none

-- `strings.TrimSuffix(strings.TrimSpace(s.CgroupPath), "/")`.
abbrev pub cleaned : Selector → Bytes
cleaned s = trim_suffix (b'/' ∷ []) (trim_space s.cgroup_path)

-- `rejectionFor`.
unfoldable pub rejection_for : Selector → PodIdentityMode → Option Rejection
rejection_for s mode =
    if is_empty s.binary && not (is_pod_scoped s)
    then some selects_nothing
    else if not (is_empty s.cgroup_path) && is_empty (cleaned s)
    then some root_cgroup
    else reject_by_mode s mode

-- `boolToUint8`.
abbrev pub bool_to_uint8 : Bool → ℕ
bool_to_uint8 b = if b then 1 else 0

-- The switch on the configured mode in `GetBPFPolicy`.
unfoldable pub enforce_mode_of : Bytes → ℕ
enforce_mode_of mode =
    let word = to_lower mode in
    if eqb word (codes "disabled")
    then mode_disabled
    else if eqb word (codes "audit")
    then mode_audit
    else if eqb word (codes "enforce")
    then mode_enforce
    else mode_enforce

-- `PolicyManager.GetBPFPolicy`, on the policy that it reads.
unfoldable pub bpf_policy : PolicySpec → PolicyConfig
unfolding enforce_mode_of
bpf_policy p = record {
  enforce_mode = enforce_mode_of p.mode;
  block_environ = bool_to_uint8 p.block_environ;
  block_mem = bool_to_uint8 p.block_mem;
  block_maps = bool_to_uint8 p.block_maps;
  block_ptrace = bool_to_uint8 p.block_ptrace;
  allow_self_read = bool_to_uint8 p.allow_self_read;
  audit_all = bool_to_uint8 p.audit_all;
  reserved = 0;
}
