-- ===== src/Policy/Manager.antt =====
-- `PolicyManager`: loading a configuration and registering its bindings.
use x.Base.{
  ℕ, suc, Bool, not, ◌&&◌, List, [], ◌∷◌, ◌++◌, Option, none, some, if◌then◌else◌, Bytes, codes,
  is_empty,
}
use x.Text.{decimal}
use x.Secrets.{Secret, Selector, Binding, Match, Caller, Registry, no_match, contains}
use x.Secrets
use x.Types.{PolicyConfig}
use x.Policy.Config.{
  PodIdentityMode, SecretRef, ProcessSelector, SecretBinding, KernelSealConfig, default_config,
  parse_pod_identity, rejection_for, bpf_policy,
}
use x.Policy.Sources.{Host, Resolved, value, error, resolve_secret_value}

-- The state of the manager; the callback acts on a state of its own.
pub record PolicyManager (W : Type 0) : Type 0 where
  pub config : KernelSealConfig
  pub config_path : Bytes
  pub registry : Option Registry
  pub on_policy_update : Option (PolicyConfig → W → W)

unfoldable pub selector_of : ProcessSelector → Selector
selector_of p = record {
  binary = p.binary;
  container = p.container;
  namespace = p.namespace;
  labels = p.labels;
  cgroup_path = p.cgroup_path;
}

abbrev pub add_ref : Binding → Bytes → Resolved → Binding
add_ref b name (value v) = record b {
  secrets = b.secrets ++ (record { name = name; value = v } ∷ []);
}
add_ref b name (error e) = record b { unresolved = b.unresolved ++ name ∷ [] }

module _ (host : Host) where
  -- The inner loop of `loadSecrets`.
  unfoldable pub resolve_refs : Binding → List SecretRef → Binding
  resolve_refs b [] = b
  resolve_refs b (r ∷ rs) = resolve_refs (add_ref b r.name (resolve_secret_value host r.source)) rs

  abbrev pub binding_name : ℕ → Bytes → Bytes
  binding_name i [] = codes "secrets[" ++ (decimal i ++ codes "]")
  binding_name i (c ∷ name) = c ∷ name

  -- `secrets.Binding{Name: name, Selector: selector}`.
  unfoldable pub start_binding : ℕ → SecretBinding → Binding
  start_binding i b = record {
    name = binding_name i b.name;
    selector = selector_of b.selector;
    secrets = [];
    unresolved = [];
    rejected = none;
  }

  -- One turn of the outer loop.
  unfoldable pub build_binding : PodIdentityMode → ℕ → SecretBinding → Binding
  unfolding resolve_refs start_binding
  build_binding mode i b = record (resolve_refs (start_binding i b) b.secret_refs) {
    rejected = rejection_for (selector_of b.selector) mode;
  }

  unfoldable pub build_bindings : PodIdentityMode → ℕ → List SecretBinding → List Binding
  unfolding build_binding
  build_bindings mode i [] = []
  build_bindings mode i (b ∷ bs) = build_binding mode i b ∷ build_bindings mode (suc i) bs

-- The loop of `GetTargetBinaries`; the names in `out` are those of the map `seen`.
unfoldable pub add_targets : List Bytes → List SecretBinding → List Bytes
add_targets out [] = out
add_targets out (b ∷ bs) =
    let name = b.selector.binary in
    add_targets (if not (is_empty name) && not (contains name out) then out ++ name ∷ [] else out)
      bs

module _ {W : Type 0} where
  -- `NewPolicyManager`.
  unfoldable pub new_policy_manager : Option Registry → PolicyManager W
  new_policy_manager r = record {
    config = default_config;
    config_path = [];
    registry = r;
    on_policy_update = none;
  }

  -- `SetPolicyUpdateCallback`.
  unfoldable pub set_policy_update_callback :
      PolicyManager W → (PolicyConfig → W → W) → PolicyManager W
  set_policy_update_callback pm cb = record pm { on_policy_update = some cb }

  -- `PolicyManager.PodIdentityMode`.
  unfoldable pub pod_identity_mode : PolicyManager W → PodIdentityMode
  pod_identity_mode pm = (parse_pod_identity pm.config.policy.pod_identity).0

  -- `PolicyManager.GetBPFPolicy`.
  unfoldable pub get_bpf_policy : PolicyManager W → PolicyConfig
  get_bpf_policy pm = bpf_policy pm.config.policy

  -- `applyPolicy`.
  unfoldable pub apply_policy : PolicyManager W → W → W
  unfolding get_bpf_policy
  apply_policy pm w = elim pm.on_policy_update [ none ↦ w | some cb ↦ cb (get_bpf_policy pm) w ]

  -- `loadSecrets`.
  unfoldable pub load_secrets : Host → PolicyManager W → PolicyManager W
  unfolding build_bindings pod_identity_mode
  load_secrets host pm = elim pm.registry [
    | none ↦ pm
    | some r ↦ record pm {
      registry =
          some (Secrets.replace r (build_bindings host (pod_identity_mode pm) 0 pm.config.secrets));
    }
  ]

  -- `SecretsFor`.
  unfoldable pub secrets_for : PolicyManager W → Bytes → Caller → Match
  secrets_for pm binary caller = elim pm.registry [
    | none ↦ no_match
    | some r ↦ Secrets.lookup r binary caller
  ]

  -- `IsKernelBinaryFilterEnabled`.
  unfoldable pub is_kernel_binary_filter_enabled : PolicyManager W → Bool
  is_kernel_binary_filter_enabled pm = pm.config.policy.kernel_binary_filter

  -- `GetTargetBinaries`.
  unfoldable pub get_target_binaries : PolicyManager W → List Bytes
  unfolding add_targets
  get_target_binaries pm = add_targets [] pm.config.secrets
