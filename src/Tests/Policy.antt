-- ===== src/Tests/Policy.antt =====
-- A configuration with one binding, loaded in required mode.
use x.Base.{
  ◌≡◌, refl, inl, true, false, [], ◌∷◌, none, some, Bytes, codes, In, eqb, is_empty, if◌then◌else◌,
}
use x.Text.{to_lower, trim_space, trim_left, trim_right, trim_suffix, ext}
use x.Types.{PolicyConfig}
use x.Secrets.{is_pod_scoped, Binding, Registry, target_binaries, new_registry}
use x.Secrets
use x.Policy.Config.{
  KernelSealConfig, PolicySpec, default_config, SecretBinding, parse_pod_identity, bpf_policy,
  rejection_for, reject_by_mode,
}
use x.Policy.Sources.{Host, resolve_secret_value}
use x.Policy.Manager.{
  PolicyManager, load_secrets, selector_of, pod_identity_mode, build_bindings, build_binding,
  resolve_refs, start_binding,
}
use x.Policy.Load.{
  Parsers, Files, config, load_path, load_config, load_config_from_file, load_config_from_dir,
}
use x.Policy.Servable.{Suits}
use x.Policy.Bindings.{RegistersAll, Resolves, load_secrets-Suits}
use x.Policy.Loading.{load_config-RegistersAll, decoded, load_config_from_dir-policy}
use x.Tests.Scene.{selector, registry}

abbrev spec : PolicySpec
spec = record {
  mode = codes "Audit";
  block_environ = true;
  block_mem = true;
  block_maps = false;
  block_ptrace = true;
  allow_self_read = true;
  audit_all = false;
  kernel_binary_filter = true;
  pod_identity = codes "required";
}

abbrev db : SecretBinding
db = record {
  name = codes "db";
  selector = record {
    binary = codes "app";
    container = [];
    labels = [];
    namespace = codes "shop";
    cgroup_path = [];
  };
  secret_refs =
      record {
        name = codes "DB";
        source = record {
          value = codes "hunter2";
          secret_key_ref = none;
          file_ref = [];
          env_ref = [];
          vault_ref = none;
        };
      }
      ∷ [];
}

abbrev pub settings : KernelSealConfig
settings = record {
  version = codes "v1";
  policy = spec;
  secrets = db ∷ [];
  monitoring = record {
    enabled = true;
    metrics_port = 9090;
    log_level = codes "info";
    audit_log = [];
  };
}

abbrev host : Host
host = record { getenv = λ name. []; read_file = λ path. none }

-- The callback keeps the last policy.
abbrev manager : PolicyManager PolicyConfig
manager = record {
  config = settings;
  config_path = [];
  registry = some registry;
  on_policy_update = some (λ p w. p);
}

abbrev loaded : Binding
loaded = record {
  name = codes "db";
  selector = selector;
  secrets = record { name = codes "DB"; value = codes "hunter2" } ∷ [];
  unresolved = [];
  rejected = none;
}

registers : (load_secrets host manager).registry ≡ some (record { bindings = loaded ∷ [] })
unfolding load_secrets build_bindings build_binding resolve_refs start_binding resolve_secret_value
    rejection_for reject_by_mode is_pod_scoped selector_of pod_identity_mode parse_pod_identity
    to_lower trim_space trim_left trim_right trim_suffix Secrets.replace eqb
registers = refl

load_secrets-Suits_example :
    (b : SecretBinding) × In b settings.secrets
    × (loaded.selector ≡ selector_of b.selector)
    × Resolves host b.secret_refs loaded.secrets loaded.unresolved
    × Suits (pod_identity_mode manager) loaded.selector
load_secrets-Suits_example =
    load_secrets-Suits host manager registry (record { bindings = loaded ∷ [] }) refl registers
      loaded (inl refl) refl

abbrev parsers : Parsers
parsers = record {
  yaml_config = λ content c. (settings, true);
  json_config = λ content c. (c, false);
  yaml_policy = λ content p. (p, false);
  yaml_secrets = λ content. ([], false);
  yaml_monitoring = λ content m. (m, false);
}

abbrev files : Files
files = record {
  stat = λ path. if is_empty path then none else some false;
  read = λ path. some [];
  read_in = λ dir name. some [];
}

abbrev path : Bytes
path = codes "/etc/k.yaml"

reads : load_path parsers files path ≡ config settings
unfolding load_path load_config_from_file ext to_lower eqb
reads = refl

after_load :
    (load_config parsers files host manager path (bpf_policy spec)).0.registry
    ≡ some (record { bindings = loaded ∷ [] })
unfolding load_config load_secrets build_bindings build_binding resolve_refs start_binding
    resolve_secret_value rejection_for reject_by_mode is_pod_scoped selector_of pod_identity_mode
    parse_pod_identity to_lower trim_space trim_left trim_right trim_suffix Secrets.replace eqb
    load_path load_config_from_file ext
after_load = refl

load_config-RegistersAll_example :
    let (pm, w, e) = load_config parsers files host manager path (bpf_policy spec) in
    (pm.config ≡ settings)
    × (w ≡ bpf_policy spec)
    × (e ≡ none)
    × RegistersAll host (parse_pod_identity spec.pod_identity).0 0 settings.secrets (loaded ∷ [])
load_config-RegistersAll_example =
    load_config-RegistersAll parsers files host manager path (bpf_policy spec) settings (λ p w. p)
      registry (record { bindings = loaded ∷ [] }) reads refl refl after_load

load_config_from_dir-policy_example :
    (load_config_from_dir parsers files (codes "/etc/k")).policy
    ≡ decoded parsers files
        (codes "/etc/k")
        (files.read_in (codes "/etc/k") (codes "policy.yaml"))
        default_config.policy
load_config_from_dir-policy_example = load_config_from_dir-policy parsers files (codes "/etc/k")
