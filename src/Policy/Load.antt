-- ===== src/Policy/Load.antt =====
-- `LoadConfig` and the two loaders. The parsers of YAML and JSON are parameters: they decode onto a
-- value and say whether they succeeded, and a failure may leave the value partly written.
use x.Base.{Bool, true, false, ◌||◌, List, Option, none, some, if◌then◌else◌, Bytes, codes, eqb}
use x.Text.{ext, to_lower}
use x.Policy.Config.{PolicySpec, SecretBinding, MonitoringConfig, KernelSealConfig, default_config}
use x.Policy.Sources.{Host}
use x.Policy.Manager.{PolicyManager, apply_policy, load_secrets}

pub record Parsers : Type 0 where
  pub yaml_config : Bytes → KernelSealConfig → KernelSealConfig × Bool
  pub json_config : Bytes → KernelSealConfig → KernelSealConfig × Bool
  pub yaml_policy : Bytes → PolicySpec → PolicySpec × Bool
  pub yaml_secrets : Bytes → List SecretBinding × Bool
  pub yaml_monitoring : Bytes → MonitoringConfig → MonitoringConfig × Bool

-- `os.Stat`, whether a path is a directory, and the files that the loaders read.
pub record Files : Type 0 where
  pub stat : Bytes → Option Bool
  pub read : Bytes → Option Bytes
  pub read_in : Bytes → Bytes → Option Bytes

pub data LoadError : Type 0 where
  stat_failed read_failed yaml_failed json_failed : LoadError
  unsupported_format : Bytes → LoadError

pub data Loaded : Type 0 where
  config : KernelSealConfig → Loaded
  failed : LoadError → Loaded

module _ (parse : Parsers) (files : Files) where
  abbrev parsed : KernelSealConfig × Bool → LoadError → Loaded
  parsed (c, true) e = config c
  parsed (c, false) e = failed e

  -- `loadConfigFromFile`.
  unfoldable pub load_config_from_file : Bytes → Loaded
  load_config_from_file path = elim (files.read path) [
    | none ↦ failed read_failed
    | some content ↦
        let e = to_lower (ext path) in
        if eqb e (codes ".yaml") || eqb e (codes ".yml")
        then parsed (parse.yaml_config content default_config) yaml_failed
        else if eqb e (codes ".json")
        then parsed (parse.json_config content default_config) json_failed
        else failed (unsupported_format e)
  ]

  -- policy.yaml: a failure is logged, and what the decoder wrote stays.
  unfoldable pub with_policy : Bytes → KernelSealConfig → KernelSealConfig
  with_policy dir c = elim (files.read_in dir (codes "policy.yaml")) [
    | none ↦ c
    | some content ↦ record c { policy = (parse.yaml_policy content c.policy).0 }
  ]

  abbrev pub take_secrets : List SecretBinding × Bool → KernelSealConfig → KernelSealConfig
  take_secrets (bs, true) c = record c { secrets = bs }
  take_secrets (bs, false) c = c

  -- secrets.yaml: a failure leaves the bindings as they were.
  unfoldable pub with_secrets : Bytes → KernelSealConfig → KernelSealConfig
  with_secrets dir c = elim (files.read_in dir (codes "secrets.yaml")) [
    | none ↦ c
    | some content ↦ take_secrets (parse.yaml_secrets content) c
  ]

  -- monitoring.yaml, like policy.yaml.
  unfoldable pub with_monitoring : Bytes → KernelSealConfig → KernelSealConfig
  with_monitoring dir c = elim (files.read_in dir (codes "monitoring.yaml")) [
    | none ↦ c
    | some content ↦ record c { monitoring = (parse.yaml_monitoring content c.monitoring).0 }
  ]

  -- `loadConfigFromDir`, which never fails.
  unfoldable pub load_config_from_dir : Bytes → KernelSealConfig
  load_config_from_dir dir = with_monitoring dir (with_secrets dir (with_policy dir default_config))

  unfoldable pub load_path : Bytes → Loaded
  load_path path = elim (files.stat path) [
    | none ↦ failed stat_failed
    | some true ↦ config (load_config_from_dir path)
    | some false ↦ load_config_from_file path
  ]

  -- `LoadConfig`: the manager, the state of the callback, and the error.
  unfoldable pub load_config :
      {W : Type 0} → Host → PolicyManager W → Bytes → W → PolicyManager W × W × Option LoadError
  load_config host pm path w = elim (load_path path) [
    | failed e ↦ (pm, w, some e)
    | config c ↦
        let pm' = record pm { config = c; config_path = path } in
        (load_secrets host pm', apply_policy pm' w, none)
  ]
