-- ===== src/Policy/Sources.antt =====
-- Where a secret's value comes from.
use x.Base.{not, ◌++◌, Option, none, some, if◌then◌else◌, Bytes, codes, is_empty}
use x.Text.{trim_space}
use x.Policy.Config.{SecretSource, SecretKeyRef}

-- The process environment, where a variable that is not set reads as empty, and the file system.
pub record Host : Type 0 where
  pub getenv : Bytes → Bytes
  pub read_file : Bytes → Option Bytes

pub data SourceError : Type 0 where
  env_not_set file_unreadable kubernetes_secret_not_found : Bytes → SourceError
  vault_not_implemented no_source : SourceError

pub data Resolved : Type 0 where
  value : Bytes → Resolved
  error : SourceError → Resolved

unfoldable pub mount_path : SecretKeyRef → Bytes
mount_path r = codes "/var/run/secrets/kernelseal/" ++ (r.name ++ (codes "/" ++ r.key))

unfoldable pub service_account_path : SecretKeyRef → Bytes
service_account_path r = codes "/var/run/secrets/kubernetes.io/serviceaccount/" ++ r.key

module _ (host : Host) where
  unfoldable pub resolve_env : Bytes → Resolved
  resolve_env name =
      if is_empty (host.getenv name) then error (env_not_set name) else value (host.getenv name)

  unfoldable pub resolve_file : Bytes → Resolved
  resolve_file path = elim (host.read_file path) [
    | some content ↦ value (trim_space content)
    | none ↦ error (file_unreadable path)
  ]

  unfoldable pub resolve_key : SecretKeyRef → Resolved
  resolve_key r = elim (host.read_file (mount_path r)) [
    | some content ↦ value (trim_space content)
    | none ↦ elim (host.read_file (service_account_path r)) [
      | some content ↦ value (trim_space content)
      | none ↦ error (kubernetes_secret_not_found (r.name ++ (codes "/" ++ r.key)))
    ]
  ]

  -- `PolicyManager.resolveSecretValue`.
  unfoldable pub resolve_secret_value : SecretSource → Resolved
  unfolding resolve_env resolve_file resolve_key
  resolve_secret_value s =
      if not (is_empty s.value)
      then value s.value
      else if not (is_empty s.env_ref)
      then resolve_env s.env_ref
      else if not (is_empty s.file_ref)
      then resolve_file s.file_ref
      else elim s.secret_key_ref [
        | some r ↦ resolve_key r
        | none ↦ elim s.vault_ref [ some v ↦ error vault_not_implemented | none ↦ error no_source ]
      ]
