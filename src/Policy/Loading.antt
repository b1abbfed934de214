-- ===== src/Policy/Loading.antt =====
-- What a load does to the manager.
use x.Base.{◌≡◌, refl, inl, inr, Option, none, some, arith, ◌∙◌, Bytes, codes, Option-cases}
use x.Secrets.{Registry}
use x.Types.{PolicyConfig}
use x.Policy.Config.{KernelSealConfig, PolicySpec, default_config, bpf_policy, parse_pod_identity}
use x.Policy.Sources.{Host}
use x.Policy.Manager.{PolicyManager, pod_identity_mode, get_bpf_policy, apply_policy, load_secrets}
use x.Policy.Load.{
  Parsers, Files, LoadError, config, failed, with_policy, with_secrets, with_monitoring,
  load_config_from_dir, load_path, load_config,
}
use x.Policy.Bindings.{RegistersAll, load_secrets-RegistersAll}

module _ {W : Type 0} where
  load_secrets-config :
      (host : Host) (pm : PolicyManager W) → (load_secrets host pm).config ≡ pm.config
  unfolding load_secrets
  load_secrets-config host pm = elim (Option-cases pm.registry) [
    | inl q ↦ ground arith
    | inr (r, q) ↦ ground arith
  ]

  apply_policy-callback :
      (pm : PolicyManager W) (cb : PolicyConfig → W → W) (w : W)
      → pm.on_policy_update ≡ some cb
      → apply_policy pm w ≡ cb (bpf_policy pm.config.policy) w
  unfolding apply_policy get_bpf_policy
  apply_policy-callback pm cb w q = rw (q, apply_policy)

module _ (parse : Parsers) (files : Files) (host : Host) {W : Type 0} (pm : PolicyManager W)
    (path : Bytes) (w : W) where
  abbrev after : PolicyManager W × W × Option LoadError
  after = load_config parse files host pm path w

  -- A load that fails gives its error and changes neither the manager nor what the callback acts on.
  pub load_config_failed :
      (e : LoadError) → load_path parse files path ≡ failed e → after ≡ (pm, w, some e)
  unfolding load_config
  load_config_failed e h = rw (h, load_config)

  -- A load that succeeds tells the callback the policy that it loaded, once, gives no error, and
  -- registers the bindings that it loaded, in order, under the mode that it loaded.
  pub load_config-RegistersAll :
      (c : KernelSealConfig) (cb : PolicyConfig → W → W) (r s : Registry)
      → load_path parse files path ≡ config c
      → pm.on_policy_update ≡ some cb
      → pm.registry ≡ some r
      → after.0.registry ≡ some s
      → (after.0.config ≡ c)
        × (after.1 ≡ cb (bpf_policy c.policy) w)
        × (after.2 ≡ none)
        × RegistersAll host (parse_pod_identity c.policy.pod_identity).0 0 c.secrets s.bindings
  unfolding load_config pod_identity_mode get_bpf_policy
  load_config-RegistersAll c cb r s h q g a =
      let pm' = record pm { config = c; config_path = path } in
      rw (h, load_config)
        (
          load_secrets-config host pm',
          apply_policy-callback pm' cb w q,
          refl,
          load_secrets-RegistersAll host pm' r s g (rw (h, load_config) at a),
        )

module _ (parse : Parsers) (files : Files) (dir : Bytes) where
  with_monitoring-policy :
      (c : KernelSealConfig) → (with_monitoring parse files dir c).policy ≡ c.policy
  unfolding with_monitoring
  with_monitoring-policy c = ground arith

  with_secrets-policy : (c : KernelSealConfig) → (with_secrets parse files dir c).policy ≡ c.policy
  unfolding with_secrets
  with_secrets-policy c = ground arith

  -- The policy that the decoder of policy.yaml leaves, started on a policy.
  abbrev pub decoded : Option Bytes → PolicySpec → PolicySpec
  decoded none p = p
  decoded (some content) p = (parse.yaml_policy content p).0

  with_policy-policy :
      (c : KernelSealConfig)
      → (with_policy parse files dir c).policy
        ≡ decoded (files.read_in dir (codes "policy.yaml")) c.policy
  unfolding with_policy
  with_policy-policy c = elim (Option-cases (files.read_in dir (codes "policy.yaml"))) [
    | inl q ↦ rw (q, with_policy) refl
    | inr (content, q) ↦ rw (q, with_policy) refl
  ]

  -- Whatever a directory holds, the policy that it loads is what the decoder of policy.yaml leaves when it
  -- starts on the default policy, also where it gives an error, and the default where there is no such file;
  -- no other file of the directory bears on it.
  pub load_config_from_dir-policy :
      (load_config_from_dir parse files dir).policy
      ≡ decoded (files.read_in dir (codes "policy.yaml")) default_config.policy
  unfolding load_config_from_dir
  load_config_from_dir-policy =
      with_monitoring-policy
        (with_secrets parse files dir (with_policy parse files dir default_config))
      ∙ with_secrets-policy (with_policy parse files dir default_config)
      ∙ with_policy-policy default_config
