-- ===== src/Policy/Targets.antt =====
-- The exec filter that the configuration asks for and the one that the registry asks for.
use x.Base.{
  ℕ, suc, ◌≡◌, refl, sym, ap, ◌∙◌, not, ◌&&◌, ◌||◌, List, [], ◌∷◌, ◌++◌, some, arith, if◌then◌else◌,
  Bytes, is_empty,
}
use x.Text.Sort.{sort}
use x.Secrets.{Binding, Registry, contains, collect_targets, target_binaries}
use x.Secrets
use x.Policy.Config.{SecretBinding, PodIdentityMode}
use x.Policy.Sources.{Host}
use x.Policy.Manager.{
  PolicyManager, selector_of, build_binding, build_bindings, pod_identity_mode, load_secrets,
  add_targets, get_target_binaries,
}
use x.Policy.Bindings.{build_binding-Registers}

same_name :
    (host : Host) (mode : PodIdentityMode) (i : ℕ) (b : SecretBinding)
    → (build_binding host mode i b).selector.binary ≡ b.selector.binary
unfolding selector_of
same_name host mode i b = ap (λ s. s.binary) (build_binding-Registers host mode i b).selector

abbrev next_target : List Bytes → Bytes → List Bytes
next_target out name = if is_empty name || contains name out then out else out ++ name ∷ []

same_next :
    (out : List Bytes) (name : Bytes)
    → (if not (is_empty name) && not (contains name out) then out ++ name ∷ [] else out)
      ≡ next_target out name
same_next out name = ground arith

collect-build :
    (host : Host) (mode : PodIdentityMode) (i : ℕ) (out : List Bytes) (bs : List SecretBinding)
    → collect_targets out (build_bindings host mode i bs) ≡ add_targets out bs
unfolding collect_targets add_targets build_bindings
collect-build host mode i out [] = refl
collect-build host mode i out (b ∷ bs) =
    ap (λ name. collect_targets (next_target out name) (build_bindings host mode (suc i) bs))
      (same_name host mode i b)
    ∙ (collect-build host mode (suc i) (next_target out b.selector.binary) bs
        ∙ ap (λ o. add_targets o bs) (sym (same_next out b.selector.binary)))

-- After a load the registry's target names are those that the configuration gives, sorted.
pub load_secrets-target_binaries :
    (host : Host) {W : Type 0} (pm : PolicyManager W) (r s : Registry)
    → pm.registry ≡ some r
    → (load_secrets host pm).registry ≡ some s
    → target_binaries s ≡ sort (get_target_binaries pm)
unfolding target_binaries get_target_binaries load_secrets Secrets.replace
load_secrets-target_binaries host pm r s had has = ap sort (
    ap (collect_targets []) (sym bindings_are)
    ∙ collect-build host (pod_identity_mode pm) 0 [] pm.config.secrets)
  where
    bindings_are : build_bindings host (pod_identity_mode pm) 0 pm.config.secrets ≡ s.bindings
    bindings_are = ground arith
