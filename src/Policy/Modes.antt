-- ===== src/Policy/Modes.antt =====
-- How the two settings that govern protection and authorization are read: what is not understood
-- selects the strict value.
use x.Base.{
  ◌≡◌, ◌↔◌, ◌⊎◌, refl, inl, inr, false, [], ◌≤◌, arith, Bool-cases, Bytes, codes, eqb, eqb_iff,
  is_empty, is_empty-true,
}
use x.Text.{to_lower, trim_space}
use x.Types.{mode_disabled, mode_audit, mode_enforce}
use x.Policy.Config.{preferred, required, disabled, parse_pod_identity, PolicySpec, bpf_policy}

-- The setting as it is compared.
abbrev pub word : Bytes → Bytes
word s = to_lower (trim_space s)

-- `podIdentity` reads as preferred exactly where it is unset or says so, and as disabled exactly where
-- it says so; an unknown word, which is an error, requires a pod.
pub parse_pod_identity_lem :
    (s : Bytes)
    → (((parse_pod_identity s).0 ≡ preferred) ↔ ((word s ≡ []) ⊎ (word s ≡ codes "preferred")))
      × (((parse_pod_identity s).0 ≡ disabled) ↔ (word s ≡ codes "disabled"))
      × (((parse_pod_identity s).1 ≡ false) ⊎ ((parse_pod_identity s).0 ≡ required))
unfolding parse_pod_identity eqb
parse_pod_identity_lem s = (
  (
    (λ h. elim (Bool-cases (is_empty (word s))) [
      | inl e ↦ inl (is_empty-true (word s) e)
      | inr e ↦ inr ((eqb_iff (word s) (codes "preferred")).0 (ground arith))
    ]),
    (λ h. elim h [ inl e ↦ rw e refl | inr e ↦ rw e refl ]),
  ),
  ((λ h. (eqb_iff (word s) (codes "disabled")).0 (ground arith)), (λ h. rw h refl)),
  elim (Bool-cases (parse_pod_identity s).1) [ inl e ↦ inr (ground arith) | inr e ↦ inl e ],
)

-- The kernel is told to enforce unless the mode says disabled or audit, in any case of letters, and
-- each of these is told as itself.
pub bpf_policy_lem :
    (p : PolicySpec)
    → ((to_lower p.mode ≡ codes "disabled") ↔ ((bpf_policy p).enforce_mode ≡ mode_disabled))
      × ((to_lower p.mode ≡ codes "audit") ↔ ((bpf_policy p).enforce_mode ≡ mode_audit))
      × ((bpf_policy p).enforce_mode ≤ mode_enforce)
unfolding bpf_policy eqb
bpf_policy_lem p = (
  (
    (λ h. ground (arith, (eqb_iff (to_lower p.mode) (codes "disabled")).1 h)),
    (λ h. (eqb_iff (to_lower p.mode) (codes "disabled")).0 (ground arith)),
  ),
  (
    (λ h. ground (arith, eqb_iff (to_lower p.mode) (codes "audit"), not_disabled h)),
    (λ h. (eqb_iff (to_lower p.mode) (codes "audit")).0 (ground arith)),
  ),
  ground arith,
)
  where
    not_disabled :
        to_lower p.mode ≡ codes "audit" → eqb (to_lower p.mode) (codes "disabled") ≡ false
    not_disabled h = rw h refl
