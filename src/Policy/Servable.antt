-- ===== src/Policy/Servable.antt =====
-- Which bindings may serve anyone, and how a setting that is misspelt is read.
use x.Base.{
  tests, ◌≡◌, ◌≢◌, ◌↔◌, ◌⊎◌, refl, inl, inr, Bool, true, false, not, ◌&&◌, [], none, arith,
  Bool-cases, is_empty, is_empty-true, is_empty-false,
}
use x.Secrets.{Selector, is_pod_scoped}
use x.Policy.Config.{
  PodIdentityMode, preferred, required, disabled, cleaned, rejection_for, reject_by_mode,
}

-- The selector says which pod it is for.
abbrev pub NamesPod : Selector → Type 0
NamesPod s = (s.namespace ≢ []) ⊎ (s.labels ≢ []) ⊎ (s.cgroup_path ≢ []) ⊎ (s.container ≢ [])

-- What each mode asks of a selector.
abbrev pub Suits : PodIdentityMode → Selector → Type 0
Suits required s = NamesPod s
Suits disabled s = ¬ NamesPod s × (s.binary ≢ [])
Suits preferred s = Unit {0}

absurd_of : {b : Bool} → b ≡ true → b ≡ false → ⊥
absurd_of h k = cc

pub is_pod_scoped_iff : (s : Selector) → (is_pod_scoped s ≡ true) ↔ NamesPod s
unfolding is_pod_scoped
is_pod_scoped_iff s = (λ h. grind tests, λ h. grind tests)

reject_by_mode_iff :
    (mode : PodIdentityMode) (s : Selector) → (reject_by_mode s mode ≡ none) ↔ Suits mode s
unfolding reject_by_mode
reject_by_mode_iff required s =
    (λ h. (is_pod_scoped_iff s).0 (ground arith), λ h. ground (arith, (is_pod_scoped_iff s).1 h))
reject_by_mode_iff disabled s = (
  λ h. (
    (λ n. absurd_of ((is_pod_scoped_iff s).1 n) (ground arith)),
    (is_empty-false s.binary).0 (ground arith),
  ),
  λ h. elim (Bool-cases (is_pod_scoped s)) [
    | inl p ↦ absurd (h.0 ((is_pod_scoped_iff s).0 p))
    | inr p ↦ ground (arith, (is_empty-false s.binary).1 h.1)
  ],
)
reject_by_mode_iff preferred s = (λ h. tt, λ h. refl)

pub rejection_for_iff :
    (s : Selector) (mode : PodIdentityMode)
    → (rejection_for s mode ≡ none)
      ↔ (((s.binary ≢ []) ⊎ NamesPod s) × ((s.cgroup_path ≡ []) ⊎ (cleaned s ≢ [])) × Suits mode s)
unfolding rejection_for
rejection_for_iff s mode = (forth, back)
  where
    forth :
        rejection_for s mode ≡ none
        → ((s.binary ≢ []) ⊎ NamesPod s) × ((s.cgroup_path ≡ []) ⊎ (cleaned s ≢ [])) × Suits mode s
    forth h = (
      elim (Bool-cases (is_empty s.binary)) [
        | inr a ↦ inl ((is_empty-false s.binary).0 a)
        | inl a ↦ inr ((is_pod_scoped_iff s).0 (ground arith))
      ],
      elim (Bool-cases (is_empty s.cgroup_path)) [
        | inl c ↦ inl (is_empty-true s.cgroup_path c)
        | inr c ↦ inr ((is_empty-false (cleaned s)).0 (ground arith))
      ],
      (reject_by_mode_iff mode s).0 (ground arith),
    )

    selects : (s.binary ≢ []) ⊎ NamesPod s → (is_empty s.binary && not (is_pod_scoped s)) ≡ false
    selects (inl n) = ground (arith, (is_empty-false s.binary).1 n)
    selects (inr n) = ground (arith, (is_pod_scoped_iff s).1 n)

    below_root :
        (s.cgroup_path ≡ []) ⊎ (cleaned s ≢ [])
        → (not (is_empty s.cgroup_path) && is_empty (cleaned s)) ≡ false
    below_root (inl e) = rw e
    below_root (inr n) = ground (arith, (is_empty-false (cleaned s)).1 n)

    back :
        ((s.binary ≢ []) ⊎ NamesPod s) × ((s.cgroup_path ≡ []) ⊎ (cleaned s ≢ [])) × Suits mode s
        → rejection_for s mode ≡ none
    back (a, c, m) = ground (arith, selects a, below_root c, (reject_by_mode_iff mode s).1 m)
