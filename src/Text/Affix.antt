-- ===== src/Text/Affix.antt =====
-- Prefixes and suffixes.
use x.Base.{
  ◌≡◌, ◌≢◌, refl, ap, inl, inr, true, [], ◌∷◌, ◌++◌, arith, Bool-cases, Bytes, eqb, eqb_iff,
  eqb_refl, length, length-append, drop,
}
use x.Text.{has_prefix, trim_prefix, trim_suffix}

-- A prefix leaves a rest.
pub has_prefix-rest : (p s : Bytes) → has_prefix p s ≡ true → (rest : Bytes) × (s ≡ p ++ rest)
unfolding has_prefix
has_prefix-rest [] s h = (s, refl)
has_prefix-rest (p ∷ ps) [] h = absurd (ground arith)
has_prefix-rest (p ∷ ps) (c ∷ s) h =
    let r = has_prefix-rest ps s (ground arith) in (r.0, ground (arith, r.1))

pub has_prefix-append : (p rest : Bytes) → has_prefix p (p ++ rest) ≡ true
unfolding has_prefix
has_prefix-append [] rest = refl
has_prefix-append (p ∷ ps) rest = ground (arith, has_prefix-append ps rest)

pub trim_suffix-append : (s t : Bytes) → t ≢ [] → trim_suffix t (s ++ t) ≡ s
unfolding trim_suffix
trim_suffix-append [] [] n = absurd (n refl)
trim_suffix-append [] (c ∷ t) n = ground (arith, eqb_refl (c ∷ t))
trim_suffix-append (c ∷ s) t n = elim (Bool-cases (eqb (c ∷ (s ++ t)) t)) [
  | inl e ↦ absurd (omega (arith, ap length ((eqb_iff (c ∷ (s ++ t)) t).0 e), length-append s t))
  | inr e ↦ ground (arith, trim_suffix-append s t n)
]

-- Nothing is trimmed where the suffix is missing.
pub trim_suffix_absent : (t s : Bytes) → ((u : Bytes) → s ≢ u ++ t) → trim_suffix t s ≡ s
unfolding trim_suffix
trim_suffix_absent t [] n = refl
trim_suffix_absent t (c ∷ s) n =
    ground
      (arith, n [], eqb_iff (c ∷ s) t, trim_suffix_absent t s (λ u e. n (c ∷ u) (ap (◌∷◌ c) e)))

drop-length-append : (p s : Bytes) → drop (length p) (p ++ s) ≡ s
drop-length-append [] s = refl
drop-length-append (c ∷ p) s = drop-length-append p s

pub trim_prefix-append : (p s : Bytes) → trim_prefix p (p ++ s) ≡ s
unfolding trim_prefix
trim_prefix-append p s = rw (has_prefix-append p s) (drop-length-append p s)
