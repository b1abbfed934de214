-- ===== src/Text/Split.antt =====
-- `Split` against concatenation.
use x.Base.{
  ℕ, ◌≡◌, ◌≢◌, refl, true, false, List, [], ◌∷◌, ◌++◌, inl, inr, arith, ◌==◌, if◌then◌else◌,
  Bool-cases, Bytes, All,
}
use x.Text.{split, onto_first}

onto_first-append :
    (c : ℕ) (xs ys : List Bytes) → xs ≢ [] → onto_first c (xs ++ ys) ≡ onto_first c xs ++ ys
onto_first-append c [] ys n = absurd (n refl)
onto_first-append c (x ∷ xs) ys n = refl

split-ne-nil : (sep : ℕ) (s : Bytes) → split sep s ≢ []
unfolding split
split-ne-nil sep [] e = cc
split-ne-nil sep (c ∷ s) e = elim (Bool-cases (c == sep)) [
  | inl h ↦ absurd (first h e)
  | inr h ↦ absurd (second h (split sep s) (split-ne-nil sep s) e)
]
  where
    first :
        (c == sep) ≡ true
        → (if c == sep then [] ∷ split sep s else onto_first c (split sep s)) ≡ []
        → ⊥
    first h e = cc

    second :
        (c == sep) ≡ false
        → (r : List Bytes) → r ≢ []
        → (if c == sep then [] ∷ r else onto_first c r) ≡ []
        → ⊥
    second h [] n e = n refl
    second h (x ∷ r) n e = cc

-- A separator splits its two sides.
pub split-append : (sep : ℕ) (a b : Bytes) → split sep (a ++ sep ∷ b) ≡ split sep a ++ split sep b
unfolding split
split-append sep [] b = ground arith
split-append sep (c ∷ a) b = ground (
  arith,
  split-append sep a b,
  onto_first-append c (split sep a) (split sep b) (split-ne-nil sep a),
)

-- A text with no separator is one piece.
pub split_one : (sep : ℕ) (s : Bytes) → All (λ c. c ≢ sep) s → split sep s ≡ s ∷ []
unfolding split
split_one sep [] a = refl
split_one sep (c ∷ s) a = ground (arith, split_one sep s a.1)
