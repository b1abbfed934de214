-- ===== src/Base/Lists.antt =====
-- Lists measured by native numbers, membership and quantifiers by recursion.
use Prim.Native.Nat.{ℕ, zero, suc, ◌+◌}
use mathlib.Core.Path.{◌≡◌, refl, ap, sym, subst}
use mathlib.Core.Logic.{◌≢◌, ◌⊎◌, inl, inr, ◌↔◌}
use mathlib.Core.Bool.{Bool, true, false, ◌&&◌}
use mathlib.Core.List.{List, [], ◌∷◌, ◌++◌, map}
use mathlib.Core.Option.{Option, none, some}
use native.Mathlib.Omega.{arith}
use x.Base.Tests.{is_empty, if◌then◌else◌}

module _ {ℓ} {A : Type ℓ} where
  abbrev pub length : List A → ℕ
  length [] = 0
  length (x ∷ xs) = suc (length xs)

  abbrev pub get_elem? : List A → ℕ → Option A
  get_elem? [] i = none
  get_elem? (x ∷ xs) zero = some x
  get_elem? (x ∷ xs) (suc i) = get_elem? xs i

  abbrev pub take : ℕ → List A → List A
  take zero xs = []
  take (suc n) [] = []
  take (suc n) (x ∷ xs) = x ∷ take n xs

  abbrev pub drop : ℕ → List A → List A
  drop zero xs = xs
  drop (suc n) [] = []
  drop (suc n) (x ∷ xs) = drop n xs

  pub length-append : (xs ys : List A) → length (xs ++ ys) ≡ length xs + length ys
  length-append [] ys = omega arith
  length-append (x ∷ xs) ys = omega (arith, length-append xs ys)

  -- The elements that pass a Boolean test, in order.
  unfoldable pub keep : (A → Bool) → List A → List A
  keep p [] = []
  keep p (x ∷ xs) = if p x then x ∷ keep p xs else keep p xs

-- Membership is over small types, as every type of the program is.
module _ {A : Type 0} where
  -- `x` occurs in the list, with its place.
  abbrev pub In : A → List A → Type 0
  In x [] = ⊥
  In x (y ∷ ys) = (x ≡ y) ⊎ In x ys

  abbrev pub All : (A → Type 0) → List A → Type 0
  All P [] = Unit
  All P (x ∷ xs) = P x × All P xs

  pub All-append : (P : A → Type 0) (xs ys : List A) → All P xs → All P ys → All P (xs ++ ys)
  All-append P [] ys h k = k
  All-append P (x ∷ xs) ys h k = (h.0, All-append P xs ys h.1 k)

  -- A test that holds of each element.
  abbrev pub passes : (A → Bool) → List A → Bool
  passes p [] = true
  passes p (x ∷ xs) = p x && passes p xs

  pub All_of_passes :
      (P : A → Type 0) (p : A → Bool) (f : (x : A) → p x ≡ true → P x) (xs : List A)
      → passes p xs ≡ true
      → All P xs
  All_of_passes P p f [] h = tt
  All_of_passes P p f (x ∷ xs) h = (f x (ground arith), All_of_passes P p f xs (ground arith))

  pub All-weaken : (P Q : A → Type 0) (f : (x : A) → P x → Q x) (xs : List A) → All P xs → All Q xs
  All-weaken P Q f [] h = tt
  All-weaken P Q f (x ∷ xs) h = (f x h.0, All-weaken P Q f xs h.1)

  pub All-if :
      (P : A → Type 0) (b : Bool) (xs ys : List A)
      → (b ≡ true → All P xs)
      → (b ≡ false → All P ys)
      → All P (if b then xs else ys)
  All-if P true xs ys h k = h refl
  All-if P false xs ys h k = k refl

  pub In-append_left : (x : A) (xs ys : List A) → In x xs → In x (xs ++ ys)
  In-append_left x [] ys h = absurd h
  In-append_left x (y ∷ xs) ys (inl e) = inl e
  In-append_left x (y ∷ xs) ys (inr h) = inr (In-append_left x xs ys h)

  pub In-append_right : (x : A) (xs ys : List A) → In x ys → In x (xs ++ ys)
  In-append_right x [] ys h = h
  In-append_right x (y ∷ xs) ys h = inr (In-append_right x xs ys h)

  pub In-append : (x : A) (xs ys : List A) → In x (xs ++ ys) → In x xs ⊎ In x ys
  In-append x [] ys h = inr h
  In-append x (y ∷ xs) ys (inl e) = inl (inl e)
  In-append x (y ∷ xs) ys (inr h) = elim (In-append x xs ys h) [
    | inl l ↦ inl (inr l)
    | inr r ↦ inr r
  ]

  pub In-keep : (p : A → Bool) (x : A) (xs : List A) → In x (keep p xs) → In x xs × (p x ≡ true)
  unfolding keep
  In-keep p x [] h = absurd h
  In-keep p x (y ∷ ys) h = ground (arith, In-keep p x ys, ap p {x = x} {y = y})

  pub In-of_keep : (p : A → Bool) (x : A) (xs : List A) → In x xs → p x ≡ true → In x (keep p xs)
  unfolding keep
  In-of_keep p x [] h t = absurd h
  In-of_keep p x (y ∷ ys) h t = ground (arith, In-of_keep p x ys, ap p {x = x} {y = y})

  pub All_of_In : (P : A → Type 0) (x : A) (xs : List A) → All P xs → In x xs → P x
  All_of_In P x [] h m = absurd m
  All_of_In P x (y ∷ ys) h (inl e) = subst P (sym e) h.0
  All_of_In P x (y ∷ ys) h (inr m) = All_of_In P x ys h.1 m

pub All-map :
    {A B : Type 0} (P : B → Type 0) (f : A → B) (xs : List A)
    → All (λ x. P (f x)) xs
    → All P (map f xs)
All-map P f [] h = tt
All-map P f (x ∷ xs) h = (h.0, All-map P f xs h.1)

pub All_from_In : {A : Type 0} (P : A → Type 0) (xs : List A) → ((x : A) → In x xs → P x) → All P xs
All_from_In P [] h = tt
All_from_In P (x ∷ xs) h = (h x (inl refl), All_from_In P xs (λ y m. h y (inr m)))

pub is_empty-false : {A : Type 0} (xs : List A) → (is_empty xs ≡ false) ↔ (xs ≢ [])
is_empty-false [] = (λ h. cc, λ h. absurd (h refl))
is_empty-false (x ∷ xs) = (λ h e. cc, λ h. refl)

module _ {A B : Type 0} where
  -- What `f` gives for each element, in order.
  unfoldable pub gather : (A → List B) → List A → List B
  gather f [] = []
  gather f (x ∷ xs) = f x ++ gather f xs

  pub gather-keep :
      (f : A → List B) (p : A → Bool) (x : A) (xs : List A)
      → gather f (keep p (x ∷ xs)) ≡ (if p x then f x else []) ++ gather f (keep p xs)
  unfolding gather keep
  gather-keep f p x xs = ground arith

  pub In-gather :
      (f : A → List B) (y : B) (xs : List A) → In y (gather f xs) → (x : A) × In x xs × In y (f x)
  unfolding gather
  In-gather f y [] h = absurd h
  In-gather f y (x ∷ xs) h = elim (In-append y (f x) (gather f xs) h) [
    | inl l ↦ (x, inl refl, l)
    | inr r ↦ let (z, m, n) = In-gather f y xs r in (z, inr m, n)
  ]

  pub In-of_gather :
      (f : A → List B) (y : B) (x : A) (xs : List A) → In x xs → In y (f x) → In y (gather f xs)
  unfolding gather
  In-of_gather f y x [] m h = absurd m
  In-of_gather f y x (z ∷ xs) (inl e) h =
      In-append_left y (f z) (gather f xs) (subst (λ w. In y (f w)) e h)
  In-of_gather f y x (z ∷ xs) (inr m) h =
      In-append_right y (f z) (gather f xs) (In-of_gather f y x xs m h)

pub eq_nil : {A : Type 0} (xs : List A) → ((x : A) → In x xs → ⊥) → xs ≡ []
eq_nil [] h = refl
eq_nil (x ∷ xs) h = absurd (h x (inl refl))

pub is_empty-true : {A : Type 0} (xs : List A) → is_empty xs ≡ true → xs ≡ []
is_empty-true [] h = refl
is_empty-true (x ∷ xs) h = cc
