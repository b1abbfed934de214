-- ===== src/Text/Sort.antt =====
-- `sort.Strings`: a sorted permutation of its input, by bytewise order. There is one such list, so the
-- algorithm that finds it does not matter; here it is insertion.
use mathlib.Core.List.{Perm}
use mathlib.Core.List.Perm
use x.Base.{
  ◌≡◌, refl, sym, ◌↔◌, ◌⊎◌, inl, inr, Bool, true, false, ◌&&◌, ◌||◌, List, [], ◌∷◌, ltb, ◌==◌,
  if◌then◌else◌, Bool-cases, Bytes, All, All-if, In, In-append, ◌++◌, arith,
}

-- `a <= b` on strings.
unfoldable pub le_bytes : Bytes → Bytes → Bool
le_bytes [] b = true
le_bytes (x ∷ a) [] = false
le_bytes (x ∷ a) (y ∷ b) = ltb x y || ((x == y) && le_bytes a b)

pub le_bytes_total : (a b : Bytes) → le_bytes a b ≡ false → le_bytes b a ≡ true
unfolding le_bytes
le_bytes_total [] b h = ground arith
le_bytes_total (x ∷ a) [] h = refl
le_bytes_total (x ∷ a) (y ∷ b) h = ground (arith, le_bytes_total a b)

pub le_bytes_trans :
    (a b c : Bytes) → le_bytes a b ≡ true → le_bytes b c ≡ true → le_bytes a c ≡ true
unfolding le_bytes
le_bytes_trans [] b c h k = refl
le_bytes_trans (x ∷ a) [] c h k = ground arith
le_bytes_trans (x ∷ a) (y ∷ b) [] h k = ground arith
le_bytes_trans (x ∷ a) (y ∷ b) (z ∷ c) h k = ground (arith, le_bytes_trans a b c)

unfoldable pub place : Bytes → List Bytes → List Bytes
place x [] = x ∷ []
place x (y ∷ ys) = if le_bytes x y then x ∷ y ∷ ys else y ∷ place x ys

unfoldable pub sort : List Bytes → List Bytes
unfolding place le_bytes
sort [] = []
sort (x ∷ xs) = place x (sort xs)

place-All : (P : Bytes → Type 0) (x : Bytes) (ys : List Bytes) → P x → All P ys → All P (place x ys)
unfolding place
place-All P x [] h k = (h, tt)
place-All P x (y ∷ ys) h k =
    All-if P (le_bytes x y) (x ∷ y ∷ ys) (y ∷ place x ys) (λ e. (h, k))
      (λ e. (k.0, place-All P x ys h k.1))

pub All-sort : (P : Bytes → Type 0) (xs : List Bytes) → All P xs → All P (sort xs)
unfolding sort
All-sort P [] h = tt
All-sort P (x ∷ xs) h = place-All P x (sort xs) h.0 (All-sort P xs h.1)

-- Each element is at most the next.
abbrev pub IsSorted : List Bytes → Type 0
IsSorted [] = Unit
IsSorted (x ∷ []) = Unit
IsSorted (x ∷ y ∷ ys) = (le_bytes x y ≡ true) × IsSorted (y ∷ ys)

place-IsSorted : (x : Bytes) (ys : List Bytes) → IsSorted ys → IsSorted (place x ys)
unfolding place
place-IsSorted x [] h = tt
place-IsSorted x (y ∷ []) h = ground (arith, le_bytes_total x y)
place-IsSorted x (y ∷ z ∷ zs) h = ground (arith, le_bytes_total x y, place-IsSorted x (z ∷ zs))

pub sort-IsSorted : (xs : List Bytes) → IsSorted (sort xs)
unfolding sort
sort-IsSorted [] = tt
sort-IsSorted (x ∷ xs) = place-IsSorted x (sort xs) (sort-IsSorted xs)

place-perm : (x : Bytes) (ys : List Bytes) → Perm (place x ys) (x ∷ ys)
unfolding place
place-perm x [] = Perm.refl (x ∷ [])
place-perm x (y ∷ ys) = elim (Bool-cases (le_bytes x y)) [
  | inl e ↦ rw e (Perm.refl (x ∷ y ∷ ys))
  | inr e ↦ rw e (Perm.trans (Perm.cons y (place-perm x ys)) (Perm.swap x y ys))
]

pub sort-perm : (xs : List Bytes) → Perm (sort xs) xs
unfolding sort
sort-perm [] = Perm.refl []
sort-perm (x ∷ xs) = Perm.trans (place-perm x (sort xs)) (Perm.cons x (sort-perm xs))

In-place : (a x : Bytes) (ys : List Bytes) → In a (place x ys) → (a ≡ x) ⊎ In a ys
unfolding place
In-place a x [] h = h
In-place a x (y ∷ ys) h = ground (arith, In-place a x ys)

In-of_place : (a x : Bytes) (ys : List Bytes) → (a ≡ x) ⊎ In a ys → In a (place x ys)
unfolding place
In-of_place a x [] h = h
In-of_place a x (y ∷ ys) h = ground (arith, In-of_place a x ys)

pub In-sort : (a : Bytes) (xs : List Bytes) → In a (sort xs) ↔ In a xs
unfolding sort
In-sort a [] = (λ h. h, λ h. h)
In-sort a (x ∷ xs) = ground (arith, In-sort a xs, In-place a x (sort xs), In-of_place a x (sort xs))

-- No element occurs twice.
abbrev pub Unique : List Bytes → Type 0
Unique [] = Unit
Unique (x ∷ xs) = ¬ In x xs × Unique xs

place-Unique : (x : Bytes) (ys : List Bytes) → ¬ In x ys → Unique ys → Unique (place x ys)
unfolding place
place-Unique x [] n u = (n, tt)
place-Unique x (y ∷ ys) n u = elim (Bool-cases (le_bytes x y)) [
  | inl e ↦ rw e (n, u)
  | inr e ↦ rw e (
    (λ h. elim (In-place y x ys h) [ inl q ↦ n (inl (sym q)) | inr m ↦ u.0 m ]),
    place-Unique x ys (λ m. n (inr m)) u.1,
  )
]

pub sort-Unique : (xs : List Bytes) → Unique xs → Unique (sort xs)
unfolding sort
sort-Unique [] u = tt
sort-Unique (x ∷ xs) u =
    place-Unique x (sort xs) (λ h. u.0 ((In-sort x xs).0 h)) (sort-Unique xs u.1)

pub append-Unique : (xs : List Bytes) (x : Bytes) → Unique xs → ¬ In x xs → Unique (xs ++ x ∷ [])
append-Unique [] x u n = ((λ h. h), tt)
append-Unique (y ∷ ys) x u n = (
  (λ h. elim (In-append y ys (x ∷ []) h) [
    | inl m ↦ u.0 m
    | inr (inl e) ↦ n (inl (sym e))
    | inr (inr m) ↦ m
  ]),
  append-Unique ys x u.1 (λ m. n (inr m)),
)
