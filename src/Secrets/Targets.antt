-- ===== src/Secrets/Targets.antt =====
-- The names that program the kernel-side exec filter.
use x.Base.{
  tests, ◌≡◌, ◌≢◌, refl, sym, ◌↔◌, ◌⊎◌, inl, inr, true, ◌||◌, List, [], ◌∷◌, ◌++◌, arith,
  if◌then◌else◌, Bool-cases, Bytes, subst, is_empty, is_empty-false, In, In-append, In-append_left,
  In-append_right,
}
use x.Text.Sort.{IsSorted, sort-IsSorted, Unique, sort-Unique, append-Unique, In-sort}
use x.Secrets.{Binding, Registry, contains, collect_targets, target_binaries}

contains_iff : (x : Bytes) (ys : List Bytes) → (contains x ys ≡ true) ↔ In x ys
unfolding contains
contains_iff x [] = (λ h. cc, λ h. absurd h)
contains_iff x (y ∷ ys) =
    (λ h. grind (tests, contains_iff x ys), λ h. grind (tests, contains_iff x ys))

-- Some binding selects on this name.
abbrev pub Selects : List Binding → Bytes → Type 0
Selects bs x = (b : Binding) × In b bs × (b.selector.binary ≡ x)

pub record Targets (bs : List Binding) (xs : List Bytes) : Type 0 where
  pub unique : Unique xs
  pub members : (x : Bytes) → In x xs ↔ ((x ≢ []) × Selects bs x)

abbrev next : List Bytes → Bytes → List Bytes
next out name = if is_empty name || contains name out then out else out ++ name ∷ []

next-Unique : (out : List Bytes) (name : Bytes) → Unique out → Unique (next out name)
next-Unique out name u = ground (arith, append-Unique out name u, contains_iff name out)

collect-Unique :
    (out : List Bytes) (bs : List Binding) → Unique out → Unique (collect_targets out bs)
unfolding collect_targets
collect-Unique out [] u = u
collect-Unique out (b ∷ bs) u =
    collect-Unique (next out b.selector.binary) bs (next-Unique out b.selector.binary u)

In-next :
    (x : Bytes) (out : List Bytes) (name : Bytes)
    → In x (next out name)
    → In x out ⊎ ((x ≢ []) × (name ≡ x))
In-next x out name h = elim (Bool-cases (is_empty name || contains name out)) [
  | inl e ↦ inl (rw e at h)
  | inr e ↦ elim (In-append x out (name ∷ []) (rw e at h)) [
    | inl m ↦ inl m
    | inr (inl q) ↦
        inr (subst (λ w. w ≢ []) (sym q) ((is_empty-false name).0 (ground arith)), sym q)
    | inr (inr m) ↦ absurd m
  ]
]

In-of_next : (x : Bytes) (out : List Bytes) (name : Bytes) → In x out → In x (next out name)
In-of_next x out name h = ground (arith, In-append_left x out (name ∷ []) h)

In-of_name : (x : Bytes) (out : List Bytes) → x ≢ [] → In x (next out x)
In-of_name x out n =
    ground
      (arith, (is_empty-false x).1 n, contains_iff x out, In-append_right x out (x ∷ []) (inl refl))

collect_sound :
    (x : Bytes) (out : List Bytes) (bs : List Binding)
    → In x (collect_targets out bs)
    → In x out ⊎ ((x ≢ []) × Selects bs x)
unfolding collect_targets
collect_sound x out [] h = inl h
collect_sound x out (b ∷ bs) h = elim (collect_sound x (next out b.selector.binary) bs h) [
  | inl m ↦ elim (In-next x out b.selector.binary m) [
    | inl k ↦ inl k
    | inr (n, e) ↦ inr (n, (b, inl refl, e))
  ]
  | inr (n, (c, m, e)) ↦ inr (n, (c, inr m, e))
]

collect_complete :
    (x : Bytes) (out : List Bytes) (bs : List Binding)
    → In x out ⊎ ((x ≢ []) × Selects bs x)
    → In x (collect_targets out bs)
unfolding collect_targets
collect_complete x out [] (inl h) = h
collect_complete x out [] (inr (n, (c, m, e))) = absurd m
collect_complete x out (b ∷ bs) (inl h) =
    collect_complete x (next out b.selector.binary) bs (inl (In-of_next x out b.selector.binary h))
collect_complete x out (b ∷ bs) (inr (n, (c, inl q, e))) =
    collect_complete x (next out b.selector.binary) bs
      (inl (subst (λ w. In x (next out w)) name (In-of_name x out n)))
  where
    name : x ≡ b.selector.binary
    name = cc
collect_complete x out (b ∷ bs) (inr (n, (c, inr m, e))) =
    collect_complete x (next out b.selector.binary) bs (inr (n, (c, m, e)))

-- The target names are in order and without repetition, and a name is among them exactly when it is
-- not empty and a binding selects on it.
pub target_binaries-Targets :
    (r : Registry) → Targets r.bindings (target_binaries r) × IsSorted (target_binaries r)
unfolding target_binaries
target_binaries-Targets r = (
  record {
    unique = sort-Unique found (collect-Unique [] r.bindings tt);
    members = λ x. (
      (λ h. sound x (collect_sound x [] r.bindings ((In-sort x found).0 h))),
      (λ h. (In-sort x found).1 (collect_complete x [] r.bindings (inr h))),
    );
  },
  sort-IsSorted found,
)
  where
    found : List Bytes
    found = collect_targets [] r.bindings

    sound :
        (x : Bytes) → In x [] ⊎ ((x ≢ []) × Selects r.bindings x) → (x ≢ []) × Selects r.bindings x
    sound x (inl h) = absurd h
    sound x (inr h) = h
