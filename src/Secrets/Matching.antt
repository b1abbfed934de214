-- ===== src/Secrets/Matching.antt =====
-- What `Registry.Lookup` collects, binding by binding.
use mathlib.Core.List.{append_assoc, append-nil}
use x.Base.{
  tests, ◌≡◌, refl, sym, ap, ◌↔◌, ◌⊎◌, inl, inr, ◌∙◌, Bool, true, not, ◌&&◌, List, [], ◌∷◌, ◌++◌,
  Option, none, some, arith, if◌then◌else◌, Option-cases, Bytes, In, is_empty, is_some, keep,
  gather, subst, eq_nil, In-keep, In-of_keep, In-of_gather, gather-keep, In-gather,
}
use x.Secrets.Admission.{Admits, admits_iff}
use x.Text.Sort.{sort, In-sort}
use x.Secrets.{
  is_empty_match, Rejection, Secret, Caller, Constraint, admits, Binding, Match, no_match, Registry,
  names_other_binary, consider, consider_all, lookup,
}

nothing-In : {A : Type 0} (x : A) (xs : List A) → is_empty xs ≡ true → In x xs → ⊥
nothing-In x [] e h = h
nothing-In x (y ∷ ys) e h = cc

module _ (binary : Bytes) (caller : Caller) where
  -- The binding names this binary or none.
  abbrev is_candidate : Binding → Bool
  is_candidate b = not (names_other_binary binary b)

  abbrev name_of : Binding → List Bytes
  name_of b = b.name ∷ []

  -- The binding releases its secrets to this caller.
  abbrev pub serves : Binding → Bool
  serves b = is_candidate b && not (is_some b.rejected) && not (is_some (admits b.selector caller))

  abbrev rejects : Binding → Bool
  rejects b = is_candidate b && is_some b.rejected

  abbrev why_refused : Option Constraint → Bytes → List (Bytes × Constraint)
  why_refused none name = []
  why_refused (some why) name = (name, why) ∷ []

  abbrev refusal : Binding → List (Bytes × Constraint)
  refusal b =
      if is_candidate b && not (is_some b.rejected)
      then why_refused (admits b.selector caller) b.name
      else []

  record Collects (m : Match) (bs : List Binding) (r : Match) : Type 0 where
    secrets : r.secrets ≡ m.secrets ++ gather (λ b. b.secrets) (keep serves bs)
    unresolved : r.unresolved ≡ m.unresolved ++ gather (λ b. b.unresolved) (keep serves bs)
    refused : r.refused ≡ m.refused ++ gather refusal bs
    rejected : r.rejected ≡ m.rejected ++ gather name_of (keep rejects bs)

  -- What one binding adds.
  record Adds (m : Match) (b : Binding) (r : Match) : Type 0 where
    secrets : r.secrets ≡ m.secrets ++ (if serves b then b.secrets else [])
    unresolved : r.unresolved ≡ m.unresolved ++ (if serves b then b.unresolved else [])
    refused : r.refused ≡ m.refused ++ refusal b
    rejected : r.rejected ≡ m.rejected ++ (if rejects b then name_of b else [])

  consider-Adds : (m : Match) (b : Binding) → Adds m b (consider binary caller m b)
  unfolding consider
  consider-Adds m b = ground (
    arith,
    append-nil m.secrets,
    append-nil m.unresolved,
    append-nil m.refused,
    append-nil m.rejected,
  )

  consider_all-Collects :
      (m : Match) (bs : List Binding) → Collects m bs (consider_all binary caller m bs)
  unfolding consider_all keep gather
  consider_all-Collects m [] = record {
    secrets = sym (append-nil _);
    unresolved = sym (append-nil _);
    refused = sym (append-nil _);
    rejected = sym (append-nil _);
  }
  consider_all-Collects m (b ∷ bs) =
      let a = consider-Adds m b in
      let r = consider_all-Collects (consider binary caller m b) bs in
      record {
        secrets =
            r.secrets
            ∙ (rw (a.secrets, gather-keep (λ b. b.secrets) serves b bs)
                (append_assoc m.secrets _ _));
        unresolved =
            r.unresolved
            ∙ (rw (a.unresolved, gather-keep (λ b. b.unresolved) serves b bs)
                (append_assoc m.unresolved _ _));
        refused = r.refused ∙ (rw a.refused (append_assoc m.refused _ _));
        rejected =
            r.rejected
            ∙ (rw (a.rejected, gather-keep name_of rejects b bs) (append_assoc m.rejected _ _));
      }

  -- What the registry's bindings come to, each list in the order of the bindings.
  pub record Gathers (bs : List Binding) (m : Match) : Type 0 where
    pub secrets : m.secrets ≡ gather (λ b. b.secrets) (keep serves bs)
    pub unresolved : m.unresolved ≡ sort (gather (λ b. b.unresolved) (keep serves bs))
    pub refused : m.refused ≡ gather refusal bs
    pub rejected : m.rejected ≡ gather name_of (keep rejects bs)

  -- A lookup sorts the bindings that name the binary or no binary into the rejected, the refused
  -- (each with its reason) and the serving, and releases the secrets of the serving ones in order.
  pub lookup-Gathers : (r : Registry) → Gathers r.bindings (lookup r binary caller)
  unfolding lookup
  lookup-Gathers r =
      let c = consider_all-Collects no_match r.bindings in
      record {
        secrets = c.secrets;
        unresolved = ap sort c.unresolved;
        refused = c.refused;
        rejected = c.rejected;
      }

  -- The binding is of this registry, names the binary or none, is servable and admits the caller.
  pub record Entitles (r : Registry) (b : Binding) : Type 0 where
    pub bound : In b r.bindings
    pub named : (b.selector.binary ≡ []) ⊎ (b.selector.binary ≡ binary)
    pub servable : b.rejected ≡ none
    pub admitted : Admits b.selector caller

  candidate :
      (b : Binding)
      → (b.selector.binary ≡ []) ⊎ (b.selector.binary ≡ binary)
      → is_candidate b ≡ true
  unfolding names_other_binary
  candidate b h = grind tests

  serves_iff :
      (b : Binding)
      → (serves b ≡ true) ↔ (
          ((b.selector.binary ≡ []) ⊎ (b.selector.binary ≡ binary))
          × (b.rejected ≡ none)
          × (admits b.selector caller ≡ none))
  unfolding names_other_binary
  serves_iff b = (λ h. grind tests, λ h. grind tests)

  -- A secret is released exactly when some servable binding of the registry that names the binary,
  -- or none, holds it and admits the caller.
  pub lookup-secrets_iff :
      (r : Registry) (s : Secret)
      → In s (lookup r binary caller).secrets ↔ ((b : Binding) × Entitles r b × In s b.secrets)
  lookup-secrets_iff r s = (forth, back)
    where
      forth : In s (lookup r binary caller).secrets → (b : Binding) × Entitles r b × In s b.secrets
      forth h =
          let (b, m, n) =
            In-gather (λ b. b.secrets) s (keep serves r.bindings)
              (subst (In s) (lookup-Gathers r).secrets h) in
          let (i, t) = In-keep serves b r.bindings m in
          let (named, servable, admitted) = (serves_iff b).0 t in
          (
            b,
            record {
              bound = i;
              named = named;
              servable = servable;
              admitted = (admits_iff b.selector caller).0 admitted;
            },
            n,
          )

      back : ((b : Binding) × Entitles r b × In s b.secrets) → In s (lookup r binary caller).secrets
      back (b, e, n) = subst (In s) (sym (lookup-Gathers r).secrets) (
          In-of_gather (λ b. b.secrets) s b (keep serves r.bindings)
            (In-of_keep serves b r.bindings e.bound
              ((serves_iff b).1 (e.named, e.servable, (admits_iff b.selector caller).1 e.admitted)))
            n)

  -- A lookup that comes back empty hides nothing: each binding that names the binary or none is
  -- servable and admits the caller, and has neither secrets nor unresolved names.
  pub lookup-is_empty :
      (r : Registry) (b : Binding)
      → is_empty_match (lookup r binary caller) ≡ true
      → In b r.bindings
      → (b.selector.binary ≡ []) ⊎ (b.selector.binary ≡ binary)
      → Entitles r b × (b.secrets ≡ []) × (b.unresolved ≡ [])
  unfolding is_empty_match
  lookup-is_empty r b e i n = elim (Option-cases b.rejected) [
    | inr (why, q) ↦ absurd (no_rejection (is_rejected why q))
    | inl q ↦ elim (Option-cases (admits b.selector caller)) [
      | inr (why, a) ↦ absurd (no_refusal why (is_refused why q a))
      | inl a ↦ (
        record {
          bound = i;
          named = n;
          servable = q;
          admitted = (admits_iff b.selector caller).0 a;
        },
        eq_nil b.secrets (λ s h. no_secret s (is_served q a) h),
        eq_nil b.unresolved (λ s h. no_unresolved s (is_served q a) h),
      )
    ]
  ]
    where
      found : Match
      found = lookup r binary caller

      g : Gathers r.bindings found
      g = lookup-Gathers r

      is_served :
          b.rejected ≡ none → admits b.selector caller ≡ none → In b (keep serves r.bindings)
      is_served q a = In-of_keep serves b r.bindings i ((serves_iff b).1 (n, q, a))

      is_rejected : (why : Rejection) → b.rejected ≡ some why → In b.name found.rejected
      is_rejected why q = subst (In b.name) (sym g.rejected) (
          In-of_gather name_of b.name b (keep rejects r.bindings)
            (In-of_keep rejects b r.bindings i (ground (arith, candidate b n))) (inl refl))

      is_refused :
          (why : Constraint)
          → b.rejected ≡ none
          → admits b.selector caller ≡ some why
          → In (b.name, why) found.refused
      is_refused why q a =
          subst (In (b.name, why)) (sym g.refused)
            (In-of_gather refusal (b.name, why) b r.bindings i (ground (arith, candidate b n)))

      no_rejection : In b.name found.rejected → ⊥
      no_rejection h = nothing-In b.name found.rejected (ground arith) h

      no_refusal : (why : Constraint) → In (b.name, why) found.refused → ⊥
      no_refusal why h = nothing-In (b.name, why) found.refused (ground arith) h

      no_secret : (s : Secret) → In b (keep serves r.bindings) → In s b.secrets → ⊥
      no_secret s m h = nothing-In s found.secrets (ground arith) (
          subst (In s) (sym g.secrets)
            (In-of_gather (λ b. b.secrets) s b (keep serves r.bindings) m h))

      no_unresolved : (s : Bytes) → In b (keep serves r.bindings) → In s b.unresolved → ⊥
      no_unresolved s m h = nothing-In s found.unresolved (ground arith) (
          subst (In s) (sym g.unresolved)
            ((In-sort s _).1 (In-of_gather (λ b. b.unresolved) s b (keep serves r.bindings) m h)))
