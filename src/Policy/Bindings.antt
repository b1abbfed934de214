-- ===== src/Policy/Bindings.antt =====
-- The bindings that a configuration registers.
use mathlib.Core.List.{append_assoc, append-nil}
use x.Base.{
  ℕ, suc, ◌≡◌, refl, sym, subst, ◌∙◌, List, [], ◌∷◌, ◌++◌, none, some, arith, Bytes, gather, In,
  inl, inr,
}
use x.Secrets
use x.Secrets.{Secret, Selector, Binding, Registry}
use x.Policy.Config.{PodIdentityMode, SecretRef, SecretBinding, rejection_for}
use x.Policy.Sources.{Host, Resolved, value, error, SourceError, resolve_secret_value}
use x.Policy.Manager.{
  PolicyManager, add_ref, start_binding, selector_of, resolve_refs, binding_name, build_binding,
  build_bindings, pod_identity_mode, load_secrets,
}
use x.Policy.Servable.{Suits, rejection_for_iff}

module _ (host : Host) where
  abbrev secret_of : Bytes → Resolved → List Secret
  secret_of name (value v) = record { name = name; value = v } ∷ []
  secret_of name (error e) = []

  abbrev failure_of : Bytes → Resolved → List Bytes
  failure_of name (value v) = []
  failure_of name (error e) = name ∷ []

  -- The secret of a reference, if its source can be read, and else its name.
  abbrev pub read_ref : SecretRef → List Secret
  read_ref r = secret_of r.name (resolve_secret_value host r.source)

  abbrev pub unread_ref : SecretRef → List Bytes
  unread_ref r = failure_of r.name (resolve_secret_value host r.source)

  record Reads (b : Binding) (rs : List SecretRef) (out : Binding) : Type 0 where
    name : out.name ≡ b.name
    selector : out.selector ≡ b.selector
    secrets : out.secrets ≡ b.secrets ++ gather read_ref rs
    unresolved : out.unresolved ≡ b.unresolved ++ gather unread_ref rs

  record Adds (b : Binding) (ref : Bytes) (x : Resolved) (out : Binding) : Type 0 where
    name : out.name ≡ b.name
    selector : out.selector ≡ b.selector
    secrets : out.secrets ≡ b.secrets ++ secret_of ref x
    unresolved : out.unresolved ≡ b.unresolved ++ failure_of ref x

  add_ref-Adds : (b : Binding) (name : Bytes) (x : Resolved) → Adds b name x (add_ref b name x)
  add_ref-Adds b name (value v) = record {
    name = refl;
    selector = refl;
    secrets = refl;
    unresolved = sym (append-nil _);
  }
  add_ref-Adds b name (error e) = record {
    name = refl;
    selector = refl;
    secrets = sym (append-nil _);
    unresolved = refl;
  }

  resolve_refs-Reads : (b : Binding) (rs : List SecretRef) → Reads b rs (resolve_refs host b rs)
  unfolding resolve_refs gather
  resolve_refs-Reads b [] = record {
    name = refl;
    selector = refl;
    secrets = sym (append-nil _);
    unresolved = sym (append-nil _);
  }
  resolve_refs-Reads b (r ∷ rs) =
      let x = resolve_secret_value host r.source in
      let h = resolve_refs-Reads (add_ref b r.name x) rs in
      let a = add_ref-Adds b r.name x in
      record {
        name = h.name ∙ a.name;
        selector = h.selector ∙ a.selector;
        secrets = h.secrets ∙ (rw a.secrets (append_assoc b.secrets _ _));
        unresolved = h.unresolved ∙ (rw a.unresolved (append_assoc b.unresolved _ _));
      }

  -- What the configuration's binding at place `i` is registered as.
  pub record Registers (mode : PodIdentityMode) (i : ℕ) (b : SecretBinding) (out : Binding)
      : Type 0 where
    pub name : out.name ≡ binding_name host i b.name
    pub selector : out.selector ≡ selector_of b.selector
    pub secrets : out.secrets ≡ gather read_ref b.secret_refs
    pub unresolved : out.unresolved ≡ gather unread_ref b.secret_refs
    pub rejected : out.rejected ≡ rejection_for (selector_of b.selector) mode

  pub build_binding-Registers :
      (mode : PodIdentityMode) (i : ℕ) (b : SecretBinding)
      → Registers mode i b (build_binding host mode i b)
  unfolding build_binding
  build_binding-Registers mode i b =
      let h = resolve_refs-Reads (start_binding host i b) b.secret_refs in
      record {
        name = h.name;
        selector = h.selector;
        secrets = h.secrets;
        unresolved = h.unresolved;
        rejected = refl;
      }

  -- One registered binding for each of the configuration's, in its order.
  abbrev pub RegistersAll : PodIdentityMode → ℕ → List SecretBinding → List Binding → Type 0
  RegistersAll mode i [] [] = Unit
  RegistersAll mode i [] (o ∷ os) = ⊥
  RegistersAll mode i (b ∷ bs) [] = ⊥
  RegistersAll mode i (b ∷ bs) (o ∷ os) = Registers mode i b o × RegistersAll mode (suc i) bs os

  pub build_bindings-RegistersAll :
      (mode : PodIdentityMode) (i : ℕ) (bs : List SecretBinding)
      → RegistersAll mode i bs (build_bindings host mode i bs)
  unfolding build_bindings
  build_bindings-RegistersAll mode i [] = tt
  build_bindings-RegistersAll mode i (b ∷ bs) =
      (build_binding-Registers mode i b, build_bindings-RegistersAll mode (suc i) bs)

  -- The references one by one, in their order: the secret of each, with the name that it gives and the
  -- value that its source has, or, where the source cannot be read, its name among the unresolved.
  pub data Resolves : List SecretRef → List Secret → List Bytes → Type 0 where
    done : Resolves [] [] []
    delivers :
        (r : SecretRef) (v : Bytes) (rs : List SecretRef) (ss : List Secret) (us : List Bytes)
        → resolve_secret_value host r.source ≡ value v
        → Resolves rs ss us
        → Resolves (r ∷ rs) (record { name = r.name; value = v } ∷ ss) us
    reports :
        (r : SecretRef) (e : SourceError) (rs : List SecretRef) (ss : List Secret) (us : List Bytes)
        → resolve_secret_value host r.source ≡ error e
        → Resolves rs ss us
        → Resolves (r ∷ rs) ss (r.name ∷ us)

  reads-Resolves : (rs : List SecretRef) → Resolves rs (gather read_ref rs) (gather unread_ref rs)
  unfolding gather
  reads-Resolves [] = done
  reads-Resolves (r ∷ rs) = one (resolve_secret_value host r.source) refl (reads-Resolves rs)
    where
      one :
          (x : Resolved)
          → resolve_secret_value host r.source ≡ x
          → Resolves rs (gather read_ref rs) (gather unread_ref rs)
          → Resolves
              (r ∷ rs)
              (secret_of r.name (resolve_secret_value host r.source) ++ gather read_ref rs)
              (failure_of r.name (resolve_secret_value host r.source) ++ gather unread_ref rs)
      one (value v) q d = rw q (delivers r v rs _ _ q d)
      one (error e) q d = rw q (reports r e rs _ _ q d)

  registered :
      (mode : PodIdentityMode) (i : ℕ) (bs : List SecretBinding) (os : List Binding) (out : Binding)
      → RegistersAll mode i bs os
      → In out os
      → (j : ℕ) × (b : SecretBinding) × In b bs × Registers mode j b out
  registered mode i [] [] out h m = absurd m
  registered mode i [] (o ∷ os) out h m = absurd h
  registered mode i (b ∷ bs) [] out h m = absurd m
  registered mode i (b ∷ bs) (o ∷ os) out h (inl e) =
      (i, b, inl refl, subst (Registers mode i b) (sym e) h.0)
  registered mode i (b ∷ bs) (o ∷ os) out h (inr m) =
      let (j, c, n, g) = registered mode (suc i) bs os out h.1 m in (j, c, inr n, g)

  module _ {W : Type 0} (pm : PolicyManager W) (r s : Registry) (had : pm.registry ≡ some r)
      (has : (load_secrets host pm).registry ≡ some s) where
    -- Loading registers each binding of the configuration in its order, under its name or its place,
    -- with the secrets that could be read, the names of the others, and the verdict of the mode.
    pub load_secrets-RegistersAll :
        RegistersAll (pod_identity_mode pm) 0 pm.config.secrets s.bindings
    unfolding load_secrets Secrets.replace
    load_secrets-RegistersAll =
        subst (RegistersAll (pod_identity_mode pm) 0 pm.config.secrets) bindings_are
          (build_bindings-RegistersAll (pod_identity_mode pm) 0 pm.config.secrets)
      where
        bindings_are : build_bindings host (pod_identity_mode pm) 0 pm.config.secrets ≡ s.bindings
        bindings_are = ground arith

    -- A registered binding that is not rejected stands for one of the configuration, with its selector,
    -- and suits the mode; and, one by one and in their order, each reference of that configuration whose
    -- source can be read is a secret of the binding, with the reference's name and the source's value, each
    -- other has its name among the unresolved, and the binding has no more of either.
    pub load_secrets-Suits :
        (out : Binding)
        → In out s.bindings
        → out.rejected ≡ none
        → (b : SecretBinding) × In b pm.config.secrets
          × (out.selector ≡ selector_of b.selector)
          × Resolves b.secret_refs out.secrets out.unresolved
          × Suits (pod_identity_mode pm) out.selector
    load_secrets-Suits out m q =
        let (j, b, n, g) =
          registered (pod_identity_mode pm) 0 pm.config.secrets s.bindings out
            load_secrets-RegistersAll m in
        (
          b,
          n,
          g.selector,
          rw (g.secrets, g.unresolved) (reads-Resolves b.secret_refs),
          subst (Suits (pod_identity_mode pm)) (sym g.selector)
              ((rejection_for_iff (selector_of b.selector) (pod_identity_mode pm)).0
                (sym g.rejected ∙ q)).2,
        )
