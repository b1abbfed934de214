-- ===== src/Tests/Maps.antt =====
-- Maps that behave as documented: association lists on which no operation fails.
use x.Base.{
  ℕ, ◌≡◌, ◌↔◌, refl, sym, ap, subst, ◌∙◌, inl, inr, Bool, true, false, List, [], ◌∷◌, map, Option,
  none, some, arith, if◌then◌else◌, Assoc, lookup, insert, delete, lookup-insert, lookup-delete, In,
  is_some, ◌==◌, ==_iff, eqb, Bool-cases, Option-cases,
}
use x.Bpf.Maps.{MapOps, MapLaws, Ebpf, Deletion, deleted, missing, failed}
use x.Bpf.Manager.{BpfError, Manager, unprotect_pid}

module _ {K V : Type 0} (eq : K → K → Bool) where
  abbrev remove : Option V → K → Assoc K V → Deletion (Assoc K V)
  remove none k m = missing
  remove (some v) k m = deleted (delete eq k m)

  abbrev pub assoc_ops : MapOps K V
  assoc_ops = record {
    Map = Assoc K V;
    put = λ m k v. some (insert eq k v m);
    delete = λ m k. remove (lookup eq k m) k m;
    keys = λ m. (map (λ e. e.0) m, true);
  }

module _ {K V : Type 0} (eq : K → K → Bool) (eq_ok : (a b : K) → (eq a b ≡ true) ↔ (a ≡ b)) where
  pub removed :
      (o : Option V) (k j : K) (m m' : Assoc K V)
      → remove eq o k m ≡ deleted m'
      → lookup eq j m' ≡ (if eq k j then none else lookup eq j m)
  removed none k j m m' h = absurd (cc)
  removed (some v) k j m m' h = ap (lookup eq j) (sym same) ∙ lookup-delete eq eq_ok k j m
    where
      same : delete eq k m ≡ m'
      same = cc

  pub kept : (o : Option V) (k : K) (m : Assoc K V) → remove eq o k m ≡ missing → o ≡ none
  kept none k m h = refl
  kept (some v) k m h = absurd (cc)

  pub present : (k : K) (m : Assoc K V) → In k (map (λ e. e.0) m) ↔ (is_some (lookup eq k m) ≡ true)
  unfolding lookup
  present k [] = ((λ h. absurd h), (λ h. cc))
  present k ((j, v) ∷ m) = (forth (present k m).0, back (present k m).1)
    where
      forth :
          (In k (map (λ e. e.0) m) → is_some (lookup eq k m) ≡ true)
          → In k (map (λ e. e.0) ((j, v) ∷ m))
          → is_some (lookup eq k ((j, v) ∷ m)) ≡ true
      forth rest (inl q) = ground (arith, eq_ok j k)
      forth rest (inr q) = ground (arith, rest q)

      back :
          (is_some (lookup eq k m) ≡ true → In k (map (λ e. e.0) m))
          → is_some (lookup eq k ((j, v) ∷ m)) ≡ true
          → In k (map (λ e. e.0) ((j, v) ∷ m))
      back rest h = elim (Bool-cases (eq j k)) [
        | inl t ↦ inl (sym ((eq_ok j k).0 t))
        | inr t ↦ inr (rest (ground arith))
      ]

  unfoldable pub assoc_laws : MapLaws (assoc_ops {V = V} eq) eq
  unfolding lookup
  assoc_laws = record {
    get = λ m k. lookup eq k m;
    get-put = λ m m' k j v h.
        ap (lookup eq j) (sym (put_result (insert eq k v m) m' h)) ∙ lookup-insert eq eq_ok k j v m;
    get-delete = λ m m' k j h. removed (lookup eq k m) k j m m' h;
    get-missing = λ m k h. kept (lookup eq k m) k m h;
    mem-keys = λ m ks k h.
        subst (λ xs. In k xs ↔ (is_some (lookup eq k m) ≡ true)) (keys_are m ks h) (present k m);
  }
    where
      put_result : (a b : Assoc K V) → some a ≡ some b → a ≡ b
      put_result a b h = cc

      keys_are :
          (m : Assoc K V) (ks : List K)
          → (assoc_ops {V = V} eq).keys m ≡ (ks, true)
          → map (λ e. e.0) m ≡ ks
      keys_are m ks h = ap (λ p. p.0) h

abbrev pub ebpf : Ebpf
ebpf = record { numbers = assoc_ops ◌==◌; names = assoc_ops eqb; policies = assoc_ops ◌==◌ }

unfoldable pub laws : MapLaws ebpf.numbers ◌==◌
unfolding assoc_laws
laws = assoc_laws ◌==◌ ==_iff

-- A manager with both objects loaded.
abbrev pub manager : Manager ebpf
manager = record {
  ks_allowed_pids = some [];
  protected_pids = some [];
  policy_config = some [];
  seen_pids = some [];
  target_cgroups = some [];
  cgroup_filter_enabled = some [];
  target_binaries = some [];
  binary_filter_enabled = some [];
}

removal_total :
    (o : Option ℕ) (pid : ℕ) (m : Manager ebpf) (p : Assoc ℕ ℕ)
    → is_some
        (elim (remove ◌==◌ o pid p) as (λ x. Manager ebpf × Option BpfError) [
          | deleted p' ↦ (record m { protected_pids = some p' }, none)
          | missing ↦ (m, none)
          | failed ↦ (m, some BpfError.map_failed)
        ]).1
      ≡ false
removal_total none pid m p = refl
removal_total (some v) pid m p = refl

-- No release fails.
pub unprotect_pid_total :
    (m : Manager ebpf) (pid : ℕ) → is_some (unprotect_pid ebpf m pid).1 ≡ false
unfolding unprotect_pid
unprotect_pid_total m pid = elim (Option-cases m.protected_pids) [
  | inl q ↦ rw (q, unprotect_pid) refl
  | inr (p, q) ↦ rw (q, unprotect_pid) (removal_total (lookup ◌==◌ pid p) pid m p)
]
