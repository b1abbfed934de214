-- ===== src/Secrets/Admission.antt =====
-- Which callers a selector admits.
use mathlib.Core.List.{append_assoc}
use x.Base.{
  tests, ◌≡◌, ◌≢◌, refl, ◌↔◌, ◌⊎◌, inl, inr, ◌∙◌, Bool, true, false, ◌||◌, In, is_empty,
  is_empty-false, [], ◌∷◌, ◌++◌, Option, none, some, arith, Bool-cases, Bytes, eqb, eqb_iff, Assoc,
}
use x.Kube.{Pod, index}
use x.Text.{has_prefix}
use x.Text.Affix.{has_prefix-rest, has_prefix-append, trim_suffix-append, trim_suffix_absent}
use x.Secrets.{
  Selector, Caller, cgroup_path_matches, has_namespace, has_label, has_labels, has_container,
  admits,
}

-- `got` is the cgroup `root` or lies below it.
abbrev pub IsWithin : Bytes → Bytes → Type 0
IsWithin root got = (got ≡ root) ⊎ ((rest : Bytes) × (got ≡ root ++ b'/' ∷ rest))

abbrev slash : Bytes
slash = b'/' ∷ []

abbrev EndsInSlash : Bytes → Type 0
EndsInSlash s = (u : Bytes) × (s ≡ u ++ slash)

abbrev within : Bytes → Bytes → Bool
within root got = eqb got root || has_prefix (root ++ slash) got

within_iff : (root got : Bytes) → (within root got ≡ true) ↔ IsWithin root got
within_iff root got = (forth, back)
  where
    forth : within root got ≡ true → IsWithin root got
    forth h = elim (Bool-cases (eqb got root)) [
      | inl e ↦ inl ((eqb_iff got root).0 e)
      | inr e ↦
          let r = has_prefix-rest (root ++ slash) got (ground arith) in
          inr (r.0, r.1 ∙ append_assoc root slash r.0)
    ]

    back : IsWithin root got → within root got ≡ true
    back (inl e) = grind tests
    back (inr (rest, e)) =
        ground (arith, has_prefix-append (root ++ slash) rest, append_assoc root slash rest)

-- A `cgroupPath` that is not empty names a cgroup and all below it, written with one slash at its
-- end or with none; a sibling whose name merely begins alike is outside.
pub cgroup_path_matches_iff :
    (root got : Bytes)
    → root ≢ []
    → ¬ EndsInSlash root
    → ((cgroup_path_matches root got ≡ true) ↔ IsWithin root got)
      × ((cgroup_path_matches (root ++ slash) got ≡ true) ↔ IsWithin root got)
unfolding cgroup_path_matches
cgroup_path_matches_iff [] got n e = absurd (n refl)
cgroup_path_matches_iff (c ∷ cs) got n e = (
  rw (trim_suffix_absent slash (c ∷ cs) (λ u q. e (u, q)), cgroup_path_matches)
      (within_iff (c ∷ cs) got),
  rw (trim_suffix-append (c ∷ cs) slash (λ q. cc), cgroup_path_matches) (within_iff (c ∷ cs) got),
)

-- What a selector asks of a caller, said without the order in which it is tested.
pub record Admits (s : Selector) (c : Caller) : Type 0 where
  pub cgroup :
      s.cgroup_path ≢ []
      → (c.cgroup_path_relative ≡ false) × (cgroup_path_matches s.cgroup_path c.cgroup_path ≡ true)
  pub namespace : s.namespace ≢ [] → (p : Pod) × (c.pod ≡ some p) × (p.namespace ≡ s.namespace)
  pub labels :
      (k v : Bytes) → In (k, v) s.labels → (p : Pod) × (c.pod ≡ some p) × (index p.labels k ≡ v)
  pub container :
      s.container ≢ []
      → (p : Pod) × (c.pod ≡ some p)
        × (c.container_id ≢ [])
        × (index p.containers c.container_id ≡ s.container)

has_namespace_iff :
    (o : Option Pod) (ns : Bytes)
    → (has_namespace o ns ≡ true) ↔ ((p : Pod) × (o ≡ some p) × (p.namespace ≡ ns))
unfolding has_namespace
has_namespace_iff none ns = (λ h. cc, λ h. cc (h.1))
has_namespace_iff (some p) ns = (
  λ h. (p, refl, (eqb_iff p.namespace ns).0 h),
  λ h. ground (arith, h.1, h.2, eqb_iff p.namespace ns),
)

has_label_iff :
    (o : Option Pod) (k v : Bytes)
    → (has_label o k v ≡ true) ↔ ((p : Pod) × (o ≡ some p) × (index p.labels k ≡ v))
unfolding has_label
has_label_iff none k v = (λ h. cc, λ h. cc (h.1))
has_label_iff (some p) k v = (
  λ h. (p, refl, (eqb_iff (index p.labels k) v).0 h),
  λ h. ground (arith, h.1, h.2, eqb_iff (index p.labels k) v),
)

has_container_iff :
    (o : Option Pod) (cid name : Bytes)
    → (has_container o cid name ≡ true)
      ↔ ((p : Pod) × (o ≡ some p) × (cid ≢ []) × (index p.containers cid ≡ name))
unfolding has_container
has_container_iff none cid name = (λ h. cc, λ h. cc (h.1))
has_container_iff (some p) [] name = (λ h. cc, λ h. absurd (h.2 refl))
has_container_iff (some p) (x ∷ cid) name = (
  λ h. (p, refl, (λ e. cc), (eqb_iff (index p.containers (x ∷ cid)) name).0 h),
  λ h. ground (arith, h.1, h.3, eqb_iff (index p.containers (x ∷ cid)) name),
)

has_labels_sound :
    (o : Option Pod) (ls : Assoc Bytes Bytes)
    → has_labels o ls ≡ true
    → (k v : Bytes) → In (k, v) ls
    → has_label o k v ≡ true
unfolding has_labels
has_labels_sound o [] h k v m = absurd m
has_labels_sound o ((j, w) ∷ ls) h k v (inl e) = ground (arith, e)
has_labels_sound o ((j, w) ∷ ls) h k v (inr m) = has_labels_sound o ls (ground arith) k v m

has_labels_complete :
    (o : Option Pod) (ls : Assoc Bytes Bytes)
    → ((k v : Bytes) → In (k, v) ls → has_label o k v ≡ true)
    → has_labels o ls ≡ true
unfolding has_labels
has_labels_complete o [] h = refl
has_labels_complete o ((j, w) ∷ ls) h =
    ground (arith, h j w (inl refl), has_labels_complete o ls (λ k v m. h k v (inr m)))

first_label : (ls : Assoc Bytes Bytes) → ls ≢ [] → (k : Bytes) × (v : Bytes) × In (k, v) ls
first_label [] n = absurd (n refl)
first_label ((k, v) ∷ ls) n = (k, v, inl refl)

module _ (s : Selector) (c : Caller) where
  record Tests : Type 0 where
    cgroup :
        is_empty s.cgroup_path ≡ false
        → (c.cgroup_path_relative ≡ false)
          × (cgroup_path_matches s.cgroup_path c.cgroup_path ≡ true)
    namespace : is_empty s.namespace ≡ false → has_namespace c.pod s.namespace ≡ true
    labels : has_labels c.pod s.labels ≡ true
    container : is_empty s.container ≡ false → has_container c.pod c.container_id s.container ≡ true

  admits_tests : (admits s c ≡ none) ↔ Tests
  unfolding admits
  admits_tests = (ground arith, ground arith)

  -- `admits` accepts a caller exactly when every constraint that the selector names holds: its
  -- cgroup path is comparable and matches, and the API server's record of its pod has the
  -- namespace, each label and the container.
  pub admits_iff : (admits s c ≡ none) ↔ Admits s c
  admits_iff = (λ h. forth (admits_tests.0 h), λ h. admits_tests.1 (back h))
    where
      forth : Tests → Admits s c
      forth t = record {
        cgroup = λ n. t.cgroup ((is_empty-false s.cgroup_path).1 n);
        namespace = λ n.
            (has_namespace_iff c.pod s.namespace).0
              (t.namespace ((is_empty-false s.namespace).1 n));
        labels =
            λ k v m. (has_label_iff c.pod k v).0 (has_labels_sound c.pod s.labels t.labels k v m);
        container = λ n.
            (has_container_iff c.pod c.container_id s.container).0
              (t.container ((is_empty-false s.container).1 n));
      }

      back : Admits s c → Tests
      back a = record {
        cgroup = λ n. a.cgroup ((is_empty-false s.cgroup_path).0 n);
        namespace = λ n.
            (has_namespace_iff c.pod s.namespace).1
              (a.namespace ((is_empty-false s.namespace).0 n));
        labels =
            has_labels_complete c.pod s.labels
              (λ k v m. (has_label_iff c.pod k v).1 (a.labels k v m));
        container = λ n.
            (has_container_iff c.pod c.container_id s.container).1
              (a.container ((is_empty-false s.container).0 n));
      }

  -- A caller with no known pod is refused by every selector that names a namespace, a label or a container.
  pub admits_unknown_pod :
      c.pod ≡ none → (s.namespace ≢ []) ⊎ (s.labels ≢ []) ⊎ (s.container ≢ []) → admits s c ≢ none
  admits_unknown_pod e (inl n) h = no_pod ((admits_iff.0 h).namespace n).1
    where
      no_pod : {p : Pod} → c.pod ≡ some p → ⊥
      no_pod q = cc
  admits_unknown_pod e (inr (inl n)) h =
      let (k, v, m) = first_label s.labels n in no_pod ((admits_iff.0 h).labels k v m).1
    where
      no_pod : {p : Pod} → c.pod ≡ some p → ⊥
      no_pod q = cc
  admits_unknown_pod e (inr (inr n)) h = no_pod ((admits_iff.0 h).container n).1
    where
      no_pod : {p : Pod} → c.pod ≡ some p → ⊥
      no_pod q = cc
