-- ===== src/Agent/Targets.antt =====
-- What `configureBinaryFilter` makes the kernel watch.
use x.Base.{
  ℕ, ◌≡◌, refl, sym, ap, ◌∙◌, Bool, true, false, ◌||◌, List, [], ◌∷◌, none, arith, Option-cases,
  Bool-cases, inl, inr, Bytes, eqb, is_some, is_empty, is_empty-true,
}
use x.Bpf.Maps.{MapLaws, Ebpf}
use x.Bpf.Manager.{Manager, binary_key, add_target_binary, enable_binary_filter}
use x.Bpf.Filter.{is_target}
use x.Policy.Manager.{PolicyManager, get_target_binaries, is_kernel_binary_filter_enabled}
use x.Agent.{add_target_binaries, configure_binary_filter}

-- A command name that is the key of one of these names.
unfoldable pub is_key_of : List Bytes → Bytes → Bool
is_key_of [] comm = false
is_key_of (b ∷ bs) comm = eqb (binary_key b) comm || is_key_of bs comm

module _ (e : Ebpf) (laws : MapLaws e.names eqb) where
  add_target_binary-finds :
      (m : Manager e) (name comm : Bytes)
      → is_some (add_target_binary e m name).1 ≡ false
      → is_target e laws (add_target_binary e m name).0 comm
        ≡ (eqb (binary_key name) comm || is_target e laws m comm)
  unfolding add_target_binary is_target
  add_target_binary-finds m name comm ok = elim (Option-cases m.target_binaries) [
    | inl q ↦ ground arith
    | inr (p, q) ↦ elim (Option-cases (e.names.put p (binary_key name) 1)) [
      | inl r ↦ ground arith
      | inr (p', r) ↦ ground (arith, laws.get-put p p' (binary_key name) comm 1 r)
    ]
  ]

  enable_binary_filter-finds :
      (m : Manager e) (b : Bool) (comm : Bytes)
      → is_target e laws (enable_binary_filter e m b).0 comm ≡ is_target e laws m comm
  unfolding enable_binary_filter is_target
  enable_binary_filter-finds m b comm = ground arith

  module _ (puts : (p : e.names.Map) (k : Bytes) (v : ℕ) → is_some (e.names.put p k v) ≡ true) where
    add_target_binary-loaded :
        (m : Manager e) (name : Bytes)
        → is_some m.target_binaries ≡ true
        → (is_some (add_target_binary e m name).1 ≡ false)
          × (is_some (add_target_binary e m name).0.target_binaries ≡ true)
    unfolding add_target_binary
    add_target_binary-loaded m name h = elim (Option-cases m.target_binaries) [
      | inl q ↦ absurd (ground arith)
      | inr (p, q) ↦ elim (Option-cases (e.names.put p (binary_key name) 1)) [
        | inl r ↦ absurd (fails p r (puts p (binary_key name) 1))
        | inr (p', r) ↦ (ground arith, ground arith)
      ]
    ]
      where
        fails :
            (p : e.names.Map)
            → e.names.put p (binary_key name) 1 ≡ none
            → is_some (e.names.put p (binary_key name) 1) ≡ true
            → ⊥
        fails p r t = cc

    add_target_binaries-finds :
        (m : Manager e) (bs : List Bytes) (comm : Bytes)
        → is_some m.target_binaries ≡ true
        → is_target e laws (add_target_binaries e m bs) comm
          ≡ (is_key_of bs comm || is_target e laws m comm)
    unfolding add_target_binaries is_key_of
    add_target_binaries-finds m [] comm h = refl
    add_target_binaries-finds m (b ∷ bs) comm h =
        let (ok, loaded) = add_target_binary-loaded m b h in
        add_target_binaries-finds (add_target_binary e m b).0 bs comm loaded
        ∙ ground (arith, add_target_binary-finds m b comm ok)

    -- Where the exec monitor is loaded, no write to the map fails and the filter is not switched off, the
    -- kernel finds a command name among the targets exactly if it did before or it is the key of a binary
    -- that the configuration selects.
    pub configure_binary_filter-is_target :
        {W : Type 0} (pm : PolicyManager W) (m : Manager e) (comm : Bytes)
        → is_kernel_binary_filter_enabled pm ≡ true
        → is_some m.target_binaries ≡ true
        → is_target e laws (configure_binary_filter e pm m) comm
          ≡ (is_key_of (get_target_binaries pm) comm || is_target e laws m comm)
    unfolding configure_binary_filter is_key_of
    configure_binary_filter-is_target pm m comm on h =
        elim (Bool-cases (is_empty (get_target_binaries pm))) [
          | inl n ↦
              rw (on, n)
                (ap (λ bs. is_key_of bs comm || is_target e laws m comm)
                  (sym (is_empty-true (get_target_binaries pm) n)))
          | inr n ↦
              rw (on, n)
                (enable_binary_filter-finds (add_target_binaries e m (get_target_binaries pm)) true
                    comm
                  ∙ add_target_binaries-finds m (get_target_binaries pm) comm h)
        ]
