-- ===== src/Agent/LsmMaps.antt =====
-- The maps of the LSM object through the start-up: only `LoadLSM` gives them.
use x.Base.{
  ◌≡◌, refl, ◌∙◌, inl, inr, Bool, true, not, List, [], ◌∷◌, none, some, arith, Bool-cases, is_some,
  is_empty, Bytes,
}
use x.Bpf.Maps.{Ebpf}
use x.Bpf.Manager.{Manager, add_target_binary, enable_binary_filter}
use x.Bpf.Lifecycle.{
  Loader, LsmObjects, LsmLoad, ExecLoad, load_exec_monitor, attach_tracepoints, load_lsm,
}
use x.Policy.Manager.{PolicyManager, get_target_binaries, is_kernel_binary_filter_enabled}
use x.Agent.{configure_binary_filter, add_target_binaries}
use x.Agent.Main.{Boot, on_manager}

module _ (e : Ebpf) where
  -- The second manager has the LSM maps of the first.
  pub record KeepsLsm (m m' : Manager e) : Type 0 where
    pub allowed : m'.ks_allowed_pids ≡ m.ks_allowed_pids
    pub protected : m'.protected_pids ≡ m.protected_pids
    pub policy : m'.policy_config ≡ m.policy_config

  abbrev pub then_keeps : {m m' m'' : Manager e} → KeepsLsm m m' → KeepsLsm m' m'' → KeepsLsm m m''
  then_keeps f g = record {
    allowed = g.allowed ∙ f.allowed;
    protected = g.protected ∙ f.protected;
    policy = g.policy ∙ f.policy;
  }

  pub load_exec_monitor-KeepsLsm :
      (m : Bool) (o : ExecLoad e) (a : Loader e)
      → KeepsLsm a.manager (load_exec_monitor e m o a).0.manager
  unfolding load_exec_monitor attach_tracepoints
  load_exec_monitor-KeepsLsm m o a = record {
    allowed = ground arith;
    protected = ground arith;
    policy = ground arith;
  }

  add_target_binary-KeepsLsm : (m : Manager e) (b : Bytes) → KeepsLsm m (add_target_binary e m b).0
  unfolding add_target_binary
  add_target_binary-KeepsLsm m b = record {
    allowed = ground arith;
    protected = ground arith;
    policy = ground arith;
  }

  add_target_binaries-KeepsLsm :
      (m : Manager e) (bs : List Bytes) → KeepsLsm m (add_target_binaries e m bs)
  unfolding add_target_binaries
  add_target_binaries-KeepsLsm m [] = record { allowed = refl; protected = refl; policy = refl }
  add_target_binaries-KeepsLsm m (b ∷ bs) =
      then_keeps (add_target_binary-KeepsLsm m b)
        (add_target_binaries-KeepsLsm (add_target_binary e m b).0 bs)

  enable_binary_filter-KeepsLsm :
      (m : Manager e) (b : Bool) → KeepsLsm m (enable_binary_filter e m b).0
  unfolding enable_binary_filter
  enable_binary_filter-KeepsLsm m b = record {
    allowed = ground arith;
    protected = ground arith;
    policy = ground arith;
  }

  configure_binary_filter-KeepsLsm :
      (pm : PolicyManager (Manager e)) (m : Manager e) → KeepsLsm m (configure_binary_filter e pm m)
  unfolding configure_binary_filter
  configure_binary_filter-KeepsLsm pm m =
      elim (Bool-cases (not (is_kernel_binary_filter_enabled pm))) [
        | inl p ↦
            rw (p, configure_binary_filter)
              (record { allowed = refl; protected = refl; policy = refl })
        | inr p ↦ elim (Bool-cases (is_empty (get_target_binaries pm))) [
          | inl q ↦
              rw (p, q, configure_binary_filter)
                (record { allowed = refl; protected = refl; policy = refl })
          | inr q ↦
              rw (p, q, configure_binary_filter)
                (then_keeps (add_target_binaries-KeepsLsm m (get_target_binaries pm))
                  (enable_binary_filter-KeepsLsm _ true))
        ]
      ]

  -- The manager after `LoadLSM`.
  unfoldable pub hooked : Boot e → PolicyManager (Manager e) → Loader e → Loader e
  hooked b pm a =
      (load_lsm e b.memlock_removed b.lsm_load (on_manager e (configure_binary_filter e pm) a)).0

  -- The LSM maps are there together or not at all, and where they are they are those of the object.
  pub record AreLoaded (o : LsmLoad e) (m : Manager e) : Type 0 where
    pub policy : is_some m.policy_config ≡ is_some m.protected_pids
    pub allowed : is_some m.ks_allowed_pids ≡ is_some m.protected_pids
    pub objects :
        (objs : LsmObjects e)
        → o.objects ≡ some objs
        → is_some m.protected_pids ≡ true
        → m.policy_config ≡ some objs.policy_config

  load_lsm-AreLoaded :
      (m : Bool) (o : LsmLoad e) (a : Loader e)
      → a.manager.ks_allowed_pids ≡ none
      → a.manager.protected_pids ≡ none
      → a.manager.policy_config ≡ none
      → AreLoaded o (load_lsm e m o a).0.manager
  unfolding load_lsm
  load_lsm-AreLoaded m o a p q r = record {
    policy = ground arith;
    allowed = ground arith;
    objects = λ objs h l. ground arith;
  }

  pub hooked-AreLoaded :
      (b : Boot e) (pm : PolicyManager (Manager e)) (a : Loader e)
      → a.manager.ks_allowed_pids ≡ none
      → a.manager.protected_pids ≡ none
      → a.manager.policy_config ≡ none
      → AreLoaded b.lsm_load (hooked b pm a).manager
  unfolding hooked
  hooked-AreLoaded b pm a p q r =
      let k = configure_binary_filter-KeepsLsm pm a.manager in
      load_lsm-AreLoaded b.memlock_removed b.lsm_load
        (on_manager e (configure_binary_filter e pm) a) (k.allowed ∙ p) (k.protected ∙ q)
        (k.policy ∙ r)
