-- ===== src/Agent/Boot.antt =====
-- What holds of the agent once `main` waits for a signal.
use x.Base.{
  ℕ, ◌≡◌, refl, sym, ap, subst, ◌∙◌, inl, inr, Bool, true, false, not, List, Option, none, some,
  arith, ◌==◌, Option-cases, is_some, if◌then◌else◌,
}
use x.Types.{PolicyConfig, mode_enforce}
use x.Bpf.Maps.{MapLaws, Ebpf}
use x.Bpf.Programs.{is_one}
use x.Bpf.Manager.{Manager, allow_pid, configure_policy, is_lsm_loaded, new_manager}
use x.Bpf.Lifecycle.{LoadError, Loader, new_loader, load_exec_monitor, start}
use x.Policy.Config.{bpf_policy}
use x.Policy.Manager.{PolicyManager, get_bpf_policy}
use x.Kube.Watch.{Watcher}
use x.Cgroup.{CgroupFiles}
use x.Agent.{secret_server}
use x.Agent.LsmMaps.{hooked, AreLoaded, load_exec_monitor-KeepsLsm, hooked-AreLoaded}
use x.Agent.Main.{
  Boot, identity_failed, socket_failed, start_policies, Running, ended, running, update_policy,
  set_up, serving, guard_and_serve, on_loaded, main, server_of,
}

module _ (e : Ebpf) (numbers : MapLaws e.numbers ◌==◌) (policies : MapLaws e.policies ◌==◌) where
  -- The policy that the LSM programs find, and whether they find 1 under a process among those let through.
  abbrev pub policy_at : Manager e → Option PolicyConfig
  policy_at m = elim m.policy_config [ none ↦ none | some p ↦ policies.get p 0 ]

  abbrev pub is_allowed : Manager e → ℕ → Bool
  is_allowed m pid = elim m.ks_allowed_pids [ none ↦ false | some p ↦ is_one (numbers.get p pid) ]

  module _ (put_number : (m : e.numbers.Map) (k v : ℕ) → is_some (e.numbers.put m k v) ≡ true)
      (put_policy : (m : e.policies.Map) (k : ℕ) (v : PolicyConfig)
        → is_some (e.policies.put m k v) ≡ true) where
    update_policy-policy_at :
        (policy : PolicyConfig) (m : Manager e)
        → is_some m.policy_config ≡ true
        → policy_at (update_policy e policy m) ≡ some policy
    unfolding update_policy configure_policy
    update_policy-policy_at policy m h = elim (Option-cases m.policy_config) [
      | inl q ↦ absurd (ground arith)
      | inr (p, q) ↦ elim (Option-cases (e.policies.put p 0 policy)) [
        | inl r ↦ absurd (ground (arith, put_policy p 0 policy))
        | inr (p', r) ↦ ground (arith, policies.get-put p p' 0 0 policy r)
      ]
    ]

    allow_pid-is_allowed :
        (m : Manager e) (pid : ℕ)
        → is_some m.ks_allowed_pids ≡ true
        → is_allowed (allow_pid e m pid).0 pid ≡ true
    unfolding allow_pid is_one
    allow_pid-is_allowed m pid h = elim (Option-cases m.ks_allowed_pids) [
      | inl q ↦ absurd (ground arith)
      | inr (p, q) ↦ elim (Option-cases (e.numbers.put p pid 1)) [
        | inl r ↦ absurd (ground (arith, put_number p pid 1))
        | inr (p', r) ↦ ground (arith, numbers.get-put p p' pid pid 1 r)
      ]
    ]

    allow_pid-policy_config :
        (m : Manager e) (pid : ℕ) → (allow_pid e m pid).0.policy_config ≡ m.policy_config
    unfolding allow_pid
    allow_pid-policy_config m pid = ground arith

    allow_pid-protected_pids :
        (m : Manager e) (pid : ℕ) → (allow_pid e m pid).0.protected_pids ≡ m.protected_pids
    unfolding allow_pid
    allow_pid-protected_pids m pid = ground arith

    update_policy-protected_pids :
        (policy : PolicyConfig) (m : Manager e)
        → (update_policy e policy m).protected_pids ≡ m.protected_pids
    unfolding update_policy configure_policy
    update_policy-protected_pids policy m = ground arith

    update_policy-ks_allowed_pids :
        (policy : PolicyConfig) (m : Manager e)
        → (update_policy e policy m).ks_allowed_pids ≡ m.ks_allowed_pids
    unfolding update_policy configure_policy
    update_policy-ks_allowed_pids policy m = ground arith

    -- The last two writes of the start-up.
    written : (m : Manager e) (pid : ℕ) (policy : PolicyConfig) → Manager e
    written m pid policy = update_policy e policy (allow_pid e m pid).0

    written_lem :
        (m : Manager e) (pid : ℕ) (policy : PolicyConfig)
        → is_some m.policy_config ≡ is_some m.protected_pids
        → is_some m.ks_allowed_pids ≡ is_some m.protected_pids
        → is_some (written m pid policy).protected_pids ≡ true
        → (policy_at (written m pid policy) ≡ some policy)
          × (is_allowed (written m pid policy) pid ≡ true)
    unfolding written
    written_lem m pid policy h g l = (
      update_policy-policy_at policy (allow_pid e m pid).0
          (ap is_some (allow_pid-policy_config m pid) ∙ h ∙ there),
      ap (λ o. elim o as (λ x. Bool) [ none ↦ false | some p ↦ is_one (numbers.get p pid) ])
            (update_policy-ks_allowed_pids policy (allow_pid e m pid).0)
          ∙ allow_pid-is_allowed m pid (g ∙ there),
    )
      where
        there : is_some m.protected_pids ≡ true
        there =
            sym (
              ap is_some (
                update_policy-protected_pids policy (allow_pid e m pid).0
                ∙ allow_pid-protected_pids m pid))
            ∙ l

    set_up_lem :
        (b : Boot e) (pm : PolicyManager (Manager e)) (a : Loader e)
        → AreLoaded e b.lsm_load (hooked e b pm a).manager
        → is_lsm_loaded e (set_up e b pm a).manager ≡ true
        → (policy_at (set_up e b pm a).manager ≡ some (get_bpf_policy pm))
          × (is_allowed (set_up e b pm a).manager b.own_pid ≡ true)
    unfolding set_up is_lsm_loaded hooked written
    set_up_lem b pm a h l =
        written_lem (hooked e b pm a).manager b.own_pid (get_bpf_policy pm) h.policy h.allowed l

module _ (e : Ebpf) where
  gated :
      (c d : Bool) (x r : Running e)
      → (if not c then ended identity_failed else if not d then ended socket_failed else running x)
        ≡ running r
      → (c ≡ true) × (d ≡ true) × (x ≡ r)
  gated true true x r h = (refl, refl, cc)
  gated true false x r h = absurd (cc)
  gated false d x r h = absurd (cc)

  guard_and_serve-running :
      (b : Boot e) (pm : PolicyManager (Manager e)) (a : Loader e) (r : Running e)
      → guard_and_serve e b pm a ≡ running r
      → serving e b pm a ≡ r
  unfolding guard_and_serve
  guard_and_serve-running b pm a r h = (gated _ b.listens (serving e b pm a) r h).2

  -- What a run that reaches the signal has gone through.
  pub record IsServing (b : Boot e) (attached : List ℕ) (r : Running e) : Type 0 where
    pub loaded :
        (load_exec_monitor e b.memlock_removed b.exec_load (new_loader e attached)).1 ≡ none
    pub result :
        serving e b
          (start_policies e b attached)
          (load_exec_monitor e b.memlock_removed b.exec_load (new_loader e attached)).0
        ≡ r

  on_loaded-IsServing :
      (b : Boot e) (pm : PolicyManager (Manager e)) (l : Loader e × Option LoadError)
      (r : Running e)
      → on_loaded e b pm l ≡ running r
      → (l.1 ≡ none) × (serving e b pm l.0 ≡ r)
  on_loaded-IsServing b pm (a, some err) r h = absurd (cc)
  on_loaded-IsServing b pm (a, none) r h = (refl, guard_and_serve-running b pm a r h)

  pub main-IsServing :
      (b : Boot e) (attached : List ℕ) (r : Running e)
      → main e b attached ≡ running r
      → IsServing b attached r
  unfolding main
  main-IsServing b attached r h =
      let (p, q) =
        on_loaded-IsServing b (start_policies e b attached)
          (load_exec_monitor e b.memlock_removed b.exec_load (new_loader e attached)) r h in
      record { loaded = p; result = q }

  pub serving-AreLoaded :
      (b : Boot e) (attached : List ℕ) (pm : PolicyManager (Manager e))
      → AreLoaded e b.lsm_load
          (hooked e b pm
            (load_exec_monitor e b.memlock_removed b.exec_load (new_loader e attached)).0).manager
  unfolding new_loader new_manager
  serving-AreLoaded b attached pm =
      let k = load_exec_monitor-KeepsLsm e b.memlock_removed b.exec_load (new_loader e attached) in
      hooked-AreLoaded e b pm
        (load_exec_monitor e b.memlock_removed b.exec_load (new_loader e attached)).0 k.allowed
        k.protected k.policy

module _ (e : Ebpf) (numbers : MapLaws e.numbers ◌==◌) (policies : MapLaws e.policies ◌==◌) where
  Configured : (S V : Type 0) → Boot e → CgroupFiles → Watcher → Running e → Type 0
  Configured S V b files w r =
      (policy_at e numbers policies r.loader.manager ≡ some (bpf_policy r.policies.config.policy))
      × (is_allowed e numbers policies r.loader.manager b.own_pid ≡ true)
      × ((server_of e {S = S} {V = V} files r w).cfg.require_protection
          ≡ ((bpf_policy r.policies.config.policy).enforce_mode == mode_enforce))

  -- While no write to a BPF map fails: once `main` waits for a signal and the LSM object is loaded, its
  -- programs find the policy of the configuration that was loaded, they find 1, and so let it through, under
  -- the PID of the agent itself, and the server demands protection exactly if that policy is one to enforce.
  pub main-Configured :
      (S V : Type 0) (b : Boot e) (attached : List ℕ) (r : Running e) (files : CgroupFiles)
      (w : Watcher)
      → ((m : e.numbers.Map) (k v : ℕ) → is_some (e.numbers.put m k v) ≡ true)
      → ((m : e.policies.Map) (k : ℕ) (v : PolicyConfig) → is_some (e.policies.put m k v) ≡ true)
      → main e b attached ≡ running r
      → is_lsm_loaded e r.loader.manager ≡ true
      → (policy_at e numbers policies r.loader.manager ≡ some (bpf_policy r.policies.config.policy))
        × (is_allowed e numbers policies r.loader.manager b.own_pid ≡ true)
        × ((server_of e {S = S} {V = V} files r w).cfg.require_protection
            ≡ ((bpf_policy r.policies.config.policy).enforce_mode == mode_enforce))
  unfolding Configured start get_bpf_policy secret_server
  main-Configured S V b attached r files w pn pp h l =
      subst (Configured S V b files w) q
        (configured (subst (λ x. is_lsm_loaded e x.loader.manager ≡ true) (sym q) l))
    where
      pm : PolicyManager (Manager e)
      pm = start_policies e b attached

      a : Loader e
      a = (load_exec_monitor e b.memlock_removed b.exec_load (new_loader e attached)).0

      q : serving e b pm a ≡ r
      q = (main-IsServing e b attached r h).result

      configured :
          is_lsm_loaded e (serving e b pm a).loader.manager ≡ true
          → Configured S V b files w (serving e b pm a)
      configured g =
          let (p, o) =
            set_up_lem e numbers policies pn pp b pm a (serving-AreLoaded e b attached pm) g in
          (p, o, refl)
