-- ===== src/Bpf/Links.antt =====
-- No program stays on its hook once the manager has stopped.
use x.Base.{
  ℕ, ◌≡◌, ◌⊎◌, inl, inr, refl, subst, ◌∙◌, Bool, true, false, not, List, [], ◌∷◌, ◌++◌, Option,
  none, some, arith, ◌==◌, ==_iff, Bool-cases, In, In-keep, In-append_left, In-append_right, keep,
}
use x.Bpf.Maps.{Ebpf}
use x.Bpf.Lifecycle.{
  LoadError, close_links, Loader, new_loader, ExecObjects, LsmObjects, ExecLoad, LsmLoad,
  attach_tracepoints, open_exec_reader, attach_exec, assign_exec, assign_lsm, attach_hook,
  open_lsm_reader, attach_lsm, load_exec_monitor, load_lsm, start, stop_now, stop, is_lsm_available,
}

close_links-In : (ls xs : List ℕ) (k : ℕ) → In k (close_links ls xs) → In k xs × ((In k ls) → ⊥)
unfolding close_links
close_links-In [] xs k h = (h, λ z. z)
close_links-In (l ∷ ls) xs k h =
    let (in_rest, not_rest) = close_links-In ls (keep (λ x. not (x == l)) xs) k h in
    let (in_xs, differs) = In-keep (λ x. not (x == l)) k xs in_rest in
    (in_xs, λ z. elim z [ inl q ↦ ground (arith, ==_iff k l) | inr q ↦ not_rest q ])

module _ (e : Ebpf) where
  -- What happens before a stop, with each outcome it may have.
  pub data Event : Type 0 where
    loaded_exec : (memlock_removed : Bool) → ExecLoad e → Event
    loaded_lsm : (memlock_removed : Bool) → LsmLoad e → Event
    started : Event

  unfoldable pub happen : List Event → Loader e → Loader e
  unfolding load_exec_monitor load_lsm start
  happen [] a = a
  happen (loaded_exec m o ∷ evs) a = happen evs (load_exec_monitor e m o a).0
  happen (loaded_lsm m o ∷ evs) a = happen evs (load_lsm e m o a).0
  happen (started ∷ evs) a = happen evs (start e a)

  -- Every link is one of the manager's, or was there before.
  abbrev Owns : List ℕ → Loader e → Type 0
  Owns before a = (k : ℕ) → In k a.attached → In k before ⊎ (In k a.exec_links ⊎ In k a.lsm_links)

  attach_tracepoints-Owns :
      (ts : List (Option ℕ × LoadError)) (a : Loader e) (before : List ℕ)
      → Owns before a
      → Owns before (attach_tracepoints e ts a).0
  unfolding attach_tracepoints
  attach_tracepoints-Owns [] a before h = h
  attach_tracepoints-Owns ((none, err) ∷ ts) a before h = h
  attach_tracepoints-Owns ((some l, err) ∷ ts) a before h =
      attach_tracepoints-Owns ts
        (record a { exec_links = a.exec_links ++ l ∷ []; attached = l ∷ a.attached }) before added
    where
      added :
          Owns before (record a { exec_links = a.exec_links ++ l ∷ []; attached = l ∷ a.attached })
      added k (inl q) = inr (inl (In-append_right k a.exec_links (l ∷ []) (inl q)))
      added k (inr q) = elim (h k q) [
        | inl b ↦ inl b
        | inr (inl b) ↦ inr (inl (In-append_left k a.exec_links (l ∷ []) b))
        | inr (inr b) ↦ inr (inr b)
      ]

  open_exec_reader-Owns :
      (c : Bool) (r : Loader e × Option LoadError) (before : List ℕ)
      → Owns before r.0
      → Owns before (open_exec_reader e c r).0
  open_exec_reader-Owns c (a, some err) before h = h
  open_exec_reader-Owns c (a, none) before h = h

  attach_exec-Owns :
      (o : ExecLoad e) (objs : Option (ExecObjects e)) (a : Loader e) (before : List ℕ)
      → Owns before a
      → Owns before (attach_exec e o objs a).0
  attach_exec-Owns o none a before h = h
  attach_exec-Owns o (some objs) a before h =
      open_exec_reader-Owns o.reader_created (attach_tracepoints e _ (assign_exec e objs a)) before
        (attach_tracepoints-Owns _ (assign_exec e objs a) before h)

  load_exec_monitor-Owns :
      (m : Bool) (o : ExecLoad e) (a : Loader e) (before : List ℕ)
      → Owns before a
      → Owns before (load_exec_monitor e m o a).0
  unfolding load_exec_monitor
  load_exec_monitor-Owns false o a before h = h
  load_exec_monitor-Owns true o a before h = elim (Bool-cases o.spec_loaded) [
    | inr q ↦ rw (q, load_exec_monitor) h
    | inl q ↦ rw (q, load_exec_monitor) (attach_exec-Owns o o.objects a before h)
  ]

  attach_hook-Owns :
      (has : Bool) (outcome : Option ℕ) (a : Loader e) (before : List ℕ)
      → Owns before a
      → Owns before (attach_hook e has outcome a)
  attach_hook-Owns false outcome a before h = h
  attach_hook-Owns true none a before h = h
  attach_hook-Owns true (some l) a before h = added
    where
      added : Owns before (attach_hook e true (some l) a)
      added k (inl q) = inr (inr (In-append_right k a.lsm_links (l ∷ []) (inl q)))
      added k (inr q) = elim (h k q) [
        | inl b ↦ inl b
        | inr (inl b) ↦ inr (inl b)
        | inr (inr b) ↦ inr (inr (In-append_left k a.lsm_links (l ∷ []) b))
      ]

  open_lsm_reader-Owns :
      (has c : Bool) (a : Loader e) (before : List ℕ)
      → Owns before a
      → Owns before (open_lsm_reader e has c a).0
  open_lsm_reader-Owns false c a before h = h
  open_lsm_reader-Owns true c a before h = h

  attach_lsm-Owns :
      (o : LsmLoad e) (objs : Option (LsmObjects e)) (a : Loader e) (before : List ℕ)
      → Owns before a
      → Owns before (attach_lsm e o objs a).0
  attach_lsm-Owns o none a before h = h
  attach_lsm-Owns o (some objs) a before h =
      open_lsm_reader-Owns objs.has_events o.reader_created _ before (
        attach_hook-Owns objs.has_ptrace_access_check o.ptrace _ before
          (attach_hook-Owns objs.has_file_open o.file_open (assign_lsm e objs a) before h))

  load_lsm-Owns :
      (m : Bool) (o : LsmLoad e) (a : Loader e) (before : List ℕ)
      → Owns before a
      → Owns before (load_lsm e m o a).0
  unfolding load_lsm
  load_lsm-Owns m o a before h = elim (Bool-cases (is_lsm_available o.lsm)) [
    | inr p ↦ rw (p, load_lsm) h
    | inl p ↦ elim (Bool-cases m) [
      | inr q ↦ rw (p, q, load_lsm) h
      | inl q ↦ elim (Bool-cases o.spec_loaded) [
        | inr r ↦ rw (p, q, r, load_lsm) h
        | inl r ↦ rw (p, q, r, load_lsm) (attach_lsm-Owns o o.objects a before h)
      ]
    ]
  ]

  happen-Owns :
      (evs : List Event) (a : Loader e) (before : List ℕ)
      → Owns before a
      → Owns before (happen evs a)
  unfolding happen start
  happen-Owns [] a before h = h
  happen-Owns (loaded_exec m o ∷ evs) a before h =
      happen-Owns evs (load_exec_monitor e m o a).0 before (load_exec_monitor-Owns m o a before h)
  happen-Owns (loaded_lsm m o ∷ evs) a before h =
      happen-Owns evs (load_lsm e m o a).0 before (load_lsm-Owns m o a before h)
  happen-Owns (started ∷ evs) a before h = happen-Owns evs (start e a) before h

  attach_tracepoints-stopped :
      (ts : List (Option ℕ × LoadError)) (a : Loader e)
      → (attach_tracepoints e ts a).0.stopped ≡ a.stopped
  unfolding attach_tracepoints
  attach_tracepoints-stopped [] a = refl
  attach_tracepoints-stopped ((none, err) ∷ ts) a = refl
  attach_tracepoints-stopped ((some l, err) ∷ ts) a =
      attach_tracepoints-stopped ts
        (record a { exec_links = a.exec_links ++ l ∷ []; attached = l ∷ a.attached })

  load_exec_monitor-stopped :
      (m : Bool) (o : ExecLoad e) (a : Loader e) → (load_exec_monitor e m o a).0.stopped ≡ a.stopped
  unfolding load_exec_monitor attach_tracepoints
  load_exec_monitor-stopped m o a = ground arith

  load_lsm-stopped :
      (m : Bool) (o : LsmLoad e) (a : Loader e) → (load_lsm e m o a).0.stopped ≡ a.stopped
  unfolding load_lsm
  load_lsm-stopped m o a = ground arith

  happen-stopped : (evs : List Event) (a : Loader e) → (happen evs a).stopped ≡ a.stopped
  unfolding happen start
  happen-stopped [] a = refl
  happen-stopped (loaded_exec m o ∷ evs) a =
      happen-stopped evs (load_exec_monitor e m o a).0 ∙ load_exec_monitor-stopped m o a
  happen-stopped (loaded_lsm m o ∷ evs) a =
      happen-stopped evs (load_lsm e m o a).0 ∙ load_lsm-stopped m o a
  happen-stopped (started ∷ evs) a = happen-stopped evs (start e a)

  stop_first : (a : Loader e) → a.stopped ≡ false → stop e a ≡ stop_now e a
  unfolding stop
  stop_first a h = rw h refl

  stop_now-Owns :
      (a : Loader e) (before : List ℕ) (k : ℕ)
      → Owns before a
      → In k (stop_now e a).attached
      → In k before
  unfolding stop_now
  stop_now-Owns a before k h q =
      let (p, not_lsm) = close_links-In a.lsm_links (close_links a.exec_links a.attached) k q in
      let (r, not_exec) = close_links-In a.exec_links a.attached k p in
      elim (h k r) [
        | inl b ↦ b
        | inr (inl b) ↦ absurd (not_exec b)
        | inr (inr b) ↦ absurd (not_lsm b)
      ]

  -- Whatever was loaded before, in whatever order and wherever it failed, no link that the manager
  -- attached is attached after `Stop`.
  pub stop-attached :
      (evs : List Event) (before : List ℕ) (k : ℕ)
      → In k (stop e (happen evs (new_loader e before))).attached
      → In k before
  unfolding stop new_loader
  stop-attached evs before k q =
      stop_now-Owns (happen evs (new_loader e before)) before k
        (happen-Owns evs (new_loader e before) before (λ j h. inl h))
        (subst (λ x. In k x.attached)
          (stop_first (happen evs (new_loader e before)) (happen-stopped evs (new_loader e before)))
          q)
