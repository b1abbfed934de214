-- ===== src/Agent/Events.antt =====
-- What the event loops of the agent come to: the counters, and the PIDs that stay guarded.
use x.Base.{
  ℕ, ◌+◌, ◌^◌, ◌<◌, ◌≡◌, refl, ap, ◌∙◌, Bool, true, false, not, ◌&&◌, List, [], ◌∷◌, some, arith,
  if◌then◌else◌, Bool-cases, inl, inr, ◌==◌, is_some,
}
use x.Types.{ExecEvent, LsmEvent, read_exec_event, read_lsm_event, event_exit, event_blocked}
use x.Metrics.{add64, record_access_blocked, record_access_audited}
use x.Bpf.Maps.{MapLaws, Ebpf}
use x.Bpf.Manager.{Manager, unprotect_pid}
use x.Bpf.Protection.{is_protected, unprotect_pid_lem}
use x.Bpf.Events.{
  Read, decoded, handle_all, process_events-decoded, process_exec_events, process_lsm_events,
}
use x.Agent.{State, handle_exec_event, handle_lsm_event}

abbrev one_if : Bool → ℕ
one_if true = 1
one_if false = 0

-- The events that pass a test.
unfoldable pub count : {E : Type 0} → (E → Bool) → List E → ℕ
count p [] = 0
count p (ev ∷ evs) = one_if (p ev) + count p evs

abbrev pub is_blocked : LsmEvent → Bool
is_blocked ev = ev.event_type == event_blocked

abbrev pub is_exit_of : ℕ → ExecEvent → Bool
is_exit_of pid ev = (ev.event_type == event_exit) && (ev.pid == pid)

add64-add64 : (a m n : ℕ) → add64 (add64 a m) n ≡ add64 a (m + n)
add64-add64 a m n = omega arith

add64_zero : (a : ℕ) → a < 2 ^ 64 → a ≡ add64 a 0
add64_zero a h = omega arith

add64_bound : (a n : ℕ) → add64 a n < 2 ^ 64
add64_bound a n = omega arith

module _ {e : Ebpf} {S V : Type 0} where
  handle_lsm_event-access_blocked :
      (ev : LsmEvent) (s : State e S V)
      → s.collector.access_blocked < 2 ^ 64
      → (handle_lsm_event ev s).collector.access_blocked
        ≡ add64 s.collector.access_blocked (one_if (is_blocked ev))
  unfolding handle_lsm_event record_access_blocked record_access_audited
  handle_lsm_event-access_blocked ev s h = elim (Bool-cases (is_blocked ev)) [
    | inl t ↦ rw t refl
    | inr t ↦ rw t (add64_zero s.collector.access_blocked h)
  ]

  handle_lsm_event-access_audited :
      (ev : LsmEvent) (s : State e S V)
      → s.collector.access_audited < 2 ^ 64
      → (handle_lsm_event ev s).collector.access_audited
        ≡ add64 s.collector.access_audited (one_if (not (is_blocked ev)))
  unfolding handle_lsm_event record_access_blocked record_access_audited
  handle_lsm_event-access_audited ev s h = elim (Bool-cases (is_blocked ev)) [
    | inl t ↦ rw t (add64_zero s.collector.access_audited h)
    | inr t ↦ rw t refl
  ]

  handle_all-counts :
      (evs : List LsmEvent) (s : State e S V)
      → s.collector.access_blocked < 2 ^ 64
      → s.collector.access_audited < 2 ^ 64
      → let s' = handle_all handle_lsm_event evs s in
        (s'.collector.access_blocked ≡ add64 s.collector.access_blocked (count is_blocked evs))
        × (s'.collector.access_audited
            ≡ add64 s.collector.access_audited (count (λ ev. not (is_blocked ev)) evs))
  unfolding handle_all count
  handle_all-counts [] s h k =
      (add64_zero s.collector.access_blocked h, add64_zero s.collector.access_audited k)
  handle_all-counts (ev ∷ evs) s h k =
      let eb = handle_lsm_event-access_blocked ev s h in
      let ea = handle_lsm_event-access_audited ev s k in
      let (rb, ra) =
        handle_all-counts evs (handle_lsm_event ev s)
          (rw eb (add64_bound s.collector.access_blocked (one_if (is_blocked ev))))
          (rw ea (add64_bound s.collector.access_audited (one_if (not (is_blocked ev))))) in
      (
        rb
            ∙ ap (λ a. add64 a (count is_blocked evs)) eb
            ∙ add64-add64 s.collector.access_blocked (one_if (is_blocked ev))
                (count is_blocked evs),
        ra
            ∙ ap (λ a. add64 a (count (λ v. not (is_blocked v)) evs)) ea
            ∙ add64-add64 s.collector.access_audited (one_if (not (is_blocked ev)))
                (count (λ v. not (is_blocked v)) evs),
      )

  -- Each LSM event that parses adds one, modulo 2^64, to exactly one of the two counters: those of
  -- type BLOCKED to the first, all others to the second; records that do not parse add nothing.
  pub process_lsm_events-counts :
      (rs : List Read) (s : State e S V)
      → s.collector.access_blocked < 2 ^ 64
      → s.collector.access_audited < 2 ^ 64
      → let evs = decoded read_lsm_event rs in
        let s' = process_lsm_events (some handle_lsm_event) rs s in
        (s'.collector.access_blocked ≡ add64 s.collector.access_blocked (count is_blocked evs))
        × (s'.collector.access_audited
            ≡ add64 s.collector.access_audited (count (λ ev. not (is_blocked ev)) evs))
  unfolding process_lsm_events
  process_lsm_events-counts rs s h k =
      rw (process_events-decoded read_lsm_event handle_lsm_event rs s)
        (handle_all-counts (decoded read_lsm_event rs) s h k)

module _ (e : Ebpf) (laws : MapLaws e.numbers ◌==◌) {S V : Type 0} where
  handle_exec_event-is_protected :
      (ev : ExecEvent) (s : State e S V) (pid : ℕ)
      → is_some (unprotect_pid e s.bpf_manager ev.pid).1 ≡ false
      → is_protected e laws (handle_exec_event ev s).bpf_manager pid
        ≡ (if is_exit_of pid ev then false else is_protected e laws s.bpf_manager pid)
  unfolding handle_exec_event
  handle_exec_event-is_protected ev s pid h =
      ground (arith, unprotect_pid_lem e laws s.bpf_manager ev.pid pid)

  handle_all-is_protected :
      (evs : List ExecEvent) (s : State e S V) (pid : ℕ)
      → ((m : Manager e) (q : ℕ) → is_some (unprotect_pid e m q).1 ≡ false)
      → is_protected e laws (handle_all handle_exec_event evs s).bpf_manager pid
        ≡ ((count (is_exit_of pid) evs == 0) && is_protected e laws s.bpf_manager pid)
  unfolding handle_all count
  handle_all-is_protected [] s pid h = refl
  handle_all-is_protected (ev ∷ evs) s pid h =
      handle_all-is_protected evs (handle_exec_event ev s) pid h
      ∙ ground (arith, handle_exec_event-is_protected ev s pid (h s.bpf_manager ev.pid))

  -- Where releases give no error, the loop over the exec events leaves guarded exactly the PIDs that
  -- were and for which it reads no exit event.
  pub process_exec_events-is_protected :
      (rs : List Read) (s : State e S V) (pid : ℕ)
      → ((m : Manager e) (q : ℕ) → is_some (unprotect_pid e m q).1 ≡ false)
      → is_protected e laws (process_exec_events (some handle_exec_event) rs s).bpf_manager pid ≡ (
          (count (is_exit_of pid) (decoded read_exec_event rs) == 0)
          && is_protected e laws s.bpf_manager pid)
  unfolding process_exec_events
  process_exec_events-is_protected rs s pid h =
      rw (process_events-decoded read_exec_event handle_exec_event rs s)
        (handle_all-is_protected (decoded read_exec_event rs) s pid h)
