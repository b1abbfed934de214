-- ===== src/Server/Interleaving/Access.antt =====
-- What one access of a goroutine does to the protection of its own caller and of others.
use x.Base.{
  ℕ, ◌≡◌, ◌≢◌, inl, inr, refl, ap, ◌∙◌, Bool, true, false, Option, none, some, arith, ◌==◌,
  Bool-cases, Option-cases, is_some, Bytes, not, ◌&&◌,
}
use x.Bpf.Maps.{MapLaws, Ebpf}
use x.Bpf.Manager.{BpfError, Manager, protect_pid}
use x.Bpf.Protection.{
  is_guarded, protect_pid-is_guarded, unprotect_pid-is_guarded, track_pid-is_guarded,
}
use x.Secrets.{Match}
use x.Server.Peer.{process_start_time}
use x.Text.{base}
use x.Server.Handle.{
  Ucred, Request, Protector, Server, World, issue, recycled, names_nothing, identify,
}
use x.Server.Kernel.{bpf_protector}
use x.Server.Machine.{
  Phase, idle, arrived, reading, marking, tracking, rereading, rolling_back, ending, replied,
  decide, begin, advance,
}

-- The start time that a goroutine has read, and whether it will say or has said that its caller is
-- protected.
abbrev pub read_start : Phase → Option ℕ
read_start (marking m t) = some t
read_start (tracking m t p) = some t
read_start (rereading m t p) = some t
read_start _ = none

abbrev pub promised : Phase → Bool
promised (tracking m t p) = p
promised (rereading m t p) = p
promised (ending m p) = p
promised (replied r) = r.protected
promised _ = false

abbrev pub rolls_back : Phase → Bool
rolls_back rolling_back = true
rolls_back _ = false

module _ (e : Ebpf) (laws : MapLaws e.numbers ◌==◌) {W : Type 0} where
  abbrev watched : World (Manager e) W → ℕ → Bool
  watched w j = is_guarded e laws w.kernel j

  -- What the first access comes to: nothing is done to the kernel, and nothing promised.
  record IsUnpromised (w : World (Manager e) W) (r : World (Manager e) W × Phase) : Type 0 where
    kernel : r.0.kernel ≡ w.kernel
    start : read_start r.1 ≡ none
    promise : promised r.1 ≡ false
    roll : rolls_back r.1 ≡ false

  -- What holds of a goroutine whose caller has the start time `start` throughout.
  pub record IsSteady (start : Option ℕ) (w : World (Manager e) W) (pid : ℕ) (p : Phase)
      : Type 0 where
    pub steady : (t : ℕ) → read_start p ≡ some t → start ≡ some t
    pub kept : promised p ≡ true → watched w pid ≡ true
    pub stays : rolls_back p ≡ false

  unpromised-IsSteady :
      (start : Option ℕ) (w : World (Manager e) W) (pid : ℕ) (r : World (Manager e) W × Phase)
      → IsUnpromised w r
      → IsSteady start r.0 pid r.1
  unpromised-IsSteady start w pid r u = record {
    steady = λ t h. ground (arith, u.start);
    kept = λ h. ground (arith, u.promise);
    stays = u.roll;
  }

module _ (e : Ebpf) (laws : MapLaws e.numbers ◌==◌) {W : Type 0} (s : Server (Manager e) BpfError W)
    (by_bpf : s.protector ≡ bpf_protector e) where
  abbrev guards : World (Manager e) W → ℕ → Bool
  guards = watched e laws

  abbrev IsUncommitted : World (Manager e) W → World (Manager e) W × Phase → Type 0
  IsUncommitted = IsUnpromised e laws

  abbrev Steady : Option ℕ → World (Manager e) W → ℕ → Phase → Type 0
  Steady = IsSteady e laws

  decide-IsUnpromised :
      (w : World (Manager e) W) (pid : ℕ) (binary : Bytes) (m : Match)
      → IsUncommitted w (decide s w pid binary m)
  unfolding decide
  decide-IsUnpromised w pid binary m = record {
    kernel = ground arith;
    start = ground arith;
    promise = ground arith;
    roll = ground arith;
  }

  begin-IsUnpromised :
      (cred : Ucred) (req : Request) (w : World (Manager e) W)
      → IsUncommitted w (begin s cred req w)
  unfolding begin
  begin-IsUnpromised cred req w = elim (Bool-cases (names_nothing s req.binary)) [
    | inl a ↦ rw (a, begin) (record { kernel = refl; start = refl; promise = refl; roll = refl })
    | inr a ↦ elim (Bool-cases (s.cfg.require_pod_identity && (identify s cred.pid).1)) [
      | inl b ↦
          rw (a, b, begin) (record { kernel = refl; start = refl; promise = refl; roll = refl })
      | inr b ↦
          elim (Bool-cases
            (s.cfg.require_pod_identity && not (is_some (identify s cred.pid).0.pod))) [
              | inl c ↦
                  rw (a, b, c, begin)
                    (record { kernel = refl; start = refl; promise = refl; roll = refl })
              | inr c ↦ rw (a, b, c, begin) (decide-IsUnpromised w cred.pid (base req.binary) _)
            ]
    ]
  ]

  pub advance-guards_other :
      (stat : Option Bytes) (cred : Ucred) (req : Request) (p : Phase) (w : World (Manager e) W)
      (j : ℕ)
      → cred.pid ≢ j
      → guards (advance s stat cred req p w).0 j ≡ guards w j
  unfolding advance issue bpf_protector
  advance-guards_other stat cred req idle w j n = refl
  advance-guards_other stat cred req arrived w j n =
      ap (λ k. is_guarded e laws k j) (begin-IsUnpromised cred req w).kernel
  advance-guards_other stat cred req (reading m) w j n = ground arith
  advance-guards_other stat cred req (marking m t) w j n =
      rw by_bpf (ground (arith, protect_pid-is_guarded e laws w.kernel cred.pid j))
  advance-guards_other stat cred req (tracking m t q) w j n =
      rw by_bpf (track_pid-is_guarded e laws w.kernel cred.pid j)
  advance-guards_other stat cred req (rereading m t q) w j n = ground arith
  advance-guards_other stat cred req rolling_back w j n =
      rw by_bpf (ground (arith, unprotect_pid-is_guarded e laws w.kernel cred.pid j))
  advance-guards_other stat cred req (ending m q) w j n = ground arith
  advance-guards_other stat cred req (replied r) w j n = refl

  marks-guards :
      (k : Manager e) (pid : ℕ)
      → not (is_some (protect_pid e k pid).1) ≡ true
      → is_guarded e laws (protect_pid e k pid).0 pid ≡ true
  marks-guards k pid h = ground (arith, protect_pid-is_guarded e laws k pid pid)

  marked-guards :
      (k : Manager e) (pid : ℕ) (p : Protector (Manager e) BpfError)
      → p ≡ bpf_protector e
      → not (is_some (p.protect_pid k pid).1) ≡ true
      → is_guarded e laws (p.protect_pid k pid).0 pid ≡ true
  unfolding bpf_protector
  marked-guards k pid p q = rw q (marks-guards k pid)

  tracked-guards :
      (k : Manager e) (pid j : ℕ) (p : Protector (Manager e) BpfError)
      → p ≡ bpf_protector e
      → is_guarded e laws (p.track_pid k pid).0 j ≡ is_guarded e laws k j
  unfolding bpf_protector
  tracked-guards k pid j p q = rw q (track_pid-is_guarded e laws k pid j)

  not_false : ¬ (true ≡ false)
  not_false z = cc

  unchanged : (t : ℕ) (o : Option ℕ) → o ≡ some t → ¬ (recycled t o ≡ true)
  unchanged t o q c = absurd (ground arith)

  pub advance-IsSteady :
      (stat : Option Bytes) (cred : Ucred) (req : Request) (p : Phase) (w : World (Manager e) W)
      → Steady (process_start_time stat) w cred.pid p
      → Steady
          (process_start_time stat)
          (advance s stat cred req p w).0
          cred.pid
          (advance s stat cred req p w).1
  unfolding advance issue
  advance-IsSteady stat cred req idle w h = h
  advance-IsSteady stat cred req arrived w h =
      unpromised-IsSteady e laws _ w cred.pid _ (begin-IsUnpromised cred req w)
  advance-IsSteady stat cred req (reading m) w h = elim (Option-cases (process_start_time stat)) [
    | inl q ↦ rw (q, advance) (record { steady = λ t z. cc; kept = λ z. cc; stays = refl })
    | inr (t, q) ↦ rw (q, advance) (record { steady = λ t z. z; kept = λ z. cc; stays = refl })
  ]
  advance-IsSteady stat cred req (marking m t) w h = record {
    steady = h.steady;
    kept = marked-guards w.kernel cred.pid s.protector by_bpf;
    stays = refl;
  }
  advance-IsSteady stat cred req (tracking m t q) w h = record {
    steady = h.steady;
    kept = λ z. tracked-guards w.kernel cred.pid cred.pid s.protector by_bpf ∙ h.kept z;
    stays = refl;
  }
  advance-IsSteady stat cred req (rereading m t q) w h =
      elim (Bool-cases (recycled t (process_start_time stat))) [
        | inl c ↦ absurd (unchanged t (process_start_time stat) (h.steady t refl) c)
        | inr c ↦ rw (c, advance) (record { steady = λ u z. cc; kept = h.kept; stays = refl })
      ]
  advance-IsSteady stat cred req rolling_back w h = absurd (not_false h.stays)
  advance-IsSteady stat cred req (ending m q) w h =
      elim (Bool-cases (not q && s.cfg.require_protection)) [
        | inl c ↦ rw (c, advance) (record { steady = h.steady; kept = λ z. cc; stays = refl })
        | inr c ↦ rw (c, advance) (record { steady = h.steady; kept = h.kept; stays = refl })
      ]
  advance-IsSteady stat cred req (replied r) w h = h

  -- Its own accesses take no protection from it either.
  pub advance-guards_own :
      (stat : Option Bytes) (cred : Ucred) (req : Request) (p : Phase) (w : World (Manager e) W)
      → rolls_back p ≡ false
      → guards w cred.pid ≡ true
      → guards (advance s stat cred req p w).0 cred.pid ≡ true
  unfolding advance issue bpf_protector
  advance-guards_own stat cred req idle w r h = h
  advance-guards_own stat cred req arrived w r h =
      ap (λ k. is_guarded e laws k cred.pid) (begin-IsUnpromised cred req w).kernel ∙ h
  advance-guards_own stat cred req (reading m) w r h = ground arith
  advance-guards_own stat cred req (marking m t) w r h =
      rw by_bpf (ground (arith, protect_pid-is_guarded e laws w.kernel cred.pid cred.pid))
  advance-guards_own stat cred req (tracking m t q) w r h =
      tracked-guards w.kernel cred.pid cred.pid s.protector by_bpf ∙ h
  advance-guards_own stat cred req (rereading m t q) w r h = ground arith
  advance-guards_own stat cred req rolling_back w r h = absurd (not_false r)
  advance-guards_own stat cred req (ending m q) w r h = ground arith
  advance-guards_own stat cred req (replied r) w z h = h
