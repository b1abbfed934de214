-- ===== src/Shim/Fetch.antt =====
-- The retry loop of `fetchSecrets`: that it ends, and with what.
use x.Base.{
  ℕ, zero, suc, ◌+◌, ◌-◌, ◌<◌, ◌≤◌, ◌≡◌, refl, true, false, some, arith, Bool-cases, inl, inr, ltb,
  ◌==◌,
}
use x.Server.Handle.{Response}
use x.Shim.{
  Attempt, unreachable, broken, answered, FetchError, timed_out, connect_failed, exchange_failed,
  agent_unreachable, refused_by_agent, Fetched, response, failed, request_once, is_connect_error,
  Round, fetch_from, fetch_secrets,
}

module _ (rounds : ℕ → Round) (deadline retry_interval : ℕ) where
  -- When the attempt of round `i` starts, and when the next round would begin, if the round begins at `now`.
  abbrev pub attempt_at : ℕ → ℕ → ℕ
  attempt_at i now = now + (rounds i).late

  abbrev pub retry_at : ℕ → ℕ → ℕ
  retry_at i now = attempt_at i now + (rounds i).took + retry_interval

  -- Round `i` is made and begins at `now`: it is the first, or the attempt of the round before was made in
  -- time and found no agent, and the wait after it ended before the deadline.
  pub data Begins : ℕ → ℕ → Type 0 where
    first : Begins 0 0
    again :
        (i now : ℕ)
        → Begins i now
        → (rounds i).attempt ≡ unreachable
        → attempt_at i now < deadline
        → retry_at i now < deadline
        → Begins (suc i) (retry_at i now)

  -- How round `i`, begun at `now`, ends the loop with a result.
  abbrev pub Decides : ℕ → ℕ → Fetched → Type 0
  Decides i now (response r) =
      (attempt_at i now < deadline) × ((rounds i).attempt ≡ answered r) × (r.ok ≡ true)
  Decides i now (failed timed_out) = deadline ≤ attempt_at i now
  Decides i now (failed connect_failed) = ⊥
  Decides i now (failed exchange_failed) =
      (attempt_at i now < deadline) × ((rounds i).attempt ≡ broken)
  Decides i now (failed agent_unreachable) =
      (attempt_at i now < deadline)
      × ((rounds i).attempt ≡ unreachable)
      × (deadline ≤ retry_at i now)
  Decides i now (failed (refused_by_agent e)) =
      (r : Response) × (attempt_at i now < deadline)
      × ((rounds i).attempt ≡ answered r)
      × (r.ok ≡ false)
      × (r.error ≡ e)

  -- A result that a round which was made decides.
  abbrev pub IsAccounted : Fetched → Type 0
  IsAccounted f = (i : ℕ) × (now : ℕ) × Begins i now × Decides i now f

  -- What `requestOnce` returns for the attempt of round `i`, begun at `now`.
  data Exchange (i now : ℕ) : Type 0 where
    connecting :
        request_once (deadline - attempt_at i now) (rounds i).attempt ≡ failed connect_failed
        → (rounds i).attempt ≡ unreachable
        → attempt_at i now < deadline
        → Exchange i now
    accepted :
        (r : Response)
        → request_once (deadline - attempt_at i now) (rounds i).attempt ≡ response r
        → Decides i now (response r)
        → Exchange i now
    final :
        (e : FetchError)
        → request_once (deadline - attempt_at i now) (rounds i).attempt ≡ failed e
        → is_connect_error e ≡ false
        → Decides i now (failed e)
        → Exchange i now

  answer-Exchange :
      (i now : ℕ) (a : Attempt)
      → (rounds i).attempt ≡ a
      → (deadline - attempt_at i now == 0) ≡ false
      → Exchange i now
  unfolding request_once
  answer-Exchange i now unreachable p z = connecting (rw (z, p) refl) p (ground arith)
  answer-Exchange i now broken p z = final exchange_failed (rw (z, p) refl) refl (ground arith, p)
  answer-Exchange i now (answered r) p z = elim (Bool-cases r.ok) [
    | inl ok ↦ accepted r (rw (z, p, ok) refl) (ground arith, p, ok)
    | inr ok ↦
        final (refused_by_agent r.error) (rw (z, p, ok) refl) refl (r, ground arith, p, ok, refl)
  ]

  exchange : (i now : ℕ) → Exchange i now
  unfolding request_once
  exchange i now = elim (Bool-cases (deadline - attempt_at i now == 0)) [
    | inl z ↦ final timed_out (rw z refl) refl (ground arith)
    | inr z ↦ answer-Exchange i now (rounds i).attempt refl z
  ]

  abbrev Ends : ℕ → ℕ → ℕ → Type 0
  Ends fuel i now =
      (f : Fetched) × (fetch_from rounds deadline retry_interval fuel i now ≡ some f)
      × IsAccounted f

  after_wait :
      (fuel i now : ℕ)
      → request_once (deadline - attempt_at i now) (rounds i).attempt ≡ failed connect_failed
      → ltb (retry_at i now) deadline ≡ true
      → Ends fuel (suc i) (retry_at i now)
      → Ends (suc fuel) i now
  unfolding fetch_from
  after_wait fuel i now e l (f, r, acc) = (f, rw (fetch_from, e, l) r, acc)

  module _ (wait : 0 < retry_interval) where
    -- With an interval between attempts the loop ends before its fuel does.
    fetch_from_total : (fuel i now : ℕ) → Begins i now → deadline - now < fuel → Ends fuel i now
    unfolding fetch_from
    fetch_from_total zero i now b h = absurd (omega arith)
    fetch_from_total (suc fuel) i now b h = elim (exchange i now) [
      | accepted r e d ↦ (response r, rw (fetch_from, e) refl, (i, now, b, d))
      | final err e c d ↦ (failed err, rw (fetch_from, e, c) refl, (i, now, b, d))
      | connecting e u t ↦ elim (Bool-cases (ltb (retry_at i now) deadline)) [
        | inr l ↦ (
          failed agent_unreachable,
          rw (fetch_from, e, l) refl,
          (i, now, b, (t, u, ground arith)),
        )
        | inl l ↦ after_wait fuel i now e l (
            fetch_from_total fuel (suc i) (retry_at i now) (again i now b u t (ground arith))
              (ground arith))
      ]
    ]

-- With an interval between attempts `fetchSecrets` ends, and a round that was made decides the result: each
-- round before it began its attempt before the deadline, found no agent, and waited no longer than that; and
-- the attempt of this one was due too late, or was made and answered, or failed otherwise, or it too found no
-- agent and the next would have come too late.
pub fetch_secrets-IsAccounted :
    (rounds : ℕ → Round) (timeout retry_interval : ℕ)
    → 0 < retry_interval
    → (f : Fetched) × (fetch_secrets rounds timeout retry_interval ≡ some f)
      × IsAccounted rounds timeout retry_interval f
unfolding fetch_secrets
fetch_secrets-IsAccounted rounds timeout retry_interval wait =
    fetch_from_total rounds timeout retry_interval wait (suc timeout) 0 0 first (omega arith)
