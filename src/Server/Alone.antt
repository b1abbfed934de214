-- ===== src/Server/Alone.antt =====
-- One goroutine of the server with no other in between: it does what `handle` does.
use x.Base.{
  ℕ, ◌≡◌, refl, Bool, not, ◌&&◌, arith, Bool-cases, inl, inr, Option-cases, Bytes, is_some,
}
use x.Text.{base}
use x.Secrets.{Match}
use x.Server.Peer.{process_start_time}
use x.Server.Handle.{
  Ucred, Request, Response, Server, World, StatReads, recycled, identify, confirm, guard_and_issue,
  serve, names_nothing, handle,
}
use x.Server.Machine.{
  Phase, arrived, reading, rereading, replied, decide, begin, advance, undisturbed,
}

module _ {S E W : Type 0} (s : Server S E W) (reads : StatReads) (cred : Ucred)
    (req : Request) where
  abbrev answered : World S W × Response → World S W × Phase
  answered r = (r.0, replied r.1)

  abbrev rest : ℕ → World S W × Phase → World S W × Phase
  rest n r = undisturbed s n reads cred req r.1 r.0

  confirm-undisturbed :
      (w : World S W) (m : Match) (start : ℕ) (protected : Bool)
      → undisturbed s 2 reads cred req (rereading m start protected) w
        ≡ answered (confirm s reads w cred.pid m start protected)
  unfolding undisturbed advance confirm
  confirm-undisturbed w m start protected =
      elim (Bool-cases (recycled start (process_start_time reads.after))) [
        | inl c ↦ rw c refl
        | inr c ↦ elim (Bool-cases (not protected && s.cfg.require_protection)) [
          | inl p ↦ rw (c, p) refl
          | inr p ↦ rw (c, p) refl
        ]
      ]

  reading-undisturbed :
      (w : World S W) (m : Match)
      → undisturbed s 5 reads cred req (reading m) w
        ≡ answered (guard_and_issue s reads w cred.pid m)
  unfolding undisturbed advance guard_and_issue
  reading-undisturbed w m = elim (Option-cases (process_start_time reads.before)) [
    | inl b ↦ rw (b, guard_and_issue) refl
    | inr (start, b) ↦ rw (b, guard_and_issue) (confirm-undisturbed _ m start _)
  ]

  decide-undisturbed :
      (w : World S W) (binary : Bytes) (m : Match)
      → rest 5 (decide s w cred.pid binary m) ≡ answered (serve s reads w cred.pid binary m)
  unfolding decide undisturbed advance serve
  decide-undisturbed w binary m = ground (arith, reading-undisturbed w m)

  begin-undisturbed :
      (w : World S W) → rest 5 (begin s cred req w) ≡ answered (handle s reads cred req w)
  unfolding begin undisturbed advance handle
  begin-undisturbed w = elim (Bool-cases (names_nothing s req.binary)) [
    | inl a ↦ rw (a, begin) refl
    | inr a ↦ elim (Bool-cases (s.cfg.require_pod_identity && (identify s cred.pid).1)) [
      | inl b ↦ rw (a, b, begin) refl
      | inr b ↦
          elim (Bool-cases
            (s.cfg.require_pod_identity && not (is_some (identify s cred.pid).0.pod))) [
              | inl c ↦ rw (a, b, c, begin) refl
              | inr c ↦ rw (a, b, c, begin) (decide-undisturbed w (base req.binary) _)
            ]
    ]
  ]

  -- With no other access in between, six accesses of a goroutine that has decoded its request bring it
  -- to the response of `handle`, in the world that `handle` leaves.
  pub handle-undisturbed :
      (w : World S W)
      → undisturbed s 6 reads cred req arrived w
        ≡ ((handle s reads cred req w).0, replied (handle s reads cred req w).1)
  unfolding undisturbed advance
  handle-undisturbed w = begin-undisturbed w
