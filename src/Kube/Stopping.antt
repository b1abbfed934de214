-- ===== src/Kube/Stopping.antt =====
-- internal/kube/pods.go: `watchLoop` and `Stop` where the context of the watch ends.
use x.Base.{
  ℕ, zero, suc, ◌+◌, ◌-◌, ◌*◌, ◌<◌, ◌≡◌, refl, ap, ◌∙◌, Bool, true, false, not, List, [], ◌∷◌, ◌++◌,
  Option, none, some, arith, if◌then◌else◌, leb, ◌==◌, Bytes, length,
}
use x.Kube.Watch.{
  Watcher, Version, ListReply, list, WatchError, is_expired, min_backoff, watch_once, Loop, Turn,
  after_watch, retry, turn, watch_loop,
}

-- `ctx.Err() != nil` at the check with this number, for a context that the first `unseen` checks find going.
unfoldable pub ended : ℕ → ℕ → Bool
ended unseen check = leb unseen check

-- `sleepCtx` at such a check: whether the delay was waited for.
unfoldable pub sleep_ctx : ℕ → ℕ → Bool
unfolding ended
sleep_ctx unseen check = not (ended unseen check)

-- `relist`.
unfoldable pub relist : ListReply → Watcher → Watcher × Version
unfolding list
relist reply w = list reply w

-- The rest of a turn after its watch, from the switch on.
unfoldable pub switch : ℕ → ListReply → Loop → Watcher × Bytes × Option WatchError → Loop × Bool
unfolding retry sleep_ctx is_expired ended
switch unseen reply l (w, next, e) =
    let watched = record l { watcher = w } in
    if ended unseen 1 then (watched, true) else elim e [
      | none ↦ (record l { watcher = w; resource_version = next; backoff = min_backoff }, false)
      | some err ↦
          let l' = record l {
            watcher = w;
            resource_version = if is_expired err then [] else l.resource_version;
          } in
          if not (sleep_ctx unseen 2) then (l', true) else (retry reply l', false)
    ]

-- One turn of `watchLoop`, and whether it returns in it. Its checks are at the top, after the watch and
-- in the delay.
unfoldable pub turn_until : ℕ → Turn → Loop → Loop × Bool
unfolding switch watch_once ended
turn_until unseen t l =
    if ended unseen 0
    then (l, true)
    else switch unseen t.relist l (watch_once t.watch l.resource_version l.watcher)

-- `watchLoop` over these turns, and whether it has returned.
unfoldable pub watch_until : ℕ → List Turn → Loop → Loop × Bool
unfolding turn_until
watch_until unseen [] l = (l, false)
watch_until unseen (t ∷ ts) l =
    let (l', returned) = turn_until unseen t l in
    let rest = watch_until (unseen - 3) ts l' in if returned then (l', true) else rest

-- What `Start` leaves in the watcher for `Stop`: `cancel` is not nil, and the loop has closed `done`.
pub record Control : Type 0 where
  pub started : Bool
  pub cancelled : Bool
  pub done : Bool

-- `Stop`: it cancels the context and waits for the loop, which has these turns after it.
unfoldable pub stop : ℕ → List Turn → Loop → Control → Loop × Control
unfolding watch_until
stop unseen ts l h =
    if not h.started
    then (l, h)
    else let (l', returned) = watch_until unseen ts l in
      (l', record h { cancelled = true; done = returned })

ended_later : (n i : ℕ) → i < n → ended n i ≡ false
unfolding ended
ended_later n i h = ground arith

-- A turn none of whose checks finds the context ended.
switch-unseen :
    (n : ℕ) (reply : ListReply) (l : Loop) (r : Watcher × Bytes × Option WatchError)
    → 2 < n
    → switch n reply l r ≡ (after_watch reply l r, false)
unfolding switch sleep_ctx
switch-unseen n reply l (w, next, none) h = rw (ended_later n 1 (omega (arith, h))) refl
switch-unseen n reply l (w, next, some e) h =
    rw (ended_later n 1 (omega (arith, h)), ended_later n 2 h) refl

turn_until-unseen : (n : ℕ) (t : Turn) (l : Loop) → 2 < n → turn_until n t l ≡ (turn t l, false)
unfolding turn_until turn
turn_until-unseen n t l h =
    rw (ended_later n 0 (omega (arith, h)))
      (switch-unseen n t.relist l (watch_once t.watch l.resource_version l.watcher) h)

watch_until-unseen :
    (n : ℕ) (ts rest : List Turn) (l : Loop)
    → watch_until (3 * length ts + n) (ts ++ rest) l ≡ watch_until n rest (watch_loop ts l)
unfolding watch_until watch_loop
watch_until-unseen n [] rest l = ap (λ m. watch_until m rest l) (omega arith)
watch_until-unseen n (t ∷ ts) rest l =
    rw (turn_until-unseen (3 * suc (length ts) + n) t l (omega arith)) (
      ap (λ m. watch_until m (ts ++ rest) (turn t l)) (omega arith)
      ∙ watch_until-unseen n ts rest (turn t l))

-- The cache where the context has ended at some check of a turn, or its top.
abbrev pub cached : ℕ → Turn → Loop → Watcher
unfolding watch_once
cached m t l = if m == 0 then l.watcher else (watch_once t.watch l.resource_version l.watcher).0

last_turns :
    (m : ℕ) (t u : Turn) (rest : List Turn) (l : Loop)
    → m < 3
    → let (l', returned) = watch_until m (t ∷ u ∷ rest) l in
      (returned ≡ true) × (l'.watcher ≡ cached m t l)
unfolding watch_until turn_until switch sleep_ctx ended
last_turns zero t u rest l h = (refl, refl)
last_turns (suc zero) t u rest l h = (refl, refl)
last_turns (suc (suc zero)) t u rest l h = go (watch_once t.watch l.resource_version l.watcher)
  where
    go :
        (r : Watcher × Bytes × Option WatchError)
        → let (l', returned) = switch 2 t.relist l r in
          let (l'', returned') =
            if returned then (l', true) else watch_until (2 - 3) (u ∷ rest) l' in
          (returned' ≡ true) × (l''.watcher ≡ r.0)
    go (w, next, none) = (refl, refl)
    go (w, next, some e) = (refl, refl)
last_turns (suc (suc (suc m))) t u rest l h = absurd (omega (arith, h))

-- Where a watch was started and its context has ended from some check on, the `m`-th of the turn after
-- those of `ts`, the loop that `Stop` waits for returns no later than at the top of the next turn, whatever
-- turns would follow. The cache is then what the turns of `ts` left, with the events of one more watch
-- unless the first check of that turn already finds the context ended, and with no list after it.
pub stop-returns :
    (ts : List Turn) (m : ℕ) (t u : Turn) (rest : List Turn) (l : Loop) (h : Control)
    → h.started ≡ true
    → m < 3
    → let (l', h') = stop (3 * length ts + m) (ts ++ (t ∷ u ∷ rest)) l h in
      (h'.done ≡ true) × (l'.watcher ≡ cached m t (watch_loop ts l))
unfolding stop
stop-returns ts m t u rest l h s k =
    rw (s, watch_until-unseen m ts (t ∷ u ∷ rest) l) (last_turns m t u rest (watch_loop ts l) k)
