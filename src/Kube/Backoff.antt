-- ===== src/Kube/Backoff.antt =====
-- The delays of the watch loop.
use x.Base.{ℕ, ◌≤◌, ◌≡◌, refl, List, [], ◌∷◌, Option, none, some, arith, if◌then◌else◌, Bytes, All}
use x.Kube.Watch.{
  Watcher, WatchError, is_expired, ListReply, list_failed, listed, list, watch_once, min_backoff,
  max_backoff, Loop, Turn, retry, turn, watch_loop,
}

-- A delay between one second and thirty.
abbrev pub IsBackoff : ℕ → Type 0
IsBackoff b = (min_backoff ≤ b) × (b ≤ max_backoff)

abbrev pub AreBounded : Loop → Type 0
AreBounded l = IsBackoff l.backoff × All IsBackoff l.sleeps

retry-AreBounded : (reply : ListReply) (l : Loop) → AreBounded l → AreBounded (retry reply l)
unfolding retry list
retry-AreBounded (list_failed e) l h = ground arith
retry-AreBounded (listed v items) l h = ground arith

turn-AreBounded : (t : Turn) (l : Loop) → AreBounded l → AreBounded (turn t l)
unfolding turn
turn-AreBounded t l h = go (watch_once t.watch l.resource_version l.watcher) refl
  where
    go :
        (r : Watcher × Bytes × Option WatchError)
        → watch_once t.watch l.resource_version l.watcher ≡ r
        → AreBounded (turn t l)
    go (w, next, none) e = rw (turn, e) (ground arith)
    go (w, next, some err) e =
        rw (turn, e)
          (retry-AreBounded t.relist
            (record l {
              watcher = w;
              resource_version = if is_expired err then [] else l.resource_version;
            })
            h)

-- From a loop whose backoff and sleeps so far are between one second and thirty, whatever the API
-- server sends, every later sleep is so too.
pub watch_loop-AreBounded :
    (ts : List Turn) (l : Loop) → AreBounded l → AreBounded (watch_loop ts l)
unfolding watch_loop
watch_loop-AreBounded [] l h = h
watch_loop-AreBounded (t ∷ ts) l h = watch_loop-AreBounded ts (turn t l) (turn-AreBounded t l h)
