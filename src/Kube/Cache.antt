-- ===== src/Kube/Cache.antt =====
-- What the watcher's cache holds after a list, after a watch, and after a re-list that fails.
use x.Base.{
  ◌≡◌, ◌≢◌, refl, sym, ap, ◌∙◌, Bool, true, false, not, ◌||◌, List, [], ◌∷◌, Option, none, some,
  arith, if◌then◌else◌, Bool-cases, inl, inr, Bytes, codes, eqb, eqb_iff, is_empty, is_empty-false,
  Assoc, lookup, lookup-insert, lookup-delete, insert,
}
use x.Kube.{Pod}
use x.Kube.Watch.{
  PodObject, to_pod, Watcher, lookup_pod, put, forget, WatchError, is_expired, ListReply,
  list_failed, listed, index_items, list, WatchEvent, next_version, apply, Stream, refused, stream,
  watch_events, watch_once, Loop, retry, turn, watch_loop,
}

abbrev pub or_before : {A : Type 0} → Option A → A → A
or_before none a = a
or_before (some b) a = b

abbrev pub or_earlier : {A : Type 0} → Option A → Option A → Option A
or_earlier none o = o
or_earlier (some a) o = some a

-- What an event says of the pod with a UID: nothing, that it is gone, or what it is.
unfoldable pub says : Bytes → WatchEvent → Option (Option Pod)
says uid ev =
    if not (eqb ev.object.uid uid)
    then none
    else if eqb ev.kind (codes "ADDED") || eqb ev.kind (codes "MODIFIED")
    then some (some (to_pod ev.object))
    else if eqb ev.kind (codes "DELETED")
    then some none
    else none

-- What events say last of it, up to the first that is an error.
unfoldable pub latest : Bytes → List WatchEvent → Option (Option Pod)
latest uid [] = none
latest uid (ev ∷ evs) =
    let rest = latest uid evs in
    if eqb ev.kind (codes "ERROR") then none else or_earlier rest (says uid ev)

-- The last item of a list with a UID.
unfoldable pub item_with : Bytes → List PodObject → Option Pod
item_with uid [] = none
item_with uid (item ∷ items) =
    or_earlier (item_with uid items) (if eqb item.uid uid then some (to_pod item) else none)

lookup_pod-put :
    (uid : Bytes) (p : Pod) (w : Watcher)
    → lookup_pod (put p w) uid ≡ (if eqb p.uid uid then some p else lookup_pod w uid)
unfolding lookup_pod put
lookup_pod-put uid p w = lookup-insert eqb eqb_iff p.uid uid p w.by_uid

lookup_pod-forget :
    (uid gone : Bytes) (w : Watcher)
    → is_empty gone ≡ false
    → lookup_pod (forget gone w) uid ≡ (if eqb gone uid then none else lookup_pod w uid)
unfolding lookup_pod forget
lookup_pod-forget uid gone w n = rw n (lookup-delete eqb eqb_iff gone uid w.by_uid)

to_pod-uid : (o : PodObject) → (to_pod o).uid ≡ o.uid
unfolding to_pod
to_pod-uid o = refl

-- An event with no UID changes nothing.
apply_unnamed : (ev : WatchEvent) (w : Watcher) → is_empty ev.object.uid ≡ true → apply ev w ≡ w
unfolding apply forget
apply_unnamed ev w n = ground arith

unnamed : (u uid : Bytes) → uid ≢ [] → is_empty u ≡ true → eqb u uid ≡ false
unfolding eqb
unnamed [] [] h n = absurd (h refl)
unnamed [] (c ∷ uid) h n = refl
unnamed (d ∷ u) uid h n = ground arith

lookup_pod-apply :
    (uid : Bytes) (ev : WatchEvent) (w : Watcher)
    → uid ≢ []
    → lookup_pod (apply ev w) uid ≡ or_before (says uid ev) (lookup_pod w uid)
unfolding apply says
lookup_pod-apply uid ev w h = elim (Bool-cases (is_empty ev.object.uid)) [
  | inl n ↦ ground (arith, apply_unnamed ev w n, unnamed ev.object.uid uid h n)
  | inr n ↦ ground (
    arith,
    lookup_pod-put uid (to_pod ev.object) w,
    lookup_pod-forget uid ev.object.uid w n,
    to_pod-uid ev.object,
  )
]

lookup_pod-watch_events :
    (uid : Bytes) (evs : List WatchEvent) (clean : Bool) (rv : Bytes) (w : Watcher)
    → uid ≢ []
    → lookup_pod (watch_events evs clean rv w).0 uid ≡ or_before (latest uid evs) (lookup_pod w uid)
unfolding watch_events latest
lookup_pod-watch_events uid [] clean rv w h = refl
lookup_pod-watch_events uid (ev ∷ evs) clean rv w h =
    elim (Bool-cases (eqb ev.kind (codes "ERROR"))) [
      | inl e ↦ rw e refl
      | inr e ↦ ground (
        arith,
        lookup_pod-watch_events uid evs clean (next_version rv ev) (apply ev w) h,
        lookup_pod-apply uid ev w h,
      )
    ]

abbrev pub events_of : Stream → List WatchEvent
events_of (refused e) = []
events_of (stream evs clean) = evs

-- However a watch ends, the cache has under each UID that is not empty what the events before an
-- ERROR event say last of it, and what it had before if they do not mention it.
pub lookup_pod-watch_once :
    (uid : Bytes) (s : Stream) (rv : Bytes) (w : Watcher)
    → uid ≢ []
    → lookup_pod (watch_once s rv w).0 uid ≡ or_before (latest uid (events_of s)) (lookup_pod w uid)
unfolding watch_once latest
lookup_pod-watch_once uid (refused e) rv w h = refl
lookup_pod-watch_once uid (stream evs clean) rv w h = lookup_pod-watch_events uid evs clean rv w h

lookup-index_items :
    (uid : Bytes) (items : List PodObject) (fresh : Assoc Bytes Pod)
    → uid ≢ []
    → lookup eqb uid (index_items items fresh)
      ≡ or_earlier (item_with uid items) (lookup eqb uid fresh)
unfolding index_items item_with
lookup-index_items uid [] fresh h = refl
lookup-index_items uid (item ∷ items) fresh h = elim (Bool-cases (is_empty item.uid)) [
  | inl n ↦ ground (arith, lookup-index_items uid items fresh h, unnamed item.uid uid h n)
  | inr n ↦ ground (
    arith,
    lookup-index_items uid items (insert_item) h,
    lookup-insert eqb eqb_iff item.uid uid (to_pod item) fresh,
  )
]
  where
    insert_item : Assoc Bytes Pod
    insert_item = insert eqb item.uid (to_pod item) fresh

lookup_empty-index_items :
    (items : List PodObject) (fresh : Assoc Bytes Pod)
    → lookup eqb [] (index_items items fresh) ≡ lookup eqb [] fresh
unfolding index_items
lookup_empty-index_items [] fresh = refl
lookup_empty-index_items (item ∷ items) fresh = elim (Bool-cases (is_empty item.uid)) [
  | inl n ↦ rw n (lookup_empty-index_items items fresh)
  | inr n ↦ rw n (
      lookup_empty-index_items items (insert eqb item.uid (to_pod item) fresh)
      ∙ lookup-insert eqb eqb_iff item.uid [] (to_pod item) fresh
      ∙ ground (arith, eqb_iff item.uid [], (is_empty-false item.uid).0 n))
]

-- No pod has the empty UID, even where the API server sends one.
pub lookup_empty-list :
    (v : Bytes) (items : List PodObject) (w : Watcher)
    → lookup_pod (list (listed v items) w).0 [] ≡ none
unfolding list lookup_pod lookup
lookup_empty-list v items w = lookup_empty-index_items items []

-- A list replaces the cache: it has under each UID that is not empty the last item of the list with
-- that UID, and nothing if there is none.
pub lookup_pod-list :
    (uid v : Bytes) (items : List PodObject) (w : Watcher)
    → uid ≢ []
    → lookup_pod (list (listed v items) w).0 uid ≡ item_with uid items
unfolding list lookup_pod
lookup_pod-list uid v items w h = ground (arith, lookup-index_items uid items [] h)

-- After a watch that expired and a re-list that failed, the loop watches on all the same: a pod that
-- the next watch, which ends cleanly, does not mention stays in the cache, and the loop goes on from
-- the version of that watch.
pub watch_loop_stale :
    (uid : Bytes) (e f : WatchError) (evs : List WatchEvent) (reply : ListReply) (l : Loop)
    (w : Watcher) (rv : Bytes)
    → uid ≢ []
    → is_expired e ≡ true
    → latest uid evs ≡ none
    → watch_events evs true [] l.watcher ≡ (w, rv, none)
    → let l' =
        watch_loop
          (record { watch = refused e; relist = list_failed f }
            ∷ record { watch = stream evs true; relist = reply }
            ∷ [])
          l in
      (lookup_pod l'.watcher uid ≡ lookup_pod l.watcher uid) × (l'.resource_version ≡ rv)
unfolding watch_loop turn watch_once retry list
watch_loop_stale uid e f evs reply l w rv h x n c =
    rw (x, c)
      (
        ap (λ r. lookup_pod r.0 uid) (sym c)
            ∙ lookup_pod-watch_events uid evs true [] l.watcher h
            ∙ ap (λ o. or_before o (lookup_pod l.watcher uid)) n,
        refl,
      )
