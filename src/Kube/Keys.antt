-- ===== src/Kube/Keys.antt =====
-- Every pod of the cache is under its own UID, and no UID is there twice or empty.
use x.Base.{
  ◌≡◌, ◌≢◌, refl, ◌∙◌, Bool, ◌||◌, List, [], ◌∷◌, Option, none, some, arith, if◌then◌else◌, Bytes,
  codes, eqb, eqb_iff, is_empty, is_empty-false, Assoc, lookup, insert, delete, All, Distinct,
  insert-Distinct, delete-Distinct, Bool-cases, inl, inr,
}
use x.Kube.{Pod}
use x.Kube.Watch.{
  PodObject, to_pod, Watcher, put, forget, WatchError, is_expired, ListReply, list_failed, listed,
  index_items, list, WatchEvent, apply, next_version, Stream, refused, stream, watch_events,
  watch_once, Loop, Turn, retry, after_watch, turn, watch_loop, lookup_pod,
}

abbrev IsOwn : Bytes × Pod → Type 0
IsOwn e = (e.1.uid ≡ e.0) × (e.0 ≢ [])

abbrev pub AreKeyed : Assoc Bytes Pod → Type 0
AreKeyed m = All (λ e. (e.1.uid ≡ e.0) × (e.0 ≢ [])) m × Distinct eqb m

insert-All :
    (k : Bytes) (p : Pod) (m : Assoc Bytes Pod)
    → IsOwn (k, p)
    → All IsOwn m
    → All IsOwn (insert eqb k p m)
unfolding insert
insert-All k p [] i h = (i, tt)
insert-All k p ((j, w) ∷ m) i h = ground (arith, insert-All k p m i)

delete-All : (k : Bytes) (m : Assoc Bytes Pod) → All IsOwn m → All IsOwn (delete eqb k m)
unfolding delete
delete-All k [] h = tt
delete-All k ((j, w) ∷ m) h = ground (arith, delete-All k m)

insert-AreKeyed :
    (k : Bytes) (p : Pod) (m : Assoc Bytes Pod)
    → p.uid ≡ k
    → k ≢ []
    → AreKeyed m
    → AreKeyed (insert eqb k p m)
insert-AreKeyed k p m q n h = (insert-All k p m (q, n) h.0, insert-Distinct eqb eqb_iff k p m h.1)

delete-AreKeyed : (k : Bytes) (m : Assoc Bytes Pod) → AreKeyed m → AreKeyed (delete eqb k m)
delete-AreKeyed k m h = (delete-All k m h.0, delete-Distinct eqb eqb_iff k m h.1)

index_items-AreKeyed :
    (items : List PodObject) (m : Assoc Bytes Pod) → AreKeyed m → AreKeyed (index_items items m)
unfolding index_items to_pod
index_items-AreKeyed [] m h = h
index_items-AreKeyed (item ∷ items) m h = elim (Bool-cases (is_empty item.uid)) [
  | inl q ↦ rw (q, index_items) (index_items-AreKeyed items m h)
  | inr q ↦
      rw (q, index_items)
        (index_items-AreKeyed items (insert eqb item.uid (to_pod item) m)
          (insert-AreKeyed item.uid (to_pod item) m refl ((is_empty-false item.uid).0 q) h))
]

list-AreKeyed : (r : ListReply) (w : Watcher) → AreKeyed w.by_uid → AreKeyed (list r w).0.by_uid
unfolding list
list-AreKeyed (list_failed e) w h = h
list-AreKeyed (listed v items) w h = index_items-AreKeyed items [] (tt, tt)

put-AreKeyed :
    (o : PodObject) (w : Watcher)
    → o.uid ≢ []
    → AreKeyed w.by_uid
    → AreKeyed (put (to_pod o) w).by_uid
unfolding put to_pod
put-AreKeyed o w n h = insert-AreKeyed o.uid (to_pod o) w.by_uid refl n h

forget-AreKeyed : (uid : Bytes) (w : Watcher) → AreKeyed w.by_uid → AreKeyed (forget uid w).by_uid
unfolding forget
forget-AreKeyed uid w h = ground (arith, delete-AreKeyed uid w.by_uid h)

apply-AreKeyed : (ev : WatchEvent) (w : Watcher) → AreKeyed w.by_uid → AreKeyed (apply ev w).by_uid
unfolding apply
apply-AreKeyed ev w h =
    elim (Bool-cases (eqb ev.kind (codes "ADDED") || eqb ev.kind (codes "MODIFIED"))) [
      | inl a ↦ elim (Bool-cases (is_empty ev.object.uid)) [
        | inl b ↦ rw (a, b, apply) h
        | inr b ↦ rw (a, b, apply) (put-AreKeyed ev.object w ((is_empty-false ev.object.uid).0 b) h)
      ]
      | inr a ↦ elim (Bool-cases (eqb ev.kind (codes "DELETED"))) [
        | inl b ↦ rw (a, b, apply) (forget-AreKeyed ev.object.uid w h)
        | inr b ↦ rw (a, b, apply) h
      ]
    ]

watch_events-AreKeyed :
    (evs : List WatchEvent) (clean : Bool) (rv : Bytes) (w : Watcher)
    → AreKeyed w.by_uid
    → AreKeyed (watch_events evs clean rv w).0.by_uid
unfolding watch_events
watch_events-AreKeyed [] clean rv w h = h
watch_events-AreKeyed (ev ∷ evs) clean rv w h = elim (Bool-cases (eqb ev.kind (codes "ERROR"))) [
  | inl q ↦ rw (q, watch_events) h
  | inr q ↦
      rw (q, watch_events)
        (watch_events-AreKeyed evs clean (next_version rv ev) (apply ev w) (apply-AreKeyed ev w h))
]

watch_once-AreKeyed :
    (s : Stream) (rv : Bytes) (w : Watcher)
    → AreKeyed w.by_uid
    → AreKeyed (watch_once s rv w).0.by_uid
unfolding watch_once
watch_once-AreKeyed (refused e) rv w h = h
watch_once-AreKeyed (stream evs clean) rv w h = watch_events-AreKeyed evs clean rv w h

retry-AreKeyed :
    (reply : ListReply) (l : Loop)
    → AreKeyed l.watcher.by_uid
    → AreKeyed (retry reply l).watcher.by_uid
unfolding retry list
retry-AreKeyed (list_failed e) l h = ground (arith, h)
retry-AreKeyed (listed v items) l h = ground (arith, h, list-AreKeyed (listed v items) l.watcher h)

after_watch-AreKeyed :
    (reply : ListReply) (l : Loop) (r : Watcher × Bytes × Option WatchError)
    → AreKeyed r.0.by_uid
    → AreKeyed (after_watch reply l r).watcher.by_uid
after_watch-AreKeyed reply l (w, next, none) h = h
after_watch-AreKeyed reply l (w, next, some e) h =
    retry-AreKeyed reply
      (record l { watcher = w; resource_version = if is_expired e then [] else l.resource_version })
      h

turn-AreKeyed :
    (t : Turn) (l : Loop) → AreKeyed l.watcher.by_uid → AreKeyed (turn t l).watcher.by_uid
unfolding turn
turn-AreKeyed t l h =
    after_watch-AreKeyed t.relist l (watch_once t.watch l.resource_version l.watcher)
      (watch_once-AreKeyed t.watch l.resource_version l.watcher h)

pub watch_loop-AreKeyed :
    (ts : List Turn) (l : Loop)
    → AreKeyed l.watcher.by_uid
    → AreKeyed (watch_loop ts l).watcher.by_uid
unfolding watch_loop
watch_loop-AreKeyed [] l h = h
watch_loop-AreKeyed (t ∷ ts) l h = watch_loop-AreKeyed ts (turn t l) (turn-AreKeyed t l h)

lookup-AreKeyed :
    (uid : Bytes) (p : Pod) (m : Assoc Bytes Pod)
    → All IsOwn m
    → lookup eqb uid m ≡ some p
    → (p.uid ≡ uid) × (uid ≢ [])
unfolding lookup
lookup-AreKeyed uid p [] h q = absurd (cc)
lookup-AreKeyed uid p ((j, w) ∷ m) h q = elim (Bool-cases (eqb j uid)) [
  | inl e ↦ found ((eqb_iff j uid).0 e) (rw (e, lookup) at q)
  | inr e ↦ lookup-AreKeyed uid p m h.1 (rw (e, lookup) at q)
]
  where
    found : j ≡ uid → some w ≡ some p → (p.uid ≡ uid) × (uid ≢ [])
    found k r = (ground (arith, h.0.0), λ z. h.0.1 (k ∙ z))

-- From a cache in which every pod is under its own UID, once each, and none under the empty one:
-- whatever the API server sends to the watch loop, a pod that a lookup gives has the UID that was looked
-- up, and that is not empty.
pub lookup_pod-watch_loop :
    (ts : List Turn) (l : Loop) (uid : Bytes) (p : Pod)
    → AreKeyed l.watcher.by_uid
    → lookup_pod (watch_loop ts l).watcher uid ≡ some p
    → (p.uid ≡ uid) × (uid ≢ [])
unfolding lookup_pod
lookup_pod-watch_loop ts l uid p h q =
    lookup-AreKeyed uid p (watch_loop ts l).watcher.by_uid (watch_loop-AreKeyed ts l h).0 q
