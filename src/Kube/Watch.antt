-- ===== src/Kube/Watch.antt =====
-- internal/kube/pods.go: the watcher. What the API server sends is given by its decoded messages.
use x.Base.{
  ℕ, ◌*◌, Bool, true, false, ◌||◌, List, [], ◌∷◌, ◌++◌, Option, none, some, if◌then◌else◌, ltb,
  ◌==◌, Bytes, codes, eqb, is_empty, Assoc, lookup, insert, delete,
}
use x.Text.{to_lower, after_scheme}
use x.Kube.{Pod}

-- `containerStatus`.
pub record ContainerStatus : Type 0 where
  pub name : Bytes
  pub container_id : Bytes

-- `podObject`, its structs flattened.
pub record PodObject : Type 0 where
  pub uid : Bytes
  pub name : Bytes
  pub namespace : Bytes
  pub labels : Assoc Bytes Bytes
  pub resource_version : Bytes
  pub container_statuses : List ContainerStatus
  pub init_container_statuses : List ContainerStatus
  pub ephemeral_container_statuses : List ContainerStatus

abbrev pub or_all : Bytes → Option Bytes → Bytes
or_all s none = s
or_all s (some t) = t

-- `stripRuntimePrefix`.
unfoldable pub strip_runtime_prefix : Bytes → Bytes
unfolding after_scheme to_lower
strip_runtime_prefix id = to_lower (or_all id (after_scheme id))

-- The loop of `toPod` over the container statuses.
unfoldable pub add_containers : List ContainerStatus → Assoc Bytes Bytes → Assoc Bytes Bytes
unfolding strip_runtime_prefix
add_containers [] m = m
add_containers (cs ∷ all) m =
    let id = strip_runtime_prefix cs.container_id in
    if is_empty id || is_empty cs.name
    then add_containers all m
    else add_containers all (insert eqb id cs.name m)

-- `podObject.toPod`.
unfoldable pub to_pod : PodObject → Pod
unfolding add_containers
to_pod p = record {
  uid = p.uid;
  name = p.name;
  namespace = p.namespace;
  labels = p.labels;
  containers =
      add_containers
        (p.container_statuses ++ p.init_container_statuses ++ p.ephemeral_container_statuses) [];
}

-- The state of a `Watcher`.
pub record Watcher : Type 0 where
  pub by_uid : Assoc Bytes Pod
  pub synced : Bool

-- `Watcher.Lookup`; `HasSynced` is the field.
unfoldable pub lookup_pod : Watcher → Bytes → Option Pod
unfolding lookup
lookup_pod w uid = lookup eqb uid w.by_uid

-- `Watcher.put`.
unfoldable pub put : Pod → Watcher → Watcher
unfolding insert
put p w = record w { by_uid = insert eqb p.uid p w.by_uid }

-- `Watcher.delete`.
unfoldable pub forget : Bytes → Watcher → Watcher
unfolding delete
forget uid w = if is_empty uid then w else record w { by_uid = delete eqb uid w.by_uid }

pub data WatchError : Type 0 where
  transport_failed decode_failed watch_expired : WatchError
  api_error : ℕ → WatchError

-- `isExpired`; 410 is `http.StatusGone`.
unfoldable pub is_expired : WatchError → Bool
is_expired watch_expired = true
is_expired (api_error code) = code == 410
is_expired transport_failed = false
is_expired decode_failed = false

-- What `do` and the decoding of the body of a list come to.
pub data ListReply : Type 0 where
  list_failed : WatchError → ListReply
  listed : Bytes → List PodObject → ListReply

-- The loop of `list`.
unfoldable pub index_items : List PodObject → Assoc Bytes Pod → Assoc Bytes Pod
unfolding to_pod insert
index_items [] fresh = fresh
index_items (item ∷ items) fresh =
    if is_empty item.uid
    then index_items items fresh
    else index_items items (insert eqb item.uid (to_pod item) fresh)

pub data Version : Type 0 where
  error : WatchError → Version
  version : Bytes → Version

-- `Watcher.list`.
unfoldable pub list : ListReply → Watcher → Watcher × Version
unfolding index_items
list (list_failed e) w = (w, error e)
list (listed v items) w = (record w { by_uid = index_items items [] }, version v)

-- `Watcher.Start`, up to the start of `watchLoop`.
unfoldable pub start : ListReply → Watcher → Watcher × Version
unfolding list
start (list_failed e) w = list (list_failed e) w
start (listed v items) w =
    let (w', rv) = list (listed v items) w in (record w' { synced = true }, rv)

pub record WatchEvent : Type 0 where
  pub kind : Bytes
  pub object : PodObject

-- `resourceVersion` after an event.
abbrev pub next_version : Bytes → WatchEvent → Bytes
next_version rv ev = if is_empty ev.object.resource_version then rv else ev.object.resource_version

-- The switch of `watchOnce` on an event that is not "ERROR".
unfoldable pub apply : WatchEvent → Watcher → Watcher
unfolding put forget to_pod
apply ev w =
    if eqb ev.kind (codes "ADDED") || eqb ev.kind (codes "MODIFIED")
    then (if is_empty ev.object.uid then w else put (to_pod ev.object) w)
    else if eqb ev.kind (codes "DELETED")
    then forget ev.object.uid w
    else w

-- What `do` comes to, and then the events that are decoded until the stream ends, cleanly or not.
pub data Stream : Type 0 where
  refused : WatchError → Stream
  stream : List WatchEvent → Bool → Stream

-- The loop of `watchOnce`.
unfoldable pub watch_events :
    List WatchEvent → Bool → Bytes → Watcher → Watcher × Bytes × Option WatchError
unfolding apply
watch_events [] clean rv w = (w, rv, if clean then none else some decode_failed)
watch_events (ev ∷ evs) clean rv w =
    let rest = watch_events evs clean (next_version rv ev) (apply ev w) in
    if eqb ev.kind (codes "ERROR") then (w, next_version rv ev, some watch_expired) else rest

-- `Watcher.watchOnce`.
unfoldable pub watch_once : Stream → Bytes → Watcher → Watcher × Bytes × Option WatchError
unfolding watch_events
watch_once (refused e) rv w = (w, rv, some e)
watch_once (stream evs clean) rv w = watch_events evs clean rv w

abbrev pub second : ℕ
second = 1000000000

abbrev pub min_backoff : ℕ
min_backoff = second

abbrev pub max_backoff : ℕ
max_backoff = 30 * second

-- The variables of `watchLoop`, with the sleeps so far, the last first.
pub record Loop : Type 0 where
  pub watcher : Watcher
  pub resource_version : Bytes
  pub backoff : ℕ
  pub sleeps : List ℕ

-- What one turn of the loop meets: what the watch gets, and what a re-list gets if it comes to one.
pub record Turn : Type 0 where
  pub watch : Stream
  pub relist : ListReply

abbrev doubled : ℕ → ℕ
doubled b = if ltb max_backoff (b * 2) then max_backoff else b * 2

abbrev pub settle : Loop → Watcher × Version → Loop
settle l (w, error e) = l
settle l (w, version rv) = record l { watcher = w; resource_version = rv; backoff = min_backoff }

-- The end of a turn whose watch failed.
unfoldable pub retry : ListReply → Loop → Loop
unfolding list
retry reply l =
    let l' = record l { sleeps = l.backoff ∷ l.sleeps; backoff = doubled l.backoff } in
    if is_empty l.resource_version then settle l' (list reply l.watcher) else l'

abbrev pub after_watch : ListReply → Loop → Watcher × Bytes × Option WatchError → Loop
after_watch reply l (w, next, none) = record l {
  watcher = w;
  resource_version = next;
  backoff = min_backoff;
}
after_watch reply l (w, next, some e) =
    retry reply
      (record l { watcher = w; resource_version = if is_expired e then [] else l.resource_version })

-- One turn of the loop of `watchLoop`, while its context is not done.
unfoldable pub turn : Turn → Loop → Loop
unfolding watch_once retry is_expired
turn t l = after_watch t.relist l (watch_once t.watch l.resource_version l.watcher)

-- The turns until the context is done.
unfoldable pub watch_loop : List Turn → Loop → Loop
unfolding turn
watch_loop [] l = l
watch_loop (t ∷ ts) l = watch_loop ts (turn t l)
