-- ===== src/Tests/Pods.antt =====
-- The pod cache over a list, a watch, and a re-list that fails.
use x.Base.{
  ◌+◌, ◌*◌, length, ◌≡◌, ◌≢◌, refl, true, false, List, [], ◌∷◌, ◌++◌, none, some, arith, Bytes,
  codes, eqb, insert, delete, lookup, if◌then◌else◌,
}
use x.Policy.Config.{required}
use x.Kube.Watch.{
  PodObject, to_pod, Watcher, lookup_pod, watch_expired, transport_failed, is_expired, list_failed,
  listed, WatchEvent, stream, refused, watch_events, watch_once, Loop, Turn, watch_loop,
  min_backoff, apply, put, forget,
}
use x.Kube.Cache.{or_before, latest, says, lookup_pod-watch_once, watch_loop_stale}
use x.Kube.Backoff.{AreBounded, watch_loop-AreBounded}
use x.Text.{cut, trim_suffix, contains_bytes, has_prefix, decimal, decimal_onto}
use x.Text.Sort.{sort, place, le_bytes}
use x.Kube.Stopping.{Control, stop, cached, stop-returns}
use x.Kube.Client.{
  Config, Host, Client, created, new_watcher, new_transport, join_host_port, pods_url,
}
use x.Kube.Url.{encode, encode_keys, query_escape, pods_query}
use x.Kube.Query.{parse_query}
use x.Kube.Selection.{selected, pods_url-parse_query}
use x.Kube.Requests.{IsBound, new_watcher-IsBound}
use x.Agent.{start_identity}
use x.Agent.Startup.{IsAllowed, start_identity-IsAllowed}

abbrev object : Bytes → PodObject
object uid = record {
  uid = uid;
  name = codes "web";
  namespace = codes "shop";
  labels = [];
  resource_version = codes "5";
  container_statuses = record { name = codes "app"; container_id = codes "containerd://AB" } ∷ [];
  init_container_statuses = [];
  ephemeral_container_statuses = [];
}

abbrev u1 : Bytes
u1 = codes "u1"

abbrev u2 : Bytes
u2 = codes "u2"

abbrev events : List WatchEvent
events =
    record { kind = codes "ADDED"; object = object u2 }
    ∷ record { kind = codes "DELETED"; object = object u2 }
    ∷ []

abbrev watcher : Watcher
watcher = record { by_uid = (u1, to_pod (object u1)) ∷ []; synced = true }

u1_some : u1 ≢ []
u1_some h = cc

lookup_pod-watch_once_example :
    lookup_pod (watch_once (stream events true) (codes "4") watcher).0 u1
    ≡ or_before (latest u1 events) (lookup_pod watcher u1)
lookup_pod-watch_once_example =
    lookup_pod-watch_once u1 (stream events true) (codes "4") watcher u1_some

abbrev loop : Loop
loop = record {
  watcher = watcher;
  resource_version = codes "4";
  backoff = min_backoff;
  sleeps = [];
}

abbrev failing : Turn
failing = record { watch = refused watch_expired; relist = list_failed transport_failed }

abbrev resuming : Turn
resuming = record { watch = stream events true; relist = list_failed transport_failed }

watch_loop-AreBounded_example : AreBounded (watch_loop (failing ∷ resuming ∷ failing ∷ []) loop)
watch_loop-AreBounded_example =
    watch_loop-AreBounded (failing ∷ resuming ∷ failing ∷ []) loop (omega arith, tt)

ends : watch_events events true [] watcher ≡ (watcher, codes "5", none)
unfolding watch_events apply put forget insert delete eqb to_pod
ends = refl

expired : is_expired watch_expired ≡ true
unfolding is_expired
expired = refl

unmentioned : latest u1 events ≡ none
unfolding latest says eqb
unmentioned = refl

watch_loop_stale_example :
    let l' = watch_loop (failing ∷ resuming ∷ []) loop in
    (lookup_pod l'.watcher u1 ≡ lookup_pod watcher u1) × (l'.resource_version ≡ codes "5")
watch_loop_stale_example =
    watch_loop_stale u1 watch_expired transport_failed events (list_failed transport_failed) loop
      watcher (codes "5") u1_some expired unmentioned ends

start_identity-IsAllowed_example :
    IsAllowed required
      (listed (codes "4") (object u1 ∷ []))
      (start_identity required true (some watcher) (listed (codes "4") (object u1 ∷ [])))
start_identity-IsAllowed_example =
    start_identity-IsAllowed required true (some watcher) (listed (codes "4") (object u1 ∷ []))

abbrev empty_watch : Turn
empty_watch = record { watch = stream [] true; relist = list_failed transport_failed }

abbrev config : Config
config = record {
  server = [];
  node_name = codes "node-1";
  token = [];
  ca_cert_path = [];
  insecure_skip_verify = false;
}

abbrev env_of : Bytes → Bytes
env_of name = if eqb name (codes "KUBERNETES_SERVICE_HOST") then codes "fd00::1" else []

abbrev host : Host
host = record {
  getenv = env_of;
  exists = λ p. true;
  read_file = λ p. some (codes "PEM");
  has_certificate = λ t. true;
}

abbrev client : Client
client = record {
  cfg = record config { server = codes "https://[fd00::1]:443" };
  root_cas = some (codes "PEM");
}

made : new_watcher host config ≡ created client
unfolding new_watcher new_transport join_host_port contains_bytes has_prefix eqb
made = refl

new_watcher-IsBound_example : IsBound config client
new_watcher-IsBound_example = new_watcher-IsBound host config client made

-- The URLs of a list and of a watch.
list_url :
    pods_url client.cfg false []
    ≡ codes "https://[fd00::1]:443/api/v1/pods?fieldSelector=spec.nodeName%3Dnode-1"
unfolding pods_url encode encode_keys query_escape pods_query trim_suffix insert lookup sort place
    le_bytes eqb
list_url = refl

watch_url :
    pods_url client.cfg true (codes "7")
    ≡ codes
        "https://[fd00::1]:443/api/v1/pods?allowWatchBookmarks=true&fieldSelector=spec.nodeName%3Dnode-1&resourceVersion=7&timeoutSeconds=300&watch=true"
unfolding pods_url encode encode_keys query_escape pods_query trim_suffix insert lookup sort place
    le_bytes eqb decimal decimal_onto
watch_url = refl

pods_url-parse_query_example :
    (query : Bytes) × (cut b'?' (pods_url client.cfg true (codes "a&b=% c"))
      ≡ some (trim_suffix (codes "/") client.cfg.server ++ codes "/api/v1/pods", query))
    × (parse_query query ≡ some (selected client.cfg.node_name true (codes "a&b=% c")))
pods_url-parse_query_example =
    pods_url-parse_query client.cfg true (codes "a&b=% c") (ground arith) (ground arith)
      (ground arith)

abbrev control : Control
control = record { started = true; cancelled = false; done = false }

stop-returns_example :
    let (l', c') =
      stop
        (3 * length (failing ∷ resuming ∷ []) + 2)
        (failing ∷ resuming ∷ failing ∷ resuming ∷ [])
        loop
        control in
    (c'.done ≡ true) × (l'.watcher ≡ cached 2 failing (watch_loop (failing ∷ resuming ∷ []) loop))
stop-returns_example =
    stop-returns (failing ∷ resuming ∷ []) 2 failing resuming [] loop control refl (omega arith)
