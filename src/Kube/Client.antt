-- ===== src/Kube/Client.antt =====
-- internal/kube/pods.go: how the watcher reaches the API server. Files, the environment and HTTP are given by
-- what they answer; what `net.JoinHostPort` does is written out.
use x.Base.{
  ℕ, Bool, true, false, not, ◌&&◌, List, [], ◌∷◌, ◌++◌, Option, none, some, if◌then◌else◌, ◌==◌,
  Bytes, codes, is_empty,
}
use x.Text.{trim_space, trim_suffix, contains_bytes}
use x.Kube.Url.{encode, pods_query}
use x.Kube.Watch.{
  WatchError, transport_failed, decode_failed, api_error, PodObject, ListReply, list_failed, listed,
  WatchEvent, Stream, refused, stream,
}

-- `Config`.
pub record Config : Type 0 where
  pub server : Bytes
  pub node_name : Bytes
  pub token : Bytes
  pub ca_cert_path : Bytes
  pub insecure_skip_verify : Bool

-- The environment, the files, and whether a text has a certificate in it.
pub record Host : Type 0 where
  pub getenv : Bytes → Bytes
  pub exists : Bytes → Bool
  pub read_file : Bytes → Option Bytes
  pub has_certificate : Bytes → Bool

-- The certificates that a connection is checked against; `none` for no check.
pub record Client : Type 0 where
  pub cfg : Config
  pub root_cas : Option Bytes

pub data NewError : Type 0 where
  node_name_missing not_in_cluster ca_unreadable ca_empty : NewError

pub data Created : Type 0 where
  created : Client → Created
  refused_by : NewError → Created

abbrev pub token_file : Bytes
token_file = codes "/var/run/secrets/kubernetes.io/serviceaccount/token"

abbrev pub ca_file : Bytes
ca_file = codes "/var/run/secrets/kubernetes.io/serviceaccount/ca.crt"

-- `net.JoinHostPort`.
unfoldable pub join_host_port : Bytes → Bytes → Bytes
unfolding contains_bytes
join_host_port host port =
    if contains_bytes (codes ":") host
    then codes "[" ++ host ++ codes "]:" ++ port
    else host ++ codes ":" ++ port

-- `Watcher.podsURL`.
unfoldable pub pods_url : Config → Bool → Bytes → Bytes
unfolding encode pods_query trim_suffix
pods_url cfg watch resource_version =
    trim_suffix (codes "/") cfg.server
    ++ codes "/api/v1/pods?"
    ++ encode (pods_query cfg.node_name watch resource_version)

module _ (host : Host) where
  -- `InCluster`.
  unfoldable pub in_cluster : Bool
  in_cluster =
      not (is_empty (host.getenv (codes "KUBERNETES_SERVICE_HOST"))) && host.exists token_file

  abbrev pub port_or_default : Bytes → Bytes
  port_or_default [] = codes "443"
  port_or_default (c ∷ port) = c ∷ port

  abbrev checked : Config → Option Bytes → Created
  checked cfg none = refused_by ca_unreadable
  checked cfg (some pem) =
      if not (host.has_certificate pem)
      then refused_by ca_empty
      else created (record { cfg = cfg; root_cas = some pem })

  -- `newTransport`, and the rest of `NewWatcher`.
  unfoldable pub new_transport : Config → Created
  new_transport cfg =
      if cfg.insecure_skip_verify
      then created (record { cfg = cfg; root_cas = none })
      else checked cfg
          (host.read_file (if is_empty cfg.ca_cert_path then ca_file else cfg.ca_cert_path))

  -- `NewWatcher`.
  unfoldable pub new_watcher : Config → Created
  unfolding new_transport join_host_port
  new_watcher cfg =
      let name = host.getenv (codes "KUBERNETES_SERVICE_HOST") in
      let port = port_or_default (host.getenv (codes "KUBERNETES_SERVICE_PORT")) in
      if is_empty cfg.node_name
      then refused_by node_name_missing
      else if not (is_empty cfg.server)
      then new_transport cfg
      else if is_empty name
      then refused_by not_in_cluster
      else new_transport (record cfg { server = codes "https://" ++ join_host_port name port })

  -- `Watcher.bearer`, `none` for an error; the file is read for each request.
  unfoldable pub bearer : Client → Option Bytes
  unfolding trim_space
  bearer c =
      if not (is_empty c.cfg.token)
      then some c.cfg.token
      else elim (host.read_file token_file) [ none ↦ none | some text ↦ some (trim_space text) ]

-- A request as it is sent.
pub record HttpRequest : Type 0 where
  pub url : Bytes
  pub authorization : Bytes
  pub root_cas : Option Bytes

-- What the exchange comes to: no response, or a status and a body as it is decoded.
pub data Answer (B : Type 0) : Type 0 where
  no_response : Answer B
  response : ℕ → B → Answer B

-- The body of a list: undecodable, or its version and its items.
abbrev pub ListBody : Type 0
ListBody = Option (Bytes × List PodObject)

-- The body of a watch: the events, and whether it ends cleanly.
abbrev pub WatchBody : Type 0
WatchBody = List WatchEvent × Bool

-- `Watcher.do`: the request, if there is a token for it, and the body of an answer of 200.
unfoldable pub request_of : Option Bytes → Client → Bytes → Option HttpRequest
request_of none c url = none
request_of (some token) c url =
    some (record { url = url; authorization = codes "Bearer " ++ token; root_cas = c.root_cas })

abbrev body_of : {B : Type 0} → Answer B → WatchError × Option B
body_of no_response = (transport_failed, none)
body_of (response status b) =
    if status == 200 then (transport_failed, some b) else (api_error status, none)

abbrev list_body : WatchError → Option ListBody → ListReply
list_body err none = list_failed err
list_body err (some none) = list_failed decode_failed
list_body err (some (some (v, items))) = listed v items

abbrev watch_body : WatchError → Option WatchBody → Stream
watch_body err none = refused err
watch_body err (some (evs, clean)) = stream evs clean

module _ (host : Host) (c : Client) where
  -- What a list and a watch of the watcher get; a request that cannot be made is not sent.
  unfoldable pub fetch_list : (HttpRequest → Answer ListBody) → ListReply
  unfolding bearer request_of pods_url
  fetch_list send = elim (request_of (bearer host c) c (pods_url c.cfg false [])) [
    | none ↦ list_failed transport_failed
    | some r ↦ let (err, b) = body_of (send r) in list_body err b
  ]

  unfoldable pub fetch_watch : Bytes → (HttpRequest → Answer WatchBody) → Stream
  unfolding bearer request_of pods_url
  fetch_watch rv send = elim (request_of (bearer host c) c (pods_url c.cfg true rv)) [
    | none ↦ refused transport_failed
    | some r ↦ let (err, b) = body_of (send r) in watch_body err b
  ]
