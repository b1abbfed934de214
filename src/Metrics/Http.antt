-- ===== src/Metrics/Http.antt =====
-- The HTTP server of internal/metrics/metrics.go: its routes and handlers, and its listener. HTTP itself is
-- the standard library's.
use x.Base.{ℕ, Bool, true, false, [], ◌++◌, Option, none, some, if◌then◌else◌, Bytes, codes, eqb}
use x.Text.{decimal}
use x.Metrics.{Collector, snapshot, write_text}

-- What a handler writes.
pub record Reply : Type 0 where
  pub status : ℕ
  pub content_type : Bytes
  pub body : Bytes

-- `Server`: `ready` is `none` for nil, and its value is the error, if it gives one.
pub record Server (S V : Type 0) : Type 0 where
  pub collector : Collector S V
  pub ready : Option (S → Option Bytes)
  pub addr : Bytes
  pub listener : Option Bytes
  pub stopped : Bool

abbrev plain : ℕ → Bytes → Reply
plain status body = record {
  status = status;
  content_type = codes "text/plain; charset=utf-8";
  body = body;
}

-- `handleHealthz`.
abbrev pub healthz : Reply
healthz = plain 200 (codes "ok\n")

abbrev answered : Option Bytes → Reply
answered none = plain 200 (codes "ready\n")
answered (some err) = plain 503 (codes "not ready: " ++ err ++ codes "\n")

abbrev readiness : {S : Type 0} → Option (S → Option Bytes) → S → Reply
readiness none s = answered none
readiness (some ready) s = answered (ready s)

abbrev or_empty : Option Bytes → Bytes
or_empty none = []
or_empty (some a) = a

module _ {S V : Type 0} where
  -- `NewServer`.
  unfoldable pub new_server : ℕ → Collector S V → Option (S → Option Bytes) → Server S V
  unfolding decimal
  new_server port collector ready = record {
    collector = collector;
    ready = ready;
    addr = codes ":" ++ decimal port;
    listener = none;
    stopped = false;
  }

  -- `handleMetrics`.
  unfoldable pub handle_metrics : (ℕ → V) → (V → Bytes) → S → Server S V → Reply
  unfolding snapshot write_text
  handle_metrics float format s srv = record {
    status = 200;
    content_type = codes "text/plain; version=0.0.4; charset=utf-8";
    body = write_text format (snapshot float s srv.collector);
  }

  -- The routes; any other path is not found.
  unfoldable pub route : (ℕ → V) → (V → Bytes) → S → Server S V → Bytes → Option Reply
  unfolding handle_metrics
  route float format s srv path =
      if eqb path (codes "/metrics")
      then some (handle_metrics float format s srv)
      else if eqb path (codes "/healthz")
      then some healthz
      else if eqb path (codes "/ready")
      then some (readiness srv.ready s)
      else none

  -- `Start`: `bound` is the address of the listener, if the port could be bound; and whether it gives an
  -- error.
  unfoldable pub start : Option Bytes → Server S V → Server S V × Bool
  start none srv = (srv, true)
  start (some addr) srv = (record srv { listener = some addr }, false)

  -- `Addr`.
  unfoldable pub address : Server S V → Bytes
  address srv = or_empty srv.listener

  -- `Stop`, which waits for the requests under way, but not for ever.
  unfoldable pub stop : Server S V → Server S V
  stop srv = record srv { stopped = true }
