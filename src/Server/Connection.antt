-- ===== src/Server/Connection.antt =====
-- `handleConn`: what the socket and the decoder say of one connection, and what the server does with it.
use x.Base.{
  ◌≡◌, refl, Bool, not, [], Option, none, some, if◌then◌else◌, arith, Option-cases, Bool-cases, inl,
  inr,
}
use x.Server.Handle.{
  Ucred, Request, Response, peer_identification_failed, malformed_request, Server, World, StatReads,
  refuse, handle,
}

-- Whether the deadline could be set, whether it is a unix socket, `SO_PEERCRED`, and the first JSON
-- value of the connection's first `MaxMessageSize` bytes.
pub record Conn : Type 0 where
  pub deadline_set : Bool
  pub is_unix : Bool
  pub peer_cred : Option Ucred
  pub request : Option Request
  pub reads : StatReads

module _ {S E W : Type 0} (s : Server S E W) where
  abbrev served :
      StatReads → Option Ucred → Option Request → World S W → World S W × Option Response
  served reads none req w = (w, some (refuse peer_identification_failed))
  served reads (some cred) none w = (w, some (refuse malformed_request))
  served reads (some cred) (some req) w = let (w', r) = handle s reads cred req w in (w', some r)

  -- `Server.handleConn`: the world after it, and the response that is written, if one is.
  unfoldable pub handle_conn : Conn → World S W → World S W × Option Response
  handle_conn c w =
      if not c.deadline_set
      then (w, none)
      else if not c.is_unix
      then (w, none)
      else served c.reads c.peer_cred c.request w

  -- A connection at which `handle` ran, with what it came to.
  pub record IsHandled (c : Conn) (w : World S W) (r : Response) : Type 0 where
    pub cred : Ucred
    pub req : Request
    pub by_cred : c.peer_cred ≡ some cred
    pub by_request : c.request ≡ some req
    pub result :
        handle_conn c w ≡ ((handle s c.reads cred req w).0, some (handle s c.reads cred req w).1)
    pub response : r ≡ (handle s c.reads cred req w).1

  -- What `handleConn` may do: leave everything as it is and reply with no value, or handle a request of
  -- a peer that the kernel named.
  pub data Handled (c : Conn) (w : World S W) : Type 0 where
    left_alone :
        (o : Option Response)
        → handle_conn c w ≡ (w, o)
        → ((r : Response) → o ≡ some r → r.env ≡ [])
        → Handled c w
    handled : (r : Response) → IsHandled c w r → Handled c w

  refused_only : (e : Response) → e.env ≡ [] → (r : Response) → some e ≡ some r → r.env ≡ []
  refused_only e h r q = ground arith

  nothing_sent : (r : Response) → none ≡ some r → r.env ≡ []
  nothing_sent r q = cc

  pub handle_conn-Handled : (c : Conn) (w : World S W) → Handled c w
  unfolding handle_conn
  handle_conn-Handled c w = elim (Bool-cases c.deadline_set) [
    | inr d ↦ left_alone none (ground arith) nothing_sent
    | inl d ↦ elim (Bool-cases c.is_unix) [
      | inr u ↦ left_alone none (ground arith) nothing_sent
      | inl u ↦ elim (Option-cases c.peer_cred) [
        | inl p ↦
            left_alone (some (refuse peer_identification_failed)) (ground arith)
              (refused_only (refuse peer_identification_failed) refl)
        | inr (cred, p) ↦ elim (Option-cases c.request) [
          | inl q ↦
              left_alone (some (refuse malformed_request)) (ground arith)
                (refused_only (refuse malformed_request) refl)
          | inr (req, q) ↦ handled (handle s c.reads cred req w).1 (record {
            cred = cred;
            req = req;
            by_cred = p;
            by_request = q;
            result = ground arith;
            response = refl;
          })
        ]
      ]
    ]
  ]
