-- ===== src/Kube/Requests.antt =====
-- What holds of a watcher that `NewWatcher` gives.
use x.Base.{
  ◌≡◌, ◌≢◌, refl, sym, ap, ◌∙◌, Bool, true, false, not, [], ◌++◌, arith, codes, is_empty,
  is_empty-false, is_some, if◌then◌else◌,
}
use x.Kube.Client.{
  Config, Host, Client, created, refused_by, new_transport, new_watcher, join_host_port,
  port_or_default, node_name_missing, not_in_cluster,
}

-- The client of the configuration: for its node, at its server or the cluster's, and with a check of the API
-- server's certificate unless the configuration says otherwise.
pub record IsBound (cfg : Config) (c : Client) : Type 0 where
  pub node : c.cfg.node_name ≡ cfg.node_name
  pub named : c.cfg.node_name ≢ []
  pub server : c.cfg.server ≢ []
  pub token : c.cfg.token ≡ cfg.token
  pub verified : is_some c.root_cas ≡ not cfg.insecure_skip_verify

module _ (host : Host) where
  new_transport-cfg :
      (cfg : Config) (c : Client)
      → new_transport host cfg ≡ created c
      → (c.cfg ≡ cfg) × (is_some c.root_cas ≡ not cfg.insecure_skip_verify)
  unfolding new_transport
  new_transport-cfg cfg c h = (ground arith, ground arith)

  transport-IsBound :
      (cfg cfg' : Config) (c : Client)
      → cfg'.node_name ≡ cfg.node_name
      → cfg'.token ≡ cfg.token
      → cfg'.insecure_skip_verify ≡ cfg.insecure_skip_verify
      → cfg.node_name ≢ []
      → cfg'.server ≢ []
      → new_transport host cfg' ≡ created c
      → IsBound cfg c
  transport-IsBound cfg cfg' c n t i named server h =
      let (q, v) = new_transport-cfg cfg' c h in
      record {
        node = ap (λ x. x.node_name) q ∙ n;
        named = λ z. named (sym (ap (λ x. x.node_name) q ∙ n) ∙ z);
        server = λ z. server (sym (ap (λ x. x.server) q) ∙ z);
        token = ap (λ x. x.token) q ∙ t;
        verified = v ∙ ap not i;
      }

  -- A watcher that `NewWatcher` gives is for the node of its configuration, which is not empty, at some
  -- server, with the token of the configuration, and checks the API server's certificate exactly unless the
  -- configuration turns the check off.
  pub new_watcher-IsBound :
      (cfg : Config) (c : Client) → new_watcher host cfg ≡ created c → IsBound cfg c
  unfolding new_watcher
  new_watcher-IsBound cfg c h =
      chosen (is_empty cfg.node_name) (is_empty cfg.server)
        (is_empty (host.getenv (codes "KUBERNETES_SERVICE_HOST"))) refl refl h
    where
      derived : Config
      derived = record cfg {
        server =
            codes "https://"
            ++ join_host_port (host.getenv (codes "KUBERNETES_SERVICE_HOST"))
                (port_or_default host (host.getenv (codes "KUBERNETES_SERVICE_PORT")));
      }

      chosen :
          (b d n : Bool)
          → is_empty cfg.node_name ≡ b
          → is_empty cfg.server ≡ d
          → (if b
              then refused_by node_name_missing
              else if not d
              then new_transport host cfg
              else if n
              then refused_by not_in_cluster
              else new_transport host derived)
            ≡ created c
          → IsBound cfg c
      chosen true d n p q r = absurd (cc)
      chosen false false n p q r =
          transport-IsBound cfg cfg c refl refl refl ((is_empty-false cfg.node_name).0 p)
            ((is_empty-false cfg.server).0 q) r
      chosen false true true p q r = absurd (cc)
      chosen false true false p q r =
          transport-IsBound cfg derived c refl refl refl ((is_empty-false cfg.node_name).0 p)
            (λ z. cc) r
