-- ===== src/Server/Handle.antt =====
-- `Server.handle`. Log lines are left out; what `Sprintf` writes into a response is a constructor
-- with the values written. `uint32(cred.Pid)` is the PID itself, as a PID is not negative.
use x.Base.{
  ℕ, Bool, true, false, not, ◌&&◌, ◌||◌, List, [], ◌∷◌, ◌++◌, map, Option, none, some, ◌==◌,
  if◌then◌else◌, Bytes, eqb, is_empty, is_some, Assoc, insert,
}
use x.Text.{base}
use x.Text.Sort.{sort}
use x.Secrets.{Secret, Caller, Match, is_empty_match}
use x.Server.Peer.{process_start_time}

-- `syscall.Ucred`, as far as the server uses it.
pub record Ucred : Type 0 where
  pub pid : ℕ
  pub uid : ℕ
  pub gid : ℕ

-- `protocol.Request`.
pub record Request : Type 0 where
  pub binary : Bytes

-- The texts of `Response.Error`.
pub data Refusal : Type 0 where
  peer_identification_failed malformed_request : Refusal
  no_binary_named caller_unattributed : Refusal
  no_binding_admits : Bytes → Refusal
  bindings_rejected : List Bytes → Bytes → Refusal
  all_unresolved : List Bytes → Bytes → Refusal
  caller_gone protection_unavailable : Refusal

-- The parts of `Response.Warning`.
pub data Warning : Type 0 where
  every_secret_unresolved some_secrets_unresolved : List Bytes → Warning
  bindings_ignored : List Bytes → Warning

-- `protocol.Response`.
pub record Response : Type 0 where
  pub ok : Bool
  pub env : Assoc Bytes Bytes
  pub protected : Bool
  pub error : Option Refusal
  pub warnings : List Warning

-- The reasons that the denied callback is given.
pub data Denial : Type 0 where
  empty_binary caller_unidentified caller_not_in_pod pod_identity_refused : Denial
  rejected_by_policy secrets_unresolved caller_vanished pid_recycled : Denial
  protection_missing : Denial

-- The three switches of `Config` that `handle` reads.
pub record Config : Type 0 where
  pub require_protection : Bool
  pub identify_callers : Bool
  pub require_pod_identity : Bool

-- The interface `Protector`, over a kernel state.
pub record Protector (S E : Type 0) : Type 0 where
  pub protect_pid : S → ℕ → S × Option E
  pub unprotect_pid : S → ℕ → S × Option E
  pub track_pid : S → ℕ → S × Option E

-- `Server`: `resolver` is the interface `Resolver`, and `identifier` the interface `Identifier`, whose
-- Boolean says that it gave an error. The callbacks act on a state of their own.
pub record Server (S E W : Type 0) : Type 0 where
  pub cfg : Config
  pub resolver : Bytes → Caller → Match
  pub protector : Protector S E
  pub identifier : Option (ℕ → Caller × Bool)
  pub on_issued : Option (ℕ → List Bytes → W → W)
  pub on_denied : Option (ℕ → Denial → W → W)

pub record World (S W : Type 0) : Type 0 where
  pub kernel : S
  pub observer : W

-- The contents of /proc/<pid>/stat at the two reads of one exchange.
pub record StatReads : Type 0 where
  pub before : Option Bytes
  pub after : Option Bytes

-- `secrets.Caller{}`.
abbrev pub no_caller : Caller
no_caller = record {
  cgroup_path = [];
  cgroup_id = 0;
  cgroup_path_relative = false;
  pod_uid = [];
  container_id = [];
  pod = none;
}

abbrev pub refuse : Refusal → Response
refuse e = record { ok = false; env = []; protected = false; error = some e; warnings = [] }

abbrev pub start_unprotected : List Warning → Response
start_unprotected ws = record {
  ok = true;
  env = [];
  protected = false;
  error = none;
  warnings = ws;
}

-- `env[sec.Name] = sec.Value`, one secret after another.
unfoldable pub add_env : Assoc Bytes Bytes → List Secret → Assoc Bytes Bytes
unfolding insert
add_env env [] = env
add_env env (s ∷ ss) = add_env (insert eqb s.name s.value env) ss

-- The server time is read again: `err != nil || startAfter != startBefore`.
abbrev pub recycled : ℕ → Option ℕ → Bool
recycled start none = true
recycled start (some t) = not (t == start)

abbrev warn_unresolved : List Bytes → List Warning
warn_unresolved [] = []
warn_unresolved (n ∷ ns) = some_secrets_unresolved (n ∷ ns) ∷ []

abbrev warn_rejected : List Bytes → List Warning
warn_rejected [] = []
warn_rejected (n ∷ ns) = bindings_ignored (n ∷ ns) ∷ []

module _ {S E W : Type 0} (s : Server S E W) where
  open s use {cfg, resolver, protector, identifier}

  abbrev call_denied : Option (ℕ → Denial → W → W) → ℕ → Denial → W → W
  call_denied none pid why w = w
  call_denied (some f) pid why w = f pid why w

  abbrev call_issued : Option (ℕ → List Bytes → W → W) → ℕ → List Bytes → W → W
  call_issued none pid names w = w
  call_issued (some f) pid names w = f pid names w

  -- `Server.denied`.
  abbrev pub denied : World S W → ℕ → Denial → World S W
  denied w pid why = record w { observer = call_denied s.on_denied pid why w.observer }

  abbrev pub issued : World S W → ℕ → List Bytes → World S W
  issued w pid names = record w { observer = call_issued s.on_issued pid names w.observer }

  -- `Server.identify`.
  unfoldable pub identify : ℕ → Caller × Bool
  identify pid =
      if not cfg.identify_callers
      then (no_caller, false)
      else elim identifier [ none ↦ (no_caller, true) | some f ↦ f pid ]

  -- The end of `handle`: the environment, the issued callback and the warnings.
  unfoldable pub issue : World S W → ℕ → Match → Bool → World S W × Response
  unfolding add_env
  issue w pid m protected = (
    issued w pid (sort (map (λ sec. sec.name) m.secrets)),
    record {
      ok = true;
      env = add_env [] m.secrets;
      protected = protected;
      error = none;
      warnings = warn_unresolved m.unresolved ++ warn_rejected m.rejected;
    },
  )

  -- After the PID was marked and tracked: the second read of its start time, the roll-back, and the
  -- refusal where protection is required and was not installed.
  unfoldable pub confirm : StatReads → World S W → ℕ → Match → ℕ → Bool → World S W × Response
  confirm reads w pid m start protected =
      if recycled start (process_start_time reads.after)
      then (
        denied (record w { kernel = (protector.unprotect_pid w.kernel pid).0 }) pid pid_recycled,
        refuse caller_gone,
      )
      else if not protected && cfg.require_protection
      then (denied w pid protection_missing, refuse protection_unavailable)
      else issue w pid m protected

  -- From the first read of the start time on.
  unfoldable pub guard_and_issue : StatReads → World S W → ℕ → Match → World S W × Response
  guard_and_issue reads w pid m = elim (process_start_time reads.before) [
    | none ↦ (denied w pid caller_vanished, refuse caller_gone)
    | some start ↦
        let (k, err) = protector.protect_pid w.kernel pid in
        let (k', _) = protector.track_pid k pid in
        confirm reads (record w { kernel = k' }) pid m start (not (is_some err))
  ]

  -- From the lookup on.
  unfoldable pub serve : StatReads → World S W → ℕ → Bytes → Match → World S W × Response
  unfolding is_empty_match
  serve reads w pid binary m =
      if is_empty_match m
      then (w, start_unprotected [])
      else if is_empty m.secrets && not (is_empty m.refused)
      then (denied w pid pod_identity_refused, refuse (no_binding_admits binary))
      else if is_empty m.secrets && not (is_empty m.rejected)
      then (denied w pid rejected_by_policy, refuse (bindings_rejected m.rejected binary))
      else if is_empty m.secrets
      then if cfg.require_protection
        then (denied w pid secrets_unresolved, refuse (all_unresolved m.unresolved binary))
        else (w, start_unprotected (every_secret_unresolved m.unresolved ∷ []))
      else guard_and_issue reads w pid m

  unfoldable pub names_nothing : Bytes → Bool
  names_nothing binary =
      is_empty binary || eqb (base binary) (b'.' ∷ []) || eqb (base binary) (b'/' ∷ [])

  -- `Server.handle`: the world after it and the response that is written next.
  unfoldable pub handle : StatReads → Ucred → Request → World S W → World S W × Response
  unfolding names_nothing
  handle reads cred req w =
      let pid = cred.pid in
      let (caller, unidentified) = identify pid in
      if names_nothing req.binary
      then (denied w pid empty_binary, refuse no_binary_named)
      else if cfg.require_pod_identity && unidentified
      then (denied w pid caller_unidentified, refuse caller_unattributed)
      else if cfg.require_pod_identity && not (is_some caller.pod)
      then (denied w pid caller_not_in_pod, refuse caller_unattributed)
      else serve reads w pid (base req.binary) (resolver (base req.binary) caller)
