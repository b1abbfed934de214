-- ===== src/Server/Machine.antt =====
-- `Server.handle` one shared access at a time, as its goroutine runs it beside the others: the lookups
-- up to the first read of /proc, the reads, and each call of the protector. What is written next
-- stands in `handle`'s own words in Server/Handle.antt.
use x.Base.{
  ℕ, zero, suc, Bool, not, ◌&&◌, [], ◌∷◌, Option, none, some, if◌then◌else◌, Bytes, is_empty,
  is_some,
}
use x.Text.{base}
use x.Secrets.{Match, is_empty_match}
use x.Server.Peer.{process_start_time}
use x.Server.Handle.{
  Ucred, Request, Response, every_secret_unresolved, caller_gone, protection_unavailable,
  pid_recycled, protection_missing, caller_vanished, pod_identity_refused, rejected_by_policy,
  secrets_unresolved, empty_binary, caller_unidentified, caller_not_in_pod, no_binding_admits,
  bindings_rejected, all_unresolved, no_binary_named, caller_unattributed, Server, World, StatReads,
  refuse, start_unprotected, recycled, denied, identify, issue, names_nothing,
}

-- Where a goroutine stands in `handle`, with the local variables that are live there.
pub data Phase : Type 0 where
  idle : Phase  -- no connection
  arrived : Phase  -- the request is decoded
  reading : (m : Match) → Phase  -- before the first read of the start time
  marking : (m : Match) (start : ℕ) → Phase  -- before `ProtectPID`
  tracking : (m : Match) (start : ℕ) (protected : Bool) → Phase  -- before `TrackPID`
  rereading : (m : Match) (start : ℕ) (protected : Bool) → Phase  -- before the second read
  rolling_back : Phase  -- before the `UnprotectPID` of the roll-back
  ending : (m : Match) (protected : Bool) → Phase  -- the start time was the same
  replied : (r : Response) → Phase

module _ {S E W : Type 0} (s : Server S E W) where
  open s use {cfg, resolver, protector}

  -- From the lookup to the first read.
  unfoldable pub decide : World S W → ℕ → Bytes → Match → World S W × Phase
  unfolding is_empty_match
  decide w pid binary m =
      if is_empty_match m
      then (w, replied (start_unprotected []))
      else if is_empty m.secrets && not (is_empty m.refused)
      then (denied s w pid pod_identity_refused, replied (refuse (no_binding_admits binary)))
      else if is_empty m.secrets && not (is_empty m.rejected)
      then (
        denied s w pid rejected_by_policy,
        replied (refuse (bindings_rejected m.rejected binary)),
      )
      else if is_empty m.secrets
      then if cfg.require_protection
        then (
          denied s w pid secrets_unresolved,
          replied (refuse (all_unresolved m.unresolved binary)),
        )
        else (w, replied (start_unprotected (every_secret_unresolved m.unresolved ∷ [])))
      else (w, reading m)

  unfoldable pub begin : Ucred → Request → World S W → World S W × Phase
  unfolding identify names_nothing decide
  begin cred req w =
      let pid = cred.pid in
      let (caller, unidentified) = identify s pid in
      if names_nothing s req.binary
      then (denied s w pid empty_binary, replied (refuse no_binary_named))
      else if cfg.require_pod_identity && unidentified
      then (denied s w pid caller_unidentified, replied (refuse caller_unattributed))
      else if cfg.require_pod_identity && not (is_some caller.pod)
      then (denied s w pid caller_not_in_pod, replied (refuse caller_unattributed))
      else decide w pid (base req.binary) (resolver (base req.binary) caller)

  abbrev snapshot : World S W → ℕ → Match → Option ℕ → World S W × Phase
  snapshot w pid m none = (denied s w pid caller_vanished, replied (refuse caller_gone))
  snapshot w pid m (some start) = (w, marking m start)

  -- The next access of a goroutine, `stat` being what /proc/<pid>/stat holds at that moment.
  unfoldable pub advance : Option Bytes → Ucred → Request → Phase → World S W → World S W × Phase
  unfolding begin process_start_time issue
  advance stat cred req idle w = (w, idle)
  advance stat cred req arrived w = begin cred req w
  advance stat cred req (reading m) w = snapshot w cred.pid m (process_start_time stat)
  advance stat cred req (marking m start) w =
      let (k, err) = protector.protect_pid w.kernel cred.pid in
      (record w { kernel = k }, tracking m start (not (is_some err)))
  advance stat cred req (tracking m start protected) w =
      (record w { kernel = (protector.track_pid w.kernel cred.pid).0 }, rereading m start protected)
  advance stat cred req (rereading m start protected) w =
      if recycled start (process_start_time stat)
      then (w, rolling_back)
      else (w, ending m protected)
  advance stat cred req rolling_back w = (
    denied s (record w { kernel = (protector.unprotect_pid w.kernel cred.pid).0 }) cred.pid
        pid_recycled,
    replied (refuse caller_gone),
  )
  advance stat cred req (ending m protected) w =
      if not protected && cfg.require_protection
      then (denied s w cred.pid protection_missing, replied (refuse protection_unavailable))
      else let (w', r) = issue s w cred.pid m protected in (w', replied r)
  advance stat cred req (replied r) w = (w, replied r)

  -- What the next read finds: only the second read comes after `ProtectPID`.
  abbrev found : StatReads → Phase → Option Bytes
  found reads (reading m) = reads.before
  found reads _ = reads.after

  -- `n` accesses of one goroutine with no other in between.
  unfoldable pub undisturbed :
      ℕ → StatReads → Ucred → Request → Phase → World S W → World S W × Phase
  undisturbed zero reads cred req p w = (w, p)
  undisturbed (suc n) reads cred req p w =
      let (w', p') = advance (found reads p) cred req p w in undisturbed n reads cred req p' w'
