-- ===== src/Bpf/Events.antt =====
-- `processExecEvents` and `processLSMEvents`.
use x.Base.{◌≡◌, refl, sym, ◌∙◌, List, [], ◌∷◌, Option, none, some, Bytes}
use x.Types.{ExecEvent, LsmEvent, read_exec_event, read_lsm_event}

-- What `Reader.Read` comes to, one after another; `closed` is `ErrClosed`.
pub data Read : Type 0 where
  closed : Read
  read_error : Read
  sample : Bytes → Read

abbrev onto_events : {E : Type 0} → Option E → List E → List E
onto_events none evs = evs
onto_events (some ev) evs = ev ∷ evs

module _ {E : Type 0} (parse : Bytes → Option E) where
  -- The events that are handled: of the reads before the reader is closed, those that parse.
  unfoldable pub decoded : List Read → List E
  decoded [] = []
  decoded (closed ∷ rs) = []
  decoded (read_error ∷ rs) = decoded rs
  decoded (sample b ∷ rs) = onto_events (parse b) (decoded rs)

module _ {E S : Type 0} where
  unfoldable pub handle_all : (E → S → S) → List E → S → S
  handle_all h [] s = s
  handle_all h (ev ∷ evs) s = handle_all h evs (h ev s)

module _ {E S : Type 0} (parse : Bytes → Option E) where
  abbrev handled : Option (E → S → S) → Option E → S → S
  handled none ev s = s
  handled (some h) none s = s
  handled (some h) (some ev) s = h ev s

  -- The loop over the ring buffer, on the reads that it makes until the reader is closed or `stopCh`
  -- ends the loop; the handler acts on a state.
  unfoldable pub process_events : Option (E → S → S) → List Read → S → S
  process_events h [] s = s
  process_events h (closed ∷ rs) s = s
  process_events h (read_error ∷ rs) s = process_events h rs s
  process_events h (sample b ∷ rs) s = process_events h rs (handled h (parse b) s)

  handle_all-sample :
      (h : E → S → S) (o : Option E) (evs : List E) (s : S)
      → handle_all h (onto_events o evs) s ≡ handle_all h evs (handled (some h) o s)
  unfolding handle_all
  handle_all-sample h none evs s = refl
  handle_all-sample h (some ev) evs s = refl

  pub process_events-decoded :
      (h : E → S → S) (rs : List Read) (s : S)
      → process_events (some h) rs s ≡ handle_all h (decoded parse rs) s
  unfolding process_events decoded handle_all
  process_events-decoded h [] s = refl
  process_events-decoded h (closed ∷ rs) s = refl
  process_events-decoded h (read_error ∷ rs) s = process_events-decoded h rs s
  process_events-decoded h (sample b ∷ rs) s =
      process_events-decoded h rs (handled (some h) (parse b) s)
      ∙ sym (handle_all-sample h (parse b) (decoded parse rs) s)

-- `Manager.processExecEvents`.
unfoldable pub process_exec_events : {S : Type 0} → Option (ExecEvent → S → S) → List Read → S → S
process_exec_events = process_events read_exec_event

-- `Manager.processLSMEvents`.
unfoldable pub process_lsm_events : {S : Type 0} → Option (LsmEvent → S → S) → List Read → S → S
process_lsm_events = process_events read_lsm_event
