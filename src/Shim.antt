-- ===== src/Shim.antt =====
-- cmd/kernelseal-exec/main.go: the shim that fetches secrets and execs the application.
pub mod Env
pub mod Fetch
pub mod Start
pub mod Provenance
use x.Base.{
  ℕ, zero, suc, ◌+◌, ◌-◌, Bool, true, false, not, ◌&&◌, List, [], ◌∷◌, ◌++◌, Option, none, some,
  if◌then◌else◌, ltb, ◌==◌, Bytes, codes, eqb, is_empty, is_some, Assoc, lookup,
}
use x.Text.{cut}
use x.Server.Handle.{Response, Refusal}

-- `parseOnError`: whether to fail closed; `none` is an error.
unfoldable pub parse_on_error : Bytes → Option Bool
parse_on_error v =
    if eqb v (codes "fail")
    then some true
    else if eqb v (codes "continue")
    then some false
    else none

abbrev shadowed : Assoc Bytes Bytes → Option (Bytes × Bytes) → Bool
shadowed overlay none = false
shadowed overlay (some (name, value)) = is_some (lookup eqb name overlay)

-- The first loop of `mergeEnv`.
unfoldable pub keep_base : Assoc Bytes Bytes → List Bytes → List Bytes
unfolding cut
keep_base overlay [] = []
keep_base overlay (kv ∷ base) =
    if shadowed overlay (cut b'=' kv) then keep_base overlay base else kv ∷ keep_base overlay base

-- The second loop, in the order in which the map is visited.
unfoldable pub render : Assoc Bytes Bytes → List Bytes
render [] = []
render ((name, value) ∷ overlay) = (name ++ b'=' ∷ value) ∷ render overlay

-- `mergeEnv`.
unfoldable pub merge_env : List Bytes → Assoc Bytes Bytes → List Bytes
unfolding keep_base render
merge_env base overlay = if is_empty overlay then base else keep_base overlay base ++ render overlay

-- What one exchange with the agent comes to, once time remains for it. An error that wraps a
-- `net.OpError`, or that is ENOENT or ECONNREFUSED, is `unreachable`; any other is `broken`.
pub data Attempt : Type 0 where
  unreachable broken : Attempt
  answered : Response → Attempt

pub data FetchError : Type 0 where
  timed_out connect_failed exchange_failed agent_unreachable : FetchError
  refused_by_agent : Option Refusal → FetchError

pub data Fetched : Type 0 where
  response : Response → Fetched
  failed : FetchError → Fetched

-- `requestOnce`.
unfoldable pub request_once : ℕ → Attempt → Fetched
request_once remaining a = if remaining == 0 then failed timed_out else elim a [
  | unreachable ↦ failed connect_failed
  | broken ↦ failed exchange_failed
  | answered r ↦ if not r.ok then failed (refused_by_agent r.error) else response r
]

-- `isConnectError`.
abbrev pub is_connect_error : FetchError → Bool
is_connect_error connect_failed = true
is_connect_error timed_out = false
is_connect_error exchange_failed = false
is_connect_error agent_unreachable = false
is_connect_error (refused_by_agent e) = false

-- The attempt of round `i`: how late it starts, how long it takes, and what it comes to. Times are
-- in nanoseconds.
pub record Round : Type 0 where
  pub late : ℕ
  pub took : ℕ
  pub attempt : Attempt

module _ (rounds : ℕ → Round) (deadline retry_interval : ℕ) where
  -- The loop of `fetchSecrets` from round `i` at the time `now`; `none` means that the fuel ran out.
  unfoldable pub fetch_from : ℕ → ℕ → ℕ → Option Fetched
  fetch_from zero i now = none
  fetch_from (suc fuel) i now =
      let r = rounds i in
      let start = now + r.late in
      let ended = start + r.took in
      let rest = fetch_from fuel (suc i) (ended + retry_interval) in
      elim (request_once (deadline - start) r.attempt) [
        | response resp ↦ some (response resp)
        | failed e ↦
            if not (is_connect_error e)
            then some (failed e)
            else if not (ltb (ended + retry_interval) deadline)
            then some (failed agent_unreachable)
            else rest
      ]

-- `fetchSecrets`, begun at time 0.
unfoldable pub fetch_secrets : (ℕ → Round) → ℕ → ℕ → Option Fetched
fetch_secrets rounds timeout retry_interval =
    fetch_from rounds timeout retry_interval (suc timeout) 0 0

-- How `main` ends.
pub data Ending : Type 0 where
  prints_version : Ending
  exits : ℕ → Ending
  execs : Bytes → List Bytes → List Bytes → Ending

abbrev pub exit_usage : ℕ
exit_usage = 2

abbrev pub exit_failure : ℕ
exit_failure = 1

pub record Flags : Type 0 where
  pub show_version : Bool
  pub on_error : Bytes
  pub argv : List Bytes

-- `main` from the result of `fetchSecrets` on; without secrets the response is `{OK: true}`.
unfoldable pub finish : Bool → Fetched → Bytes → List Bytes → List Bytes → Ending
finish fail_closed (response r) path argv environ = execs path argv (merge_env environ r.env)
finish fail_closed (failed e) path argv environ =
    if fail_closed then exits exit_failure else execs path argv (merge_env environ [])

abbrev start_with :
    Option Bool → Option Bytes → (Bytes → Fetched) → List Bytes → List Bytes → Ending
start_with none path fetch argv environ = exits exit_usage
start_with (some fail_closed) none fetch argv environ = exits exit_failure
start_with (some fail_closed) (some path) fetch argv environ =
    finish fail_closed (fetch path) path argv environ

-- `main`, up to the call of `Exec`: `look_path` is `exec.LookPath`, and `fetch` gives the outcome of
-- `fetchSecrets` for the resolved binary.
unfoldable pub main : Flags → (Bytes → Option Bytes) → (Bytes → Fetched) → List Bytes → Ending
unfolding finish
main flags look_path fetch environ =
    if flags.show_version then prints_version else elim flags.argv [
      | [] ↦ exits exit_usage
      | name ∷ args ↦
          start_with (parse_on_error flags.on_error) (look_path name) fetch (name ∷ args) environ
    ]
