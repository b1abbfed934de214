-- ===== src/Tests/Shim.antt =====
-- The shim: a first attempt that finds no agent, a second that is answered, and the start.
use x.Base.{
  ℕ, ◌≡◌, true, false, List, [], ◌∷◌, ◌++◌, Option, none, some, arith, Bytes, codes, zero, suc,
  Assoc,
}
use x.Server.Handle.{Response}
use x.Shim.{Attempt, unreachable, answered, Fetched, response, Round, fetch_secrets, Flags}
use x.Shim.Fetch.{IsAccounted, fetch_secrets-IsAccounted}

abbrev secrets : Assoc Bytes Bytes
secrets = (codes "DB", codes "hunter2") ∷ []

abbrev reply : Response
reply = record { ok = true; env = secrets; protected = true; error = none; warnings = [] }

abbrev attempt_of : ℕ → Attempt
attempt_of zero = unreachable
attempt_of (suc i) = answered reply

abbrev rounds : ℕ → Round
rounds i = record { late = 1; took = 2; attempt = attempt_of i }

fetch_secrets-IsAccounted_example :
    (f : Fetched) × (fetch_secrets rounds 1000 250 ≡ some f) × IsAccounted rounds 1000 250 f
fetch_secrets-IsAccounted_example = fetch_secrets-IsAccounted rounds 1000 250 (omega arith)

abbrev environ : List Bytes
environ = codes "HOME=/root" ∷ codes "DB=old" ∷ []

abbrev flags : Flags
flags = record {
  show_version = false;
  on_error = codes "fail";
  argv = codes "app" ∷ codes "-v" ∷ [];
}

abbrev look_path : Bytes → Option Bytes
look_path name = some (codes "/bin/" ++ name)

abbrev fetch : Bytes → Fetched
fetch path = response reply
