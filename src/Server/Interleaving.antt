-- ===== src/Server/Interleaving.antt =====
-- The goroutines of the server, interleaved access by access over one kernel, beside the processes
-- that come and go and the releases of the exit handler and of the sweep.
pub mod Access
pub mod Safety
pub mod Race
use x.Base.{ℕ, ◌≡◌, ◌≢◌, ◌⊎◌, Option, Bytes, if◌then◌else◌, ◌==◌}
use x.Bpf.Maps.{Ebpf}
use x.Bpf.Manager.{BpfError, Manager, unprotect_pid}
use x.Server.Peer.{process_start_time}
use x.Server.Handle.{Ucred, Request, Server, World}
use x.Server.Kernel.{bpf_protector}
use x.Server.Machine.{Phase, idle, arrived, advance}

pub record Worker : Type 0 where
  pub cred : Ucred
  pub request : Request
  pub phase : Phase

unfoldable pub update : {A : Type 0} → (ℕ → A) → ℕ → A → ℕ → A
update f i x j = if i == j then x else f j

module _ (e : Ebpf) (W : Type 0) where
  -- The world of the server, what /proc/<pid>/stat holds, and every goroutine.
  pub record Machine : Type 0 where
    pub world : World (Manager e) W
    pub proc : ℕ → Option Bytes
    pub workers : ℕ → Worker

  -- Goroutine `i` makes its next access.
  unfoldable pub move : Server (Manager e) BpfError W → ℕ → Machine → Machine
  unfolding advance update
  move s i a =
      let v = a.workers i in
      let (w, p) = advance s (a.proc v.cred.pid) v.cred v.request v.phase a.world in
      record a { world = w; workers = update a.workers i (record v { phase = p }) }

  -- `UnprotectPID`, as the exit handler and the sweep call it.
  unfoldable pub release : ℕ → Machine → Machine
  release pid a = record a {
    world = record a.world { kernel = (unprotect_pid e a.world.kernel pid).0 };
  }

  pub data Step (a b : Machine) : Type 0 where
    accepted :
        (i : ℕ) (cred : Ucred) (req : Request)
        → (a.workers i).phase ≡ idle
        → b ≡ record a {
          workers = update a.workers i (record { cred = cred; request = req; phase = arrived });
        }
        → Step a b
    -- The server may have changed since the last access: another pod cache, other bindings.
    moved :
        (s : Server (Manager e) BpfError W) (i : ℕ)
        → s.protector ≡ bpf_protector e
        → b ≡ move s i a
        → Step a b
    changed :
        (pid : ℕ) (stat : Option Bytes) → b ≡ record a { proc = update a.proc pid stat } → Step a b
    released : (pid : ℕ) → b ≡ release pid a → Step a b

  -- The process with this PID goes on, and nothing takes it for gone.
  abbrev pub Spares : ℕ → (a b : Machine) → Step a b → Type 0
  Spares pid a b (accepted i cred req f q) = Unit
  Spares pid a b (moved s i by q) = Unit
  Spares pid a b (changed p stat q) =
      (p ≢ pid) ⊎ (process_start_time stat ≡ process_start_time (a.proc pid))
  Spares pid a b (released p q) = p ≢ pid

  pub data Reaches (pid : ℕ) (z : Machine) : Machine → Type 0 where
    here : Reaches pid z z
    onward : (a b : Machine) (s : Step a b) → Spares pid a b s → Reaches pid z b → Reaches pid z a

  -- No connection of this PID is under way.
  abbrev pub IsQuiet : ℕ → Machine → Type 0
  IsQuiet pid a = (i : ℕ) → (a.workers i).cred.pid ≡ pid → (a.workers i).phase ≡ idle
