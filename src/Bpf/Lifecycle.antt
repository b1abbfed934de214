-- ===== src/Bpf/Lifecycle.antt =====
-- internal/bpf/loader.go: loading, attaching, starting and stopping. What the ebpf library answers is
-- given by the outcomes of its calls.
use x.Base.{
  ℕ, Bool, true, false, not, List, [], ◌∷◌, ◌++◌, Option, none, some, if◌then◌else◌, Bytes, codes,
  keep, ◌==◌,
}
use x.Text.{contains_bytes}
use x.Bpf.Maps.{Ebpf}
use x.Bpf.Manager.{Manager, new_manager}

-- The errors of the two loads.
pub data LoadError : Type 0 where
  memlock_kept : LoadError
  exec_spec_failed exec_objects_failed : LoadError
  execve_unattached sched_exec_unattached exit_unattached exec_reader_failed : LoadError
  lsm_spec_failed lsm_reader_failed : LoadError

-- A `*ringbuf.Reader`.
pub data Reader : Type 0 where
  absent opened shut : Reader

-- The goroutines that `Start` runs.
pub data Loop : Type 0 where
  exec_loop lsm_loop : Loop

-- `isLSMAvailable`, on what /sys/kernel/security/lsm holds, if it can be read.
unfoldable pub is_lsm_available : Option Bytes → Bool
unfolding contains_bytes
is_lsm_available none = false
is_lsm_available (some lsm) = contains_bytes (codes "bpf") lsm

abbrev close_reader : Reader → Reader
close_reader absent = absent
close_reader opened = shut
close_reader shut = shut

abbrev new_reader : Bool → Reader
new_reader true = opened
new_reader false = absent

-- A program leaves its hook when its link is closed.
unfoldable pub close_links : List ℕ → List ℕ → List ℕ
unfolding keep
close_links [] attached = attached
close_links (l ∷ ls) attached = close_links ls (keep (λ x. not (x == l)) attached)

module _ (e : Ebpf) where
  -- The rest of `Manager`, and the links that are attached in the kernel.
  pub record Loader : Type 0 where
    pub manager : Manager e
    pub exec_links : List ℕ
    pub lsm_links : List ℕ
    pub exec_reader : Reader
    pub lsm_reader : Reader
    pub running : List Loop
    pub stopped : Bool
    pub attached : List ℕ

  -- `NewManager`, in a kernel with these links.
  unfoldable pub new_loader : List ℕ → Loader
  unfolding new_manager
  new_loader attached = record {
    manager = new_manager e;
    exec_links = [];
    lsm_links = [];
    exec_reader = absent;
    lsm_reader = absent;
    running = [];
    stopped = false;
    attached = attached;
  }

  -- `execObjects` and `lsmObjects`, once assigned: their maps, and which programs and which ring buffer
  -- the second has.
  pub record ExecObjects : Type 0 where
    pub seen_pids : e.numbers.Map
    pub target_cgroups : e.numbers.Map
    pub cgroup_filter_enabled : e.numbers.Map
    pub target_binaries : e.names.Map
    pub binary_filter_enabled : e.numbers.Map

  pub record LsmObjects : Type 0 where
    pub ks_allowed_pids : e.numbers.Map
    pub protected_pids : e.numbers.Map
    pub policy_config : e.policies.Map
    pub has_file_open : Bool
    pub has_ptrace_access_check : Bool
    pub has_events : Bool

  -- What the library answers to `LoadExecMonitor`: the specification, `LoadAndAssign`, the three
  -- tracepoints, each with its link, and the reader.
  pub record ExecLoad : Type 0 where
    pub spec_loaded : Bool
    pub objects : Option ExecObjects
    pub sys_enter_execve : Option ℕ
    pub sched_process_exec : Option ℕ
    pub sched_process_exit : Option ℕ
    pub reader_created : Bool

  -- What it answers to `LoadLSM`, after the text of /sys/kernel/security/lsm.
  pub record LsmLoad : Type 0 where
    pub lsm : Option Bytes
    pub spec_loaded : Bool
    pub objects : Option LsmObjects
    pub file_open : Option ℕ
    pub ptrace : Option ℕ
    pub reader_created : Bool

  abbrev pub assign_exec : ExecObjects → Loader → Loader
  assign_exec o a = record a {
    manager = record a.manager {
      seen_pids = some o.seen_pids;
      target_cgroups = some o.target_cgroups;
      cgroup_filter_enabled = some o.cgroup_filter_enabled;
      target_binaries = some o.target_binaries;
      binary_filter_enabled = some o.binary_filter_enabled;
    };
  }

  abbrev pub assign_lsm : LsmObjects → Loader → Loader
  assign_lsm o a = record a {
    manager = record a.manager {
      ks_allowed_pids = some o.ks_allowed_pids;
      protected_pids = some o.protected_pids;
      policy_config = some o.policy_config;
    };
  }

  -- `link.Tracepoint`, one after another, up to the first that fails.
  unfoldable pub attach_tracepoints :
      List (Option ℕ × LoadError) → Loader → Loader × Option LoadError
  attach_tracepoints [] a = (a, none)
  attach_tracepoints ((none, err) ∷ rest) a = (a, some err)
  attach_tracepoints ((some l, err) ∷ rest) a =
      attach_tracepoints rest
        (record a { exec_links = a.exec_links ++ l ∷ []; attached = l ∷ a.attached })

  abbrev pub open_exec_reader : Bool → Loader × Option LoadError → Loader × Option LoadError
  open_exec_reader created (a, some err) = (a, some err)
  open_exec_reader created (a, none) = (
    record a { exec_reader = new_reader created },
    if created then none else some exec_reader_failed,
  )

  abbrev pub attach_exec : ExecLoad → Option ExecObjects → Loader → Loader × Option LoadError
  attach_exec o none a = (a, some exec_objects_failed)
  attach_exec o (some objs) a = open_exec_reader o.reader_created (
      attach_tracepoints
        ((o.sys_enter_execve, execve_unattached)
          ∷ (o.sched_process_exec, sched_exec_unattached)
          ∷ (o.sched_process_exit, exit_unattached)
          ∷ [])
        (assign_exec objs a))

  -- `Manager.LoadExecMonitor`.
  unfoldable pub load_exec_monitor : Bool → ExecLoad → Loader → Loader × Option LoadError
  unfolding attach_tracepoints
  load_exec_monitor memlock_removed o a =
      if not memlock_removed
      then (a, some memlock_kept)
      else if not o.spec_loaded
      then (a, some exec_spec_failed)
      else attach_exec o o.objects a

  -- `link.AttachLSM`: a failure is only logged.
  abbrev pub attach_hook : Bool → Option ℕ → Loader → Loader
  attach_hook false outcome a = a
  attach_hook true none a = a
  attach_hook true (some l) a = record a {
    lsm_links = a.lsm_links ++ l ∷ [];
    attached = l ∷ a.attached;
  }

  abbrev pub open_lsm_reader : Bool → Bool → Loader → Loader × Option LoadError
  open_lsm_reader false created a = (a, none)
  open_lsm_reader true created a = (
    record a { lsm_reader = new_reader created },
    if created then none else some lsm_reader_failed,
  )

  -- Objects that do not load are only logged too.
  abbrev pub attach_lsm : LsmLoad → Option LsmObjects → Loader → Loader × Option LoadError
  attach_lsm o none a = (a, none)
  attach_lsm o (some objs) a = open_lsm_reader objs.has_events o.reader_created (
      attach_hook objs.has_ptrace_access_check o.ptrace
        (attach_hook objs.has_file_open o.file_open (assign_lsm objs a)))

  -- `Manager.LoadLSM`.
  unfoldable pub load_lsm : Bool → LsmLoad → Loader → Loader × Option LoadError
  unfolding is_lsm_available
  load_lsm memlock_removed o a =
      if not (is_lsm_available o.lsm)
      then (a, none)
      else if not memlock_removed
      then (a, some memlock_kept)
      else if not o.spec_loaded
      then (a, some lsm_spec_failed)
      else attach_lsm o o.objects a

  abbrev lsm_loop_of : Reader → List Loop
  lsm_loop_of absent = []
  lsm_loop_of opened = lsm_loop ∷ []
  lsm_loop_of shut = lsm_loop ∷ []

  -- `Manager.Start`.
  unfoldable pub start : Loader → Loader
  start a = record a { running = exec_loop ∷ lsm_loop_of a.lsm_reader }

  -- `Manager.stop`: whether the goroutines return in time decides about a log line only.
  unfoldable pub stop_now : Loader → Loader
  unfolding close_links
  stop_now a = record a {
    exec_reader = close_reader a.exec_reader;
    lsm_reader = close_reader a.lsm_reader;
    stopped = true;
    attached = close_links a.lsm_links (close_links a.exec_links a.attached);
  }

  -- `Manager.Stop`, under its `sync.Once`.
  unfoldable pub stop : Loader → Loader
  unfolding stop_now
  stop a = if a.stopped then a else stop_now a
