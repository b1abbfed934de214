-- ===== src/Bpf/Programs.antt =====
-- bpf/lsm_file_protect.bpf.c and bpf/exec_monitor.bpf.c: what the BPF programs read in the maps that the
-- manager writes, and whether the LSM programs refuse an access. Events and reads of kernel structures are
-- left out.
use x.Base.{
  ℕ, ◌≡◌, ◌≢◌, refl, Bool, true, false, not, ◌&&◌, ◌||◌, Option, none, some, arith, ◌==◌,
  if◌then◌else◌,
}
use x.Types.{PolicyConfig, mode_disabled, mode_enforce}

-- `found && *found == 1`.
unfoldable pub is_one : Option ℕ → Bool
is_one none = false
is_one (some v) = v == 1

-- A file of /proc/<pid>, as `classify_proc_file` tells them apart, and an attach by ptrace.
pub data Access : Type 0 where
  environ mem maps other_file ptrace : Access

-- The policy's flag for an access.
abbrev pub flag : PolicyConfig → Access → ℕ
flag policy environ = policy.block_environ
flag policy mem = policy.block_mem
flag policy maps = policy.block_maps
flag policy other_file = 0
flag policy ptrace = policy.block_ptrace

abbrev is_set : ℕ → Bool
is_set n = not (n == 0)

abbrev is_classified : Access → Bool
is_classified environ = true
is_classified mem = true
is_classified maps = true
is_classified other_file = false
is_classified ptrace = false

-- `ks_file_open` of a file in the directory of `target`: whether it gives -EPERM. `allowed` and `marked` are
-- what it finds under the reader and under the target.
unfoldable pub file_open : Option PolicyConfig → Option ℕ → Option ℕ → ℕ → ℕ → Access → Bool
unfolding is_one
file_open none allowed marked reader target a = false
file_open (some policy) allowed marked reader target a =
    if policy.enforce_mode == mode_disabled
    then false
    else if is_one allowed
    then false
    else if not (is_classified a)
    then false
    else if target == 0
    then false
    else if not (is_one marked)
    then false
    else if is_set (flag policy a) && not (is_set policy.allow_self_read && (reader == target))
    then policy.enforce_mode == mode_enforce
    else false

-- `ks_ptrace_access_check`.
unfoldable pub ptrace_access_check : Option PolicyConfig → Option ℕ → Option ℕ → ℕ → ℕ → Bool
unfolding is_one
ptrace_access_check none allowed marked tracer child = false
ptrace_access_check (some policy) allowed marked tracer child =
    if (policy.enforce_mode == mode_disabled) || not (is_set policy.block_ptrace)
    then false
    else if is_one allowed
    then false
    else if not (is_one marked)
    then false
    else if is_set policy.allow_self_read && (tracer == child)
    then false
    else policy.enforce_mode == mode_enforce

-- The program that sees an access.
abbrev pub refuses : Option PolicyConfig → Option ℕ → Option ℕ → ℕ → ℕ → Access → Bool
unfolding file_open ptrace_access_check
refuses policy allowed marked reader target ptrace =
    ptrace_access_check policy allowed marked reader target
refuses policy allowed marked reader target environ =
    file_open policy allowed marked reader target environ
refuses policy allowed marked reader target mem = file_open policy allowed marked reader target mem
refuses policy allowed marked reader target maps =
    file_open policy allowed marked reader target maps
refuses policy allowed marked reader target other_file =
    file_open policy allowed marked reader target other_file

-- A marked process is closed to another process that is not let through, for what an enforced policy blocks.
pub refuses-is_one :
    (policy : PolicyConfig) (allowed marked : Option ℕ) (reader target : ℕ) (a : Access)
    → policy.enforce_mode ≡ mode_enforce
    → flag policy a ≢ 0
    → is_one allowed ≡ false
    → reader ≢ target
    → target ≢ 0
    → is_one marked ≡ true
    → refuses (some policy) allowed marked reader target a ≡ true
unfolding file_open ptrace_access_check
refuses-is_one policy allowed marked reader target environ m f n o z k = ground arith
refuses-is_one policy allowed marked reader target mem m f n o z k = ground arith
refuses-is_one policy allowed marked reader target maps m f n o z k = ground arith
refuses-is_one policy allowed marked reader target other_file m f n o z k = absurd (f refl)
refuses-is_one policy allowed marked reader target ptrace m f n o z k = ground arith
