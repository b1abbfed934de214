-- ===== src/Tests/Interleaving.antt =====
-- Two goroutines of one process, interleaved; and a goroutine of a process whose PID was taken over.
use x.Server.Peer.{process_start_time, after_comm}
use x.Identity.{attribute, caller_of_cgroup}
use x.Text.Sort.{sort, place, le_bytes}
use x.Text.{
  base, strip_slashes, split, trim_space, trim_left, trim_right, has_prefix, trim_prefix,
  trim_suffix, after_last, fields_from, parse_uint, parse_digits, to_lower, replace_all,
}
use x.Base.{
  ℕ, ◌≡◌, ◌≢◌, refl, true, false, [], ◌∷◌, some, Bytes, codes, lookup, eqb, insert, keep, delete,
  gather, sym, ◌∙◌, List, arith, Option,
}
use x.Types.{new_default_policy}
use x.Metrics.{Collector, new_collector, record_secrets_issued, record_secrets_denied}
use x.Bpf.Manager.{protect_pid, unprotect_pid, track_pid}
use x.Bpf.Protection.{is_protected, is_guarded}
use x.Kube.{index}
use x.Kube.Watch.{lookup_pod}
use x.Cgroup.{
  resolve, path_for, unified_path, parse_pod, scan_segments, pod_uid_segment, match_pod, read_uid,
  hex_run, separator, is_separator, is_hex, after_dashes, container_id_segment, strip_runtime,
  hex_prefix, is_relative, has_dots, id_for,
}
use x.Secrets.{
  Match, admits, consider, consider_all, names_other_binary, has_namespace, has_labels,
  has_container, is_empty_match,
}
use x.Secrets
use x.Identity
use x.Server.Handle.{names_nothing, identify, issue, add_env}
use x.Server.Kernel.{bpf_protector}
use x.Server.Machine.{idle, arrived, rereading, replied, decide, begin, advance}
use x.Server.Interleaving.{update, Machine, move, release, accepted, moved, Reaches, here, onward}
use x.Server.Interleaving.Safety.{Reaches-guards_replied}
use x.Server.Interleaving.Race.{roll_back-guards}
use x.Agent.{secret_server, pods_of}
use x.Tests.Maps.{ebpf, laws, unprotect_pid_total}
use x.Tests.Scene.{server, cred, request, world, password, stat, sent, by_bpf}

abbrev M : Type 0
M = Machine ebpf (Collector Unit ℕ)

abbrev quiet : M
quiet = record {
  world = world;
  proc = λ pid. some stat;
  workers = λ i. record { cred = cred; request = request; phase = idle };
}

abbrev accept : ℕ → M → M
accept i a = record a {
  workers = update a.workers i (record { cred = cred; request = request; phase = arrived });
}

abbrev set_stat : Option Bytes → M → M
set_stat s a = record a { proc = update a.proc 42 s }

unfoldable moves : List ℕ → M → M
moves [] a = a
moves (i ∷ is) a = moves is (move ebpf (Collector Unit ℕ) server i a)

abbrev both : M
both = accept 1 (accept 0 quiet)

abbrev turns : List ℕ
turns = 0 ∷ 0 ∷ 1 ∷ 0 ∷ 1 ∷ 0 ∷ 0 ∷ 1 ∷ 0 ∷ []

moves-Reaches :
    (is : List ℕ) (a z : M)
    → Reaches ebpf (Collector Unit ℕ) 42 z (moves is a)
    → Reaches ebpf (Collector Unit ℕ) 42 z a
unfolding moves
moves-Reaches [] a z r = r
moves-Reaches (i ∷ is) a z r =
    onward a (move ebpf (Collector Unit ℕ) server i a) (moved server i by_bpf refl) tt
      (moves-Reaches is (move ebpf (Collector Unit ℕ) server i a) z r)

-- The first goroutine has replied, the second has yet to make its roll of accesses.
abbrev ahead : M
ahead = moves turns both

idle_still : ((accept 0 quiet).workers 1).phase ≡ idle
unfolding update
idle_still = refl

reached : Reaches ebpf (Collector Unit ℕ) 42 ahead quiet
reached = onward quiet (accept 0 quiet) (accepted 0 cred request refl refl) tt (
    onward (accept 0 quiet) both (accepted 1 cred request idle_still refl) tt
      (moves-Reaches turns both ahead here))

told : (ahead.workers 0).phase ≡ replied sent
unfolding lookup insert eqb keep gather new_default_policy new_collector record_secrets_issued
    record_secrets_denied base strip_slashes split trim_space trim_left trim_right has_prefix
    trim_prefix trim_suffix after_last fields_from parse_uint parse_digits to_lower replace_all sort
    place le_bytes index lookup_pod resolve path_for unified_path parse_pod scan_segments
    pod_uid_segment match_pod read_uid hex_run separator is_separator is_hex after_dashes
    container_id_segment strip_runtime hex_prefix is_relative has_dots id_for attribute
    caller_of_cgroup consider consider_all names_other_binary admits has_namespace has_labels
    has_container is_empty_match protect_pid track_pid unprotect_pid process_start_time after_comm
    names_nothing identify issue add_env move update moves decide begin advance bpf_protector
    secret_server pods_of Identity.identify Secrets.lookup
told = refl

told_cred : (ahead.workers 0).cred.pid ≡ 42
unfolding update moves move
told_cred = refl

Reaches-guards_replied_example : is_guarded ebpf laws ahead.world.kernel 42 ≡ true
Reaches-guards_replied_example =
    Reaches-guards_replied ebpf laws (Collector Unit ℕ) 42 quiet ahead 0 sent (λ i h. refl) reached
      told_cred told refl

-- The first process has exited, and another has its PID, and is served.
abbrev later_stat : Bytes
later_stat = codes "42 (app) S 1 42 42 0 -1 4194560 1 0 0 0 0 0 0 0 20 0 1 0 8888 0"

abbrev raced : M
raced = moves (1 ∷ 1 ∷ 1 ∷ 1 ∷ 1 ∷ 1 ∷ []) (
    accept 1 (
      release ebpf (Collector Unit ℕ) 42
        (set_stat (some later_stat) (moves (0 ∷ 0 ∷ 0 ∷ 0 ∷ []) (accept 0 quiet)))))

held : Match
held = record { secrets = password ∷ []; unresolved = []; rejected = []; refused = [] }

other_start : ◌≡◌ {A = Option ℕ} (some 8888) (some 7777) → ◌≡◌ {A = ℕ} 8888 7777
other_start h = cc

-- The second process was told that it is protected, and is.
second_told : (raced.workers 1).phase ≡ replied sent
unfolding lookup insert eqb keep gather new_default_policy new_collector record_secrets_issued
    record_secrets_denied base strip_slashes split trim_space trim_left trim_right has_prefix
    trim_prefix trim_suffix after_last fields_from parse_uint parse_digits to_lower replace_all sort
    place le_bytes index lookup_pod resolve path_for unified_path parse_pod scan_segments
    pod_uid_segment match_pod read_uid hex_run separator is_separator is_hex after_dashes
    container_id_segment strip_runtime hex_prefix is_relative has_dots id_for attribute
    caller_of_cgroup consider consider_all names_other_binary admits has_namespace has_labels
    has_container is_empty_match protect_pid track_pid unprotect_pid process_start_time after_comm
    names_nothing identify issue add_env move update moves decide begin advance bpf_protector
    secret_server pods_of Identity.identify Secrets.lookup release
second_told = refl

second_guarded : is_protected ebpf laws raced.world.kernel 42 ≡ true
unfolding is_protected laws lookup insert eqb keep gather new_default_policy new_collector
    record_secrets_issued record_secrets_denied base strip_slashes split trim_space trim_left
    trim_right has_prefix trim_prefix trim_suffix after_last fields_from parse_uint parse_digits
    to_lower replace_all sort place le_bytes index lookup_pod resolve path_for unified_path
    parse_pod scan_segments pod_uid_segment match_pod read_uid hex_run separator is_separator is_hex
    after_dashes container_id_segment strip_runtime hex_prefix is_relative has_dots id_for attribute
    caller_of_cgroup consider consider_all names_other_binary admits has_namespace has_labels
    has_container is_empty_match protect_pid track_pid unprotect_pid process_start_time after_comm
    names_nothing identify issue add_env move update moves decide begin advance bpf_protector
    secret_server pods_of Identity.identify Secrets.lookup release delete
second_guarded = refl

first_stands : (raced.workers 0).phase ≡ rereading held 7777 true
unfolding held lookup insert eqb keep gather new_default_policy new_collector record_secrets_issued
    record_secrets_denied base strip_slashes split trim_space trim_left trim_right has_prefix
    trim_prefix trim_suffix after_last fields_from parse_uint parse_digits to_lower replace_all sort
    place le_bytes index lookup_pod resolve path_for unified_path parse_pod scan_segments
    pod_uid_segment match_pod read_uid hex_run separator is_separator is_hex after_dashes
    container_id_segment strip_runtime hex_prefix is_relative has_dots id_for attribute
    caller_of_cgroup consider consider_all names_other_binary admits has_namespace has_labels
    has_container is_empty_match protect_pid track_pid unprotect_pid process_start_time after_comm
    names_nothing identify issue add_env move update moves decide begin advance bpf_protector
    secret_server pods_of Identity.identify Secrets.lookup release
first_stands = refl

start_now : process_start_time (raced.proc (raced.workers 0).cred.pid) ≡ some 8888
unfolding process_start_time update moves move release trim_space trim_left trim_right after_last
    after_comm fields_from parse_uint parse_digits
start_now = refl

taken_over : process_start_time (raced.proc (raced.workers 0).cred.pid) ≢ some 7777
taken_over h = omega (arith, other_start (sym start_now ∙ h))

roll_back-guards_example :
    (is_protected ebpf laws
        (move ebpf
          (Collector Unit ℕ)
          server
          0
          (move ebpf (Collector Unit ℕ) server 0 raced)).world.kernel
        42
      ≡ false)
    × ((move ebpf (Collector Unit ℕ) server 0 (move ebpf (Collector Unit ℕ) server 0 raced)).workers
          1
        ≡ raced.workers 1)
unfolding update moves move unprotect_pid release
roll_back-guards_example =
    roll_back-guards ebpf laws (Collector Unit ℕ) server by_bpf 0 raced held 7777 true 1
      first_stands taken_over (unprotect_pid_total raced.world.kernel 42) (λ h. cc)
