-- ===== src/Tests/Refusal.antt =====
-- Exchanges that deliver nothing: a binding with no secrets, and a refusal.
use x.Server.Peer.{process_start_time, after_comm}
use x.Identity.{attribute, caller_of_cgroup}
use x.Text.Sort.{sort, place, le_bytes}
use x.Text.{
  base, strip_slashes, split, trim_space, trim_left, trim_right, has_prefix, trim_prefix,
  trim_suffix, after_last, fields_from, parse_uint, parse_digits, to_lower, replace_all,
}
use x.Base.{
  false, inl, inr, is_some, ℕ, ◌≡◌, refl, true, [], ◌∷◌, none, some, Bytes, codes, lookup, eqb,
  insert, keep, gather, ap,
}
use x.Types.{new_default_policy}
use x.Metrics.{Collector, new_collector, record_secrets_issued, record_secrets_denied}
use x.Bpf.Manager.{BpfError, Manager, protect_pid, unprotect_pid, track_pid}
use x.Policy.Config.{required}
use x.Kube.{index}
use x.Kube.Watch.{lookup_pod}
use x.Cgroup.{
  resolve, path_for, unified_path, parse_pod, scan_segments, pod_uid_segment, match_pod, read_uid,
  hex_run, separator, is_separator, is_hex, after_dashes, container_id_segment, strip_runtime,
  hex_prefix, is_relative, has_dots, id_for,
}
use x.Secrets.{
  Secret, Selector, Binding, Registry, Caller, Match, admits, consider, consider_all,
  names_other_binary, has_namespace, has_labels, has_container, is_empty_match,
}
use x.Secrets
use x.Identity
use x.Server.Handle.{
  Request, Response, Server, World, handle, names_nothing, identify, serve, guard_and_issue,
  confirm, issue, add_env,
}
use x.Server.Connection.{handle_conn}
use x.Server.Kernel.{bpf_protector}
use x.Server.Refused.{handle_refused-guards}
use x.Agent.{by_pods, secret_server, pods_of}
use x.Tests.Maps.{ebpf, manager}
use x.Secrets.Matching.{Entitles}
use x.Server.Cases.{caller_of, tracked}
use x.Server.Release.{handle_unprotected-bindings}
use x.Bpf.Protection.{is_protected}
use x.Tests.Maps.{ebpf, laws, manager, assoc_laws, unprotect_pid_total}
use x.Tests.Scene.{files, watcher, selector, server, cred, request, reads, world, by_bpf}

abbrev bare : Binding
bare = record {
  name = codes "db";
  selector = selector;
  secrets = [];
  unresolved = [];
  rejected = none;
}

abbrev bare_registry : Registry
bare_registry = record { bindings = bare ∷ [] }

abbrev bare_server : Server (Manager ebpf) BpfError (Collector Unit ℕ)
bare_server =
    secret_server ebpf required new_default_policy bare_registry files (by_pods watcher) watcher

abbrev unprotected : Response
unprotected = record { ok = true; env = []; protected = false; error = none; warnings = [] }

bare_run : (handle bare_server reads cred request world).1 ≡ unprotected
unfolding lookup insert eqb keep gather new_default_policy new_collector record_secrets_issued
    record_secrets_denied base strip_slashes split trim_space trim_left trim_right has_prefix
    trim_prefix trim_suffix after_last fields_from parse_uint parse_digits to_lower replace_all sort
    place le_bytes index lookup_pod resolve path_for unified_path parse_pod scan_segments
    pod_uid_segment match_pod read_uid hex_run separator is_separator is_hex after_dashes
    container_id_segment strip_runtime hex_prefix is_relative has_dots id_for attribute
    caller_of_cgroup consider consider_all names_other_binary admits has_namespace has_labels
    has_container is_empty_match protect_pid track_pid unprotect_pid process_start_time after_comm
    handle names_nothing identify serve guard_and_issue confirm issue add_env handle_conn
    bpf_protector secret_server pods_of Identity.identify Secrets.lookup
bare_run = refl

bare_by_registry :
    (binary : Bytes) (c : Caller)
    → bare_server.resolver binary c ≡ Secrets.lookup bare_registry binary c
unfolding secret_server
bare_by_registry binary c = refl

bare_demands_protection : bare_server.cfg.require_protection ≡ true
unfolding secret_server new_default_policy
bare_demands_protection = refl

handle_unprotected-bindings_example :
    Entitles (codes "app") (caller_of bare_server reads cred request world) bare_registry bare
    × (bare.secrets ≡ [])
    × (bare.unresolved ≡ [])
unfolding base strip_slashes
handle_unprotected-bindings_example =
    handle_unprotected-bindings bare_server bare_registry bare_by_registry reads cred request world
      bare bare_demands_protection (ap (λ (r : Response). r.ok) bare_run)
      (ap (λ (r : Response). r.protected) bare_run) (inl refl) (inr refl)

-- The process is guarded already, and names no binary.
abbrev guarded_world : World (Manager ebpf) (Collector Unit ℕ)
guarded_world = record {
  kernel = record manager { protected_pids = some ((42, 1) ∷ []) };
  observer = world.observer;
}

abbrev no_binary : Request
no_binary = record { binary = [] }

refused_run : (handle server reads cred no_binary guarded_world).1.ok ≡ false
unfolding lookup insert eqb keep gather new_default_policy new_collector record_secrets_issued
    record_secrets_denied base strip_slashes split trim_space trim_left trim_right has_prefix
    trim_prefix trim_suffix after_last fields_from parse_uint parse_digits to_lower replace_all sort
    place le_bytes index lookup_pod resolve path_for unified_path parse_pod scan_segments
    pod_uid_segment match_pod read_uid hex_run separator is_separator is_hex after_dashes
    container_id_segment strip_runtime hex_prefix is_relative has_dots id_for attribute
    caller_of_cgroup consider consider_all names_other_binary admits has_namespace has_labels
    has_container is_empty_match protect_pid track_pid unprotect_pid process_start_time after_comm
    handle names_nothing identify serve guard_and_issue confirm issue add_env handle_conn
    bpf_protector secret_server pods_of Identity.identify Secrets.lookup
refused_run = refl

was_guarded :
    is_protected ebpf laws (handle server reads cred no_binary guarded_world).0.kernel 42 ≡ true
unfolding is_protected laws assoc_laws lookup insert eqb keep gather new_default_policy
    new_collector record_secrets_issued record_secrets_denied base strip_slashes split trim_space
    trim_left trim_right has_prefix trim_prefix trim_suffix after_last fields_from parse_uint
    parse_digits to_lower replace_all sort place le_bytes index lookup_pod resolve path_for
    unified_path parse_pod scan_segments pod_uid_segment match_pod read_uid hex_run separator
    is_separator is_hex after_dashes container_id_segment strip_runtime hex_prefix is_relative
    has_dots id_for attribute caller_of_cgroup consider consider_all names_other_binary admits
    has_namespace has_labels has_container is_empty_match protect_pid track_pid unprotect_pid
    process_start_time after_comm handle names_nothing identify serve guard_and_issue confirm issue
    add_env handle_conn bpf_protector secret_server pods_of Identity.identify Secrets.lookup
was_guarded = refl

released :
    is_some
      (server.protector.unprotect_pid
        (tracked server reads cred no_binary guarded_world).kernel
        42).1
    ≡ false
unfolding secret_server bpf_protector
released = unprotect_pid_total (tracked server reads cred no_binary guarded_world).kernel 42

handle_refused-guards_example : is_protected ebpf laws guarded_world.kernel 42 ≡ true
handle_refused-guards_example =
    handle_refused-guards ebpf laws server by_bpf reads cred no_binary guarded_world refused_run
      released was_guarded
