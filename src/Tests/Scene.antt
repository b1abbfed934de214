-- ===== src/Tests/Scene.antt =====
-- A pod whose process asks an agent in required and enforce mode for its secret, and gets it.
use x.Server.Peer.{process_start_time, after_comm}
use x.Identity.{attribute, caller_of_cgroup}
use x.Text.Sort.{sort, place, le_bytes}
use x.Text.{
  base, strip_slashes, split, trim_space, trim_left, trim_right, has_prefix, trim_prefix,
  trim_suffix, after_last, fields_from, parse_uint, parse_digits, to_lower, replace_all,
}
use x.Base.{
  ℕ, ◌≡◌, ◌≢◌, refl, true, [], ◌∷◌, ◌++◌, none, some, Bytes, codes, lookup, eqb, insert, keep,
  gather, sym, ap, ◌∙◌,
}
use x.Types.{new_default_policy}
use x.Metrics.{Collector, new_collector, record_secrets_issued, record_secrets_denied}
use x.Bpf.Manager.{BpfError, Manager, protect_pid, unprotect_pid, track_pid}
use x.Policy.Config.{required}
use x.Kube.{Pod, index}
use x.Kube.Watch.{Watcher, lookup_pod}
use x.Cgroup.{
  CgroupFiles, resolve, path_for, unified_path, parse_pod, scan_segments, pod_uid_segment,
  match_pod, read_uid, hex_run, separator, is_separator, is_hex, after_dashes, container_id_segment,
  strip_runtime, hex_prefix, is_relative, has_dots, id_for,
}
use x.Secrets.{
  Secret, Selector, Binding, Registry, Caller, Match, admits, consider, consider_all,
  names_other_binary, has_namespace, has_labels, has_container, is_empty_match,
}
use x.Secrets
use x.Identity
use x.Server.Handle.{
  Ucred, Request, Response, Server, World, StatReads, handle, names_nothing, identify, serve,
  guard_and_issue, confirm, issue, add_env,
}
use x.Server.Connection.{handle_conn}
use x.Server.Kernel.{bpf_protector}
use x.Agent.{by_pods, secret_server, pods_of}
use x.Agent.Timeline.{System, Setting}
use x.Tests.Maps.{ebpf, manager}

abbrev pub uid : Bytes
uid = codes "0a1b2c3d-0000-1111-2222-0a1b2c3d4e5f"

abbrev pub cid : Bytes
cid = codes "0123456789abcdef"

abbrev pub files : CgroupFiles
files = record {
  membership = λ pid. some (codes "0::/kubepods/pod" ++ uid ++ codes "/" ++ cid);
  handle = λ p. none;
  inode = λ p. none;
}

abbrev pub pod : Pod
pod = record {
  uid = uid;
  name = codes "web";
  namespace = codes "shop";
  labels = [];
  containers = (cid, codes "app") ∷ [];
}

abbrev pub watcher : Watcher
watcher = record { by_uid = (uid, pod) ∷ []; synced = true }

abbrev pub selector : Selector
selector = record {
  binary = codes "app";
  container = [];
  namespace = codes "shop";
  labels = [];
  cgroup_path = [];
}

abbrev pub password : Secret
password = record { name = codes "DB"; value = codes "hunter2" }

abbrev pub binding : Binding
binding = record {
  name = codes "db";
  selector = selector;
  secrets = password ∷ [];
  unresolved = [];
  rejected = none;
}

abbrev pub registry : Registry
registry = record { bindings = binding ∷ [] }

abbrev pub stat : Bytes
stat = codes "42 (app) S 1 42 42 0 -1 4194560 1 0 0 0 0 0 0 0 20 0 1 0 7777 0"

abbrev pub setting : Setting ebpf Unit ℕ
setting = record {
  mode = required;
  policy = new_default_policy;
  registry = registry;
  files = files;
  started = by_pods watcher;
  watcher = watcher;
}

abbrev pub server : Server (Manager ebpf) BpfError (Collector Unit ℕ)
server = secret_server ebpf required new_default_policy registry files (by_pods watcher) watcher

abbrev pub cred : Ucred
cred = record { pid = 42; uid = 0; gid = 0 }

abbrev pub request : Request
request = record { binary = codes "/bin/app" }

abbrev pub reads : StatReads
reads = record { before = some stat; after = some stat }

abbrev pub system : System ebpf Unit ℕ
system = record {
  bpf_manager = manager;
  collector = new_collector;
  reconciler = record { reclaimed = 0 };
}

abbrev pub world : World (Manager ebpf) (Collector Unit ℕ)
world = record { kernel = manager; observer = new_collector }

abbrev pub sent : Response
sent = record {
  ok = true;
  env = (codes "DB", codes "hunter2") ∷ [];
  protected = true;
  error = none;
  warnings = [];
}

-- The caller gets its secret.
pub run : (handle server reads cred request world).1 ≡ sent
unfolding lookup insert eqb keep gather new_default_policy new_collector record_secrets_issued
    record_secrets_denied base strip_slashes split trim_space trim_left trim_right has_prefix
    trim_prefix trim_suffix after_last fields_from parse_uint parse_digits to_lower replace_all sort
    place le_bytes index lookup_pod resolve path_for unified_path parse_pod scan_segments
    pod_uid_segment match_pod read_uid hex_run separator is_separator is_hex after_dashes
    container_id_segment strip_runtime hex_prefix is_relative has_dots id_for attribute
    caller_of_cgroup consider consider_all names_other_binary admits has_namespace has_labels
    has_container is_empty_match protect_pid track_pid unprotect_pid process_start_time after_comm
    handle names_nothing identify serve guard_and_issue confirm issue add_env handle_conn
    bpf_protector secret_server pods_of Identity.identify Secrets.lookup
run = refl

pub by_bpf : server.protector ≡ bpf_protector ebpf
unfolding secret_server
by_bpf = refl

pub by_registry :
    (binary : Bytes) (c : Caller) → server.resolver binary c ≡ Secrets.lookup registry binary c
unfolding secret_server
by_registry binary c = refl

pub demands_protection : server.cfg.require_protection ≡ true
unfolding secret_server new_default_policy
demands_protection = refl

pub demands_pod : server.cfg.require_pod_identity ≡ true
unfolding secret_server
demands_pod = refl

pub sent_some : sent.env ≢ []
sent_some h = cc

pub not_empty : (handle server reads cred request world).1.env ≢ []
not_empty h = sent_some (sym (ap (λ (r : Response). r.env) run) ∙ h)

pub has_value :
    lookup eqb (codes "DB") (handle server reads cred request world).1.env ≡ some (codes "hunter2")
unfolding lookup eqb
has_value = ap (λ (r : Response). lookup eqb (codes "DB") r.env) run
