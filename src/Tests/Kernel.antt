-- ===== src/Tests/Kernel.antt =====
-- Sweeps, events and names, over maps that are association lists.
use x.Base.{
  true, ℕ, ◌≡◌, refl, Bool, false, ◌&&◌, ◌||◌, List, [], ◌∷◌, ◌++◌, some, arith, Bytes, codes, eqb,
  eqb_iff, length, ltb, ◌==◌, is_some,
}
use x.Metrics.{new_collector}
use x.Bpf.Maps.{MapLaws}
use x.Bpf.Manager.{Manager, list_protected_pids, binary_key, add_target_binary}
use x.Bpf.Protection.{is_protected}
use x.Bpf.Filter.{is_target, add_target_binary-is_target}
use x.Reconcile.{Reconciler, sweep, Wake, stopped, tick, run_loop}
use x.Reconcile.Loop.{lives_through, run_loop-guards}
use x.Reconcile.Sweep.{bpf_store}
use x.Server.Connection.{Conn, handle_conn}
use x.Agent.Timeline.{System, world, with_world, server_of, connection}
use x.Agent.Reclaim.{Follows, here, onward, swept-Follows}
use x.Tests.Scene.{cred, request, reads, setting}
use x.Tests.Maps.{ebpf, laws, assoc_laws, manager, unprotect_pid_total}

abbrev guarding : Manager ebpf
guarding = record manager { protected_pids = some ((42, 1) ∷ (7, 1) ∷ []) }

abbrev alive : ℕ → Bool
alive pid = pid == 42

abbrev reconciler : Reconciler
reconciler = record { reclaimed = 3 }

listed : list_protected_pids ebpf guarding ≡ some (42 ∷ 7 ∷ [])
unfolding list_protected_pids
listed = refl

abbrev long_name : Bytes
long_name = codes "a-very-long-binary-name"

abbrev comm : Bytes
comm = codes "a-very-long-bin" ++ 0 ∷ []

names_laws : MapLaws ebpf.names eqb
names_laws = assoc_laws eqb eqb_iff

added : is_some (add_target_binary ebpf manager long_name).1 ≡ false
unfolding add_target_binary
added = refl

add_target_binary-is_target_example :
    is_target ebpf names_laws (add_target_binary ebpf manager long_name).0 comm ≡ (
      (ltb (length long_name) 16 && eqb (binary_key long_name) comm)
      || is_target ebpf names_laws manager comm)
add_target_binary-is_target_example =
    add_target_binary-is_target ebpf names_laws manager long_name comm (omega arith) refl added

abbrev neglected : System ebpf Unit ℕ
neglected = record { bpf_manager = guarding; collector = new_collector; reconciler = reconciler }

abbrev swept_once : System ebpf Unit ℕ
swept_once =
    let (k, r, n) = sweep (bpf_store ebpf) alive guarding reconciler in
    record neglected { bpf_manager = k; reconciler = r }

abbrev next_conn : Conn
next_conn = record {
  deadline_set = true;
  is_unix = true;
  peer_cred = some cred;
  request = some request;
  reads = reads;
}

abbrev then_served : System ebpf Unit ℕ
then_served =
    with_world ebpf Unit ℕ swept_once
      (handle_conn (server_of ebpf Unit ℕ setting) next_conn (world ebpf Unit ℕ swept_once)).0

followed : Follows ebpf Unit ℕ 7 then_served swept_once
followed =
    onward swept_once then_served (connection setting next_conn refl) (λ h. omega (arith, h)) here

swept-Follows_example : is_protected ebpf laws then_served.bpf_manager 7 ≡ false
swept-Follows_example =
    swept-Follows ebpf laws Unit ℕ alive neglected then_served (42 ∷ 7 ∷ []) 7 unprotect_pid_total
      listed refl followed

lists : (m : Manager ebpf) → is_some (list_protected_pids ebpf m) ≡ true
unfolding list_protected_pids
lists m = ground arith

abbrev wakes : List Wake
wakes = tick (λ pid. true) ∷ tick alive ∷ stopped ∷ tick (λ pid. false) ∷ []

run_loop-guards_example :
    is_protected ebpf laws (run_loop (bpf_store ebpf) wakes guarding reconciler).0 42
    ≡ (is_protected ebpf laws guarding 42 && lives_through 42 wakes)
run_loop-guards_example =
    run_loop-guards ebpf laws wakes guarding reconciler 42 lists unprotect_pid_total
