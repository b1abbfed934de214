-- ===== src/Server/Closed.antt =====
-- internal/server/server.go and bpf/lsm_file_protect.bpf.c: what the LSM programs do about a process that
-- was told it is protected.
use x.Base.{ℕ, ◌≡◌, ◌≢◌, true, false, Option, some, ◌==◌}
use x.Types.{PolicyConfig, mode_enforce}
use x.Bpf.Maps.{MapLaws, Ebpf}
use x.Bpf.Programs.{is_one, Access, flag, refuses, refuses-is_one}
use x.Bpf.Manager.{BpfError, Manager}
use x.Bpf.Protection.{entry, is_guarded}
use x.Server.Handle.{Ucred, Request, Server, World, StatReads, handle}
use x.Server.Kernel.{bpf_protector, handle-guards}

module _ (e : Ebpf) (laws : MapLaws e.numbers ◌==◌) {W : Type 0} (s : Server (Manager e) BpfError W)
    (by_bpf : s.protector ≡ bpf_protector e) (reads : StatReads) (cred : Ucred) (req : Request)
    (w : World (Manager e) W) where
  -- With the BPF manager as protector, whenever a response says that the caller is protected, the LSM
  -- program that sees an access to the caller, run on what it then finds in the map of protected PIDs,
  -- refuses it: for a file of /proc or an attach by ptrace that the policy it finds blocks, in enforce
  -- mode, by another process that it does not find among those let through. The caller's PID is not 0, and
  -- this is so already before the response is written.
  pub handle-refuses :
      (policy : PolicyConfig) (allowed : Option ℕ) (reader : ℕ) (a : Access)
      → policy.enforce_mode ≡ mode_enforce
      → flag policy a ≢ 0
      → is_one allowed ≡ false
      → reader ≢ cred.pid
      → cred.pid ≢ 0
      → (handle s reads cred req w).1.protected ≡ true
      → refuses
          (some policy)
          allowed
          (entry e laws (handle s reads cred req w).0.kernel cred.pid)
          reader
          cred.pid
          a
        ≡ true
  unfolding is_guarded
  handle-refuses policy allowed reader a m f n o z p =
      refuses-is_one policy allowed (entry e laws (handle s reads cred req w).0.kernel cred.pid)
        reader cred.pid a m f n o z (handle-guards e laws s by_bpf reads cred req w p)
