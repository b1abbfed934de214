-- ===== src/Server/Kernel.antt =====
-- The server over the BPF manager: what the LSM programs find under the PIDs when the response is written.
use x.Base.{
  ℕ, ◌≡◌, ◌≢◌, sym, ap, ◌∙◌, Bool, true, false, not, Option, none, some, arith, if◌then◌else◌,
  is_some, ◌==◌,
}
use x.Bpf.Maps.{MapLaws, Ebpf}
use x.Bpf.Manager.{BpfError, Manager, protect_pid, unprotect_pid, track_pid}
use x.Bpf.Programs.{is_one}
use x.Bpf.Protection.{entry, is_guarded, protect_pid-entry, unprotect_pid-entry, track_pid-entry}
use x.Server.Peer.{process_start_time}
use x.Server.Handle.{Ucred, Request, Response, Protector, Server, World, StatReads, issue, handle}
use x.Server.Cases.{
  marked, tracked, refused, unconfigured, degraded, rolled_back, withheld, issued, handle-Outcome,
}

-- `Manager` as a `Protector`.
unfoldable pub bpf_protector : (e : Ebpf) → Protector (Manager e) BpfError
bpf_protector e = record {
  protect_pid = protect_pid e;
  unprotect_pid = unprotect_pid e;
  track_pid = track_pid e;
}

not_protected : ¬ (false ≡ true)
not_protected h = cc

module _ (e : Ebpf) (laws : MapLaws e.numbers ◌==◌) where
  pub protected_then_tracked :
      (p : Protector (Manager e) BpfError) (k : Manager e) (pid j : ℕ)
      → p ≡ bpf_protector e
      → entry e laws (p.track_pid (p.protect_pid k pid).0 pid).0 j ≡ (
          if is_some (p.protect_pid k pid).1
          then entry e laws k j
          else if pid == j
          then some 1
          else entry e laws k j)
  unfolding bpf_protector
  protected_then_tracked p k pid j q =
      rw q (track_pid-entry e laws (protect_pid e k pid).0 pid j ∙ protect_pid-entry e laws k pid j)

  pub unprotected :
      (p : Protector (Manager e) BpfError) (k : Manager e) (pid j : ℕ)
      → p ≡ bpf_protector e
      → entry e laws (p.unprotect_pid k pid).0 j ≡ (
          if is_some (p.unprotect_pid k pid).1
          then entry e laws k j
          else if pid == j
          then none
          else entry e laws k j)
  unfolding bpf_protector
  unprotected p k pid j q = rw q (unprotect_pid-entry e laws k pid j)

module _ (e : Ebpf) (laws : MapLaws e.numbers ◌==◌) {W : Type 0} (s : Server (Manager e) BpfError W)
    (by_bpf : s.protector ≡ bpf_protector e) (reads : StatReads) (cred : Ucred) (req : Request)
    (w : World (Manager e) W) where
  abbrev ended : World (Manager e) W × Response
  ended = handle s reads cred req w

  abbrev found : World (Manager e) W → ℕ → Option ℕ
  found v j = entry e laws v.kernel j

  abbrev guarded : World (Manager e) W → ℕ → Bool
  guarded v j = is_guarded e laws v.kernel j

  pub tracked-entry :
      (j : ℕ)
      → found (tracked s reads cred req w) j ≡ (
          if is_some (marked s reads cred req w).1
          then found w j
          else if cred.pid == j
          then some 1
          else found w j)
  tracked-entry j = protected_then_tracked e laws s.protector w.kernel cred.pid j by_bpf

  tracked-guarded :
      (j : ℕ)
      → guarded (tracked s reads cred req w) j ≡ (
          if is_some (marked s reads cred req w).1
          then guarded w j
          else if cred.pid == j
          then true
          else guarded w j)
  unfolding is_guarded is_one
  tracked-guarded j = ground (arith, tracked-entry j)

  unprotected-guarded :
      (k : Manager e) (j : ℕ)
      → is_guarded e laws (s.protector.unprotect_pid k cred.pid).0 j ≡ (
          if is_some (s.protector.unprotect_pid k cred.pid).1
          then is_guarded e laws k j
          else if cred.pid == j
          then false
          else is_guarded e laws k j)
  unfolding is_guarded is_one
  unprotected-guarded k j = ground (arith, unprotected e laws s.protector k cred.pid j by_bpf)

  -- With the BPF manager as protector, whenever a response says that the caller is protected, the map of
  -- protected PIDs has 1 under its PID already before the response is written.
  pub handle-guards : ended.1.protected ≡ true → guarded ended.0 cred.pid ≡ true
  unfolding issue
  handle-guards h = elim (handle-Outcome s reads cred req w) [
    | refused why f q ↦ absurd (not_protected (sym (ap (λ r. r.1.protected) q) ∙ h))
    | unconfigured i f q ↦ absurd (not_protected (sym (ap (λ r. r.1.protected) q) ∙ h))
    | degraded i c f u q ↦ absurd (not_protected (sym (ap (λ r. r.1.protected) q) ∙ h))
    | rolled_back start b n q ↦ absurd (not_protected (sym (ap (λ r. r.1.protected) q) ∙ h))
    | withheld c f q ↦ absurd (not_protected (sym (ap (λ r. r.1.protected) q) ∙ h))
    | issued i ↦
        ap (λ r. guarded r.0 cred.pid) i.result
        ∙ (tracked-guarded cred.pid ∙ marked_now (sym (ap (λ r. r.1.protected) i.result) ∙ h))
  ]
    where
      marked_now :
          not (is_some (marked s reads cred req w).1) ≡ true
          → (if is_some (marked s reads cred req w).1
              then guarded w cred.pid
              else if cred.pid == cred.pid
              then true
              else guarded w cred.pid)
            ≡ true
      marked_now p = ground arith

  -- No exchange changes what the kernel finds under another PID.
  pub handle-entry_other : (j : ℕ) → cred.pid ≢ j → found ended.0 j ≡ found w j
  unfolding issue
  handle-entry_other j n = elim (handle-Outcome s reads cred req w) [
    | refused why f q ↦ ap (λ r. found r.0 j) q
    | unconfigured i f q ↦ ap (λ r. found r.0 j) q
    | degraded i c f u q ↦ ap (λ r. found r.0 j) q
    | rolled_back start b c q ↦
        ap (λ r. found r.0 j) q
        ∙ (unprotected e laws s.protector (tracked s reads cred req w).kernel cred.pid j by_bpf
            ∙ undone (tracked-entry j))
    | withheld c f q ↦ ap (λ r. found r.0 j) q ∙ (tracked-entry j ∙ ground arith)
    | issued i ↦ ap (λ r. found r.0 j) i.result ∙ (tracked-entry j ∙ ground arith)
  ]
    where
      undone :
          found (tracked s reads cred req w) j ≡ (
            if is_some (marked s reads cred req w).1
            then found w j
            else if cred.pid == j
            then some 1
            else found w j)
          → (if is_some (s.protector.unprotect_pid (tracked s reads cred req w).kernel cred.pid).1
              then found (tracked s reads cred req w) j
              else if cred.pid == j
              then none
              else found (tracked s reads cred req w) j)
            ≡ found w j
      undone p = ground arith

  -- An exchange of a process whose start time stays the same takes the 1 from under no PID.
  pub handle_steady-guards :
      (j : ℕ)
      → process_start_time reads.before ≡ process_start_time reads.after
      → guarded w j ≡ true
      → guarded ended.0 j ≡ true
  unfolding issue
  handle_steady-guards j t g = elim (handle-Outcome s reads cred req w) [
    | refused why f q ↦ ap (λ r. guarded r.0 j) q ∙ g
    | unconfigured i f q ↦ ap (λ r. guarded r.0 j) q ∙ g
    | degraded i c f u q ↦ ap (λ r. guarded r.0 j) q ∙ g
    | rolled_back start b n q ↦ absurd (n (sym t ∙ b))
    | withheld c f q ↦ ap (λ r. guarded r.0 j) q ∙ kept (tracked-guarded j)
    | issued i ↦ ap (λ r. guarded r.0 j) i.result ∙ kept (tracked-guarded j)
  ]
    where
      kept :
          guarded (tracked s reads cred req w) j ≡ (
            if is_some (marked s reads cred req w).1
            then guarded w j
            else if cred.pid == j
            then true
            else guarded w j)
          → guarded (tracked s reads cred req w) j ≡ true
      kept p = ground arith
