-- ===== src/Server/Refused.antt =====
-- internal/server/server.go: what a refusal leaves in the map of protected PIDs.
use x.Base.{ℕ, ◌≡◌, sym, ap, ◌∙◌, Bool, true, false, arith, if◌then◌else◌, is_some, ◌==◌}
use x.Bpf.Maps.{MapLaws, Ebpf}
use x.Bpf.Manager.{BpfError, Manager}
use x.Bpf.Protection.{is_protected}
use x.Server.Handle.{Ucred, Request, Response, Server, World, StatReads, issue, handle}
use x.Server.Kernel.{bpf_protector, unprotected, tracked-entry}
use x.Server.Cases.{
  marked, tracked, refused, unconfigured, degraded, rolled_back, withheld, issued, handle-Outcome,
}

not_false : ¬ (false ≡ true)
not_false h = cc

module _ (e : Ebpf) (laws : MapLaws e.numbers ◌==◌) {W : Type 0} (s : Server (Manager e) BpfError W)
    (by_bpf : s.protector ≡ bpf_protector e) (reads : StatReads) (cred : Ucred) (req : Request)
    (w : World (Manager e) W) where
  abbrev ended : World (Manager e) W × Response
  ended = handle s reads cred req w

  abbrev kept : World (Manager e) W → ℕ → Bool
  kept v j = is_protected e laws v.kernel j

  tracked-kept :
      (j : ℕ)
      → kept (tracked s reads cred req w) j ≡ (
          if is_some (marked s reads cred req w).1
          then kept w j
          else if cred.pid == j
          then true
          else kept w j)
  unfolding is_protected
  tracked-kept j = ground (arith, tracked-entry e laws s by_bpf reads cred req w j)

  unprotected-kept :
      (k : Manager e) (j : ℕ)
      → is_protected e laws (s.protector.unprotect_pid k cred.pid).0 j ≡ (
          if is_some (s.protector.unprotect_pid k cred.pid).1
          then is_protected e laws k j
          else if cred.pid == j
          then false
          else is_protected e laws k j)
  unfolding is_protected
  unprotected-kept k j = ground (arith, unprotected e laws s.protector k cred.pid j by_bpf)

  -- Where the roll-back gives no error, a caller that has an entry in the map of protected PIDs after a refusal had one before
  -- it.
  pub handle_refused-guards :
      ended.1.ok ≡ false
      → is_some (s.protector.unprotect_pid (tracked s reads cred req w).kernel cred.pid).1 ≡ false
      → kept ended.0 cred.pid ≡ true
      → kept w cred.pid ≡ true
  unfolding issue
  handle_refused-guards o u h = elim (handle-Outcome s reads cred req w) [
    | refused why f q ↦ sym (ap (λ r. kept r.0 cred.pid) q) ∙ h
    | unconfigured i f q ↦ sym (ap (λ r. kept r.0 cred.pid) q) ∙ h
    | degraded i c f v q ↦ sym (ap (λ r. kept r.0 cred.pid) q) ∙ h
    | rolled_back start b c q ↦
        undone (unprotected-kept (tracked s reads cred req w).kernel cred.pid)
          (sym (ap (λ r. kept r.0 cred.pid) q) ∙ h)
    | withheld c f q ↦
        not_marked f (tracked-kept cred.pid) (sym (ap (λ r. kept r.0 cred.pid) q) ∙ h)
    | issued i ↦ absurd (not_false (sym o ∙ ap (λ r. r.1.ok) i.result))
  ]
    where
      undone :
          kept
              (record w {
                kernel = (s.protector.unprotect_pid (tracked s reads cred req w).kernel cred.pid).0;
              })
              cred.pid
            ≡ (if is_some (s.protector.unprotect_pid (tracked s reads cred req w).kernel cred.pid).1
                then kept (tracked s reads cred req w) cred.pid
                else if cred.pid == cred.pid
                then false
                else kept (tracked s reads cred req w) cred.pid)
          → kept
              (record w {
                kernel = (s.protector.unprotect_pid (tracked s reads cred req w).kernel cred.pid).0;
              })
              cred.pid
            ≡ true
          → kept w cred.pid ≡ true
      undone p g = absurd (ground arith)

      not_marked :
          is_some (marked s reads cred req w).1 ≡ true
          → kept (tracked s reads cred req w) cred.pid ≡ (
              if is_some (marked s reads cred req w).1
              then kept w cred.pid
              else if cred.pid == cred.pid
              then true
              else kept w cred.pid)
          → kept (tracked s reads cred req w) cred.pid ≡ true
          → kept w cred.pid ≡ true
      not_marked m p g = ground arith
