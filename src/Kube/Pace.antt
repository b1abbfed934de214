-- ===== src/Kube/Pace.antt =====
-- Watches that end cleanly at once: the loop asks again with no delay.
use x.Base.{◌≡◌, true, false, codes, eqb, All}
use x.Kube.Watch.{Stream, refused, stream}

-- The watch ends cleanly, and none of its events is an ERROR.
abbrev pub EndsCleanly : Stream → Type 0
EndsCleanly (refused e) = ⊥
EndsCleanly (stream evs clean) =
    (clean ≡ true) × All (λ ev. eqb ev.kind (codes "ERROR") ≡ false) evs
