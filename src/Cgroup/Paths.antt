-- ===== src/Cgroup/Paths.antt =====
-- `ParsePod` on the paths that the kubelet makes.
use x.Base.{ℕ, ◌≢◌, Bool, ◌∷◌, ◌++◌, Bytes, All}
use x.Cgroup.Segments.{Uuid, Place, pod_segment, Runtime, container_segment}

abbrev NoSlash : Bytes → Type 0
NoSlash = All (λ c. c ≢ b'/')

-- A pod's path, below `above` and down to the container's segment, with `deeper` segments under it.
abbrev pub pod_path : Bytes → Place → Bool → ℕ → Uuid → Runtime → Bool → Bytes → Bytes → Bytes
pod_path above place slice sep u runtime scope cid deeper =
    above
    ++ b'/'
      ∷ (pod_segment place slice sep u
          ++ b'/' ∷ (container_segment runtime scope cid ++ b'/' ∷ deeper))
