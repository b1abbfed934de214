-- ===== src/Tests/Identity.antt =====
-- Callers and cgroup paths.
use x.Base.{ℕ, ◌≡◌, refl, Bool, true, [], ◌∷◌, ◌++◌, none, some, Bytes, codes, eqb, lookup, ◌&&◌}
use x.Text.{
  split, trim_space, trim_left, trim_right, has_prefix, trim_prefix, to_lower, replace_all,
}
use x.Cgroup.{
  parse_pod, path_for, pod_uid_segment, is_separator, match_pod, read_uid, hex_run, separator,
  is_hex, after_dashes, resolve, unified_path, scan_segments, container_id_segment, strip_runtime,
  hex_prefix, is_relative, has_dots, id_for,
}
use x.Cgroup.Segments.{is_lower_hex, Uuid}
use x.Identity.{identify, attribute, caller_of_cgroup}
use x.Kube.Watch.{lookup_pod}
use x.Identity.Attribution.{IsKnown, identify-IsKnown}
use x.Agent.{pods_of}
use x.Tests.Scene.{files, watcher, pod}

abbrev all_lower_hex : Bytes → Bool
all_lower_hex [] = true
all_lower_hex (c ∷ s) = is_lower_hex c && all_lower_hex s

abbrev last : Bytes → ℕ
last [] = 0
last (c ∷ []) = c
last (c ∷ d ∷ s) = last (d ∷ s)

last-append : (u : Bytes) (c : ℕ) → last (u ++ c ∷ []) ≡ c
last-append [] c = refl
last-append (a ∷ []) c = refl
last-append (a ∷ b ∷ u) c = last-append (b ∷ u) c

abbrev uuid : Uuid
uuid = record {
  time_low = codes "0a1b2c3d";
  time_mid = codes "0000";
  time_high = codes "1111";
  clock = codes "2222";
  node = codes "0a1b2c3d4e5f";
}

abbrev cid : Bytes
cid = codes "0123456789abcdef"

abbrev membership : Bytes
membership = codes "1:cpu:/x\n0::/kubepods/a\n"

-- The pod that the process of the scene is in.
in_pod : (identify files (some (pods_of watcher)) 42).0.pod ≡ some pod
unfolding identify lookup eqb split trim_space trim_left trim_right has_prefix trim_prefix to_lower
    replace_all lookup_pod resolve path_for unified_path parse_pod scan_segments pod_uid_segment
    match_pod read_uid hex_run separator is_separator is_hex after_dashes container_id_segment
    strip_runtime hex_prefix is_relative has_dots id_for attribute caller_of_cgroup pods_of
in_pod = refl

identify-IsKnown_example :
    IsKnown files (some (pods_of watcher)) 42 (identify files (some (pods_of watcher)) 42).0 pod
    × ((identify files (some (pods_of watcher)) 42).1 ≡ none)
identify-IsKnown_example = identify-IsKnown files (some (pods_of watcher)) 42 pod in_pod
