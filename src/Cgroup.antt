-- ===== src/Cgroup.antt =====
-- internal/cgroup/cgroup.go: the kernel's view of a caller's cgroup.
pub mod Segments
pub mod Paths
pub mod Membership
use x.Base.{
  ℕ, zero, suc, ◌+◌, Bool, true, false, not, ◌&&◌, ◌||◌, List, [], ◌∷◌, ◌++◌, Option, none, some,
  if◌then◌else◌, leb, ◌==◌, Bytes, codes, eqb, is_empty, take, length,
}
use x.Text.{has_prefix, trim_prefix, trim_space, to_lower, replace_all, split, cut}
use x.Types.{◌>>=◌, read_number}

pub record Identity : Type 0 where
  pub path : Bytes
  pub id : ℕ
  pub pod_uid : Bytes
  pub container_id : Bytes
  pub relative : Bool

abbrev pub no_identity : Identity
no_identity = record { path = []; id = 0; pod_uid = []; container_id = []; relative = false }

-- `Identity.IsPod`.
abbrev pub is_pod : Identity → Bool
is_pod i = not (is_empty i.pod_uid)

abbrev within : ℕ → ℕ → ℕ → Bool
within lo hi c = leb lo c && leb c hi

-- [0-9a-fA-F]
unfoldable pub is_hex : ℕ → Bool
is_hex c = within b'0' b'9' c || within b'a' b'f' c || within b'A' b'F' c

-- [-_]
unfoldable pub is_separator : ℕ → Bool
is_separator c = (c == b'-') || (c == b'_')

abbrev pub first_of_two : {A : Type 0} → Option A → Option A → Option A
first_of_two (some a) o = some a
first_of_two none o = o

abbrev pub onto_run : ℕ → Option (Bytes × Bytes) → Option (Bytes × Bytes)
onto_run c none = none
onto_run c (some (run, rest)) = some (c ∷ run, rest)

-- [0-9a-fA-F]{n}, and what follows.
unfoldable pub hex_run : ℕ → Bytes → Option (Bytes × Bytes)
hex_run zero s = some ([], s)
hex_run (suc n) [] = none
hex_run (suc n) (c ∷ s) = if is_hex c then onto_run c (hex_run n s) else none

unfoldable pub separator : Bytes → Option (ℕ × Bytes)
separator [] = none
separator (c ∷ s) = if is_separator c then some (c, s) else none

-- The group of `podUIDSegment`: 8, 4, 4, 4 and 12 digits with separators between them.
unfoldable pub read_uid : Bytes → Option (Bytes × Bytes)
read_uid s0 = do
  (a, s1) ← hex_run 8 s0
  (p, s2) ← separator s1
  (b, s3) ← hex_run 4 s2
  (q, s4) ← separator s3
  (c, s5) ← hex_run 4 s4
  (r, s6) ← separator s5
  (d, s7) ← hex_run 4 s6
  (t, s8) ← separator s7
  (e, s9) ← hex_run 12 s8
  some (a ++ p ∷ (b ++ q ∷ (c ++ r ∷ (d ++ t ∷ e))), s9)

-- The group of digits, if nothing or the given suffix follows it.
abbrev pub ends_with : Bytes → Option (Bytes × Bytes) → Option Bytes
ends_with suffix none = none
ends_with suffix (some (run, rest)) = if is_empty rest || eqb rest suffix then some run else none

-- What `podUIDSegment` matches after its (?:^|-).
unfoldable pub match_pod : Bytes → Option Bytes
unfolding has_prefix trim_prefix
match_pod s =
    if has_prefix (codes "pod") s
    then ends_with (codes ".slice") (read_uid (trim_prefix (codes "pod") s))
    else none

unfoldable pub after_dashes : Bytes → Option Bytes
after_dashes [] = none
after_dashes (c ∷ s) =
    let rest = after_dashes s in if c == b'-' then first_of_two (match_pod s) rest else rest

-- `podUIDSegment.FindStringSubmatch`: its group.
unfoldable pub pod_uid_segment : Bytes → Option Bytes
unfolding after_dashes match_pod
pod_uid_segment seg = first_of_two (match_pod seg) (after_dashes seg)

-- (?:cri-containerd-|crio-|docker-|libpod-)?
unfoldable pub strip_runtime : Bytes → Bytes
unfolding has_prefix trim_prefix
strip_runtime s =
    if has_prefix (codes "cri-containerd-") s
    then trim_prefix (codes "cri-containerd-") s
    else if has_prefix (codes "crio-") s
    then trim_prefix (codes "crio-") s
    else if has_prefix (codes "docker-") s
    then trim_prefix (codes "docker-") s
    else trim_prefix (codes "libpod-") s

-- The longest run of hexadecimal digits, and what follows.
unfoldable pub hex_prefix : Bytes → Bytes × Bytes
hex_prefix [] = ([], [])
hex_prefix (c ∷ s) =
    let (run, rest) = hex_prefix s in if is_hex c then (c ∷ run, rest) else ([], c ∷ s)

-- `containerIDSegment.FindStringSubmatch`: its group.
unfoldable pub container_id_segment : Bytes → Option Bytes
unfolding strip_runtime hex_prefix
container_id_segment seg =
    let (run, rest) = hex_prefix (strip_runtime seg) in
    if leb 12 (length run) && leb (length run) 64 && (is_empty rest || eqb rest (codes ".scope"))
    then some run
    else none

-- `isRelative`.
unfoldable pub has_dots : List Bytes → Bool
has_dots [] = false
has_dots (seg ∷ segs) = eqb seg (codes "..") || has_dots segs

unfoldable pub is_relative : Bytes → Bool
unfolding has_dots
is_relative path = has_dots (split b'/' path)

-- `strings.ToLower(strings.ReplaceAll(m[1], "_", "-"))`.
abbrev pub normalize : Bytes → Bytes
normalize uid = to_lower (replace_all b'_' b'-' uid)

abbrev pub container_below : List Bytes → Bytes
container_below [] = []
container_below (seg ∷ segs) = elim (container_id_segment seg) [
  | none ↦ []
  | some cid ↦ to_lower cid
]

-- The loop of `ParsePod`.
unfoldable pub scan_segments : List Bytes → Bytes × Bytes
scan_segments [] = ([], [])
scan_segments (seg ∷ segs) =
    let rest = scan_segments segs in
    elim (pod_uid_segment seg) [ some uid ↦ (normalize uid, container_below segs) | none ↦ rest ]

-- `ParsePod`: the pod UID and the container ID.
unfoldable pub parse_pod : Bytes → Bytes × Bytes
unfolding scan_segments
parse_pod path = scan_segments (split b'/' path)

unfoldable pub unified_path : List Bytes → Option Bytes
unfolding has_prefix trim_prefix
unified_path [] = none
unified_path (line ∷ lines) =
    if has_prefix (codes "0::") line
    then some (trim_prefix (codes "0::") line)
    else unified_path lines

-- The third part of `strings.SplitN(line, ":", 3)`, if there are three.
unfoldable pub third_part : Bytes → Option Bytes
third_part line = do (a, rest) ← cut b':' line; (b, path) ← cut b':' rest; some path

abbrev nonempty : Option Bytes → Option Bytes
nonempty none = none
nonempty (some []) = none
nonempty (some (c ∷ s)) = some (c ∷ s)

unfoldable pub controller_path : List Bytes → Option Bytes
unfolding third_part
controller_path [] = none
controller_path (line ∷ lines) = first_of_two (nonempty (third_part line)) (controller_path lines)

pub data CgroupError : Type 0 where
  unreadable no_membership no_id : CgroupError

pub data PathFound : Type 0 where
  path : Bytes → PathFound
  failed : CgroupError → PathFound

abbrev found_or : Option Bytes → PathFound
found_or none = failed no_membership
found_or (some p) = path p

-- `Resolver.pathFor` on the contents of /proc/<pid>/cgroup, `none` where the read fails.
unfoldable pub path_for : Option Bytes → PathFound
unfolding unified_path controller_path
path_for none = failed unreadable
path_for (some content) =
    let lines = split b'\n' (trim_space content) in
    found_or (first_of_two (unified_path lines) (controller_path lines))

abbrev number_of : Option (ℕ × Bytes) → Option ℕ → Option ℕ
number_of (some (v, rest)) o = some v
number_of none o = o

-- `Resolver.idFor`, on what `NameToHandleAt` and `Stat` give for the directory: a handle of eight
-- bytes or more is read, and else the inode number is taken.
unfoldable pub id_for : Option Bytes → Option ℕ → Option ℕ
unfolding read_number
id_for none ino = ino
id_for (some handle) ino = number_of (read_number 8 handle) ino

-- What the resolver reads: the cgroup file of a PID, and the handle and inode of a cgroup's directory.
pub record CgroupFiles : Type 0 where
  pub membership : ℕ → Option Bytes
  pub handle : Bytes → Option Bytes
  pub inode : Bytes → Option ℕ

abbrev with_id : Identity → Option ℕ → Identity × Option CgroupError
with_id i none = (i, some no_id)
with_id i (some n) = (record i { id = n }, none)

-- `Resolver.Resolve`.
unfoldable pub resolve : CgroupFiles → ℕ → Identity × Option CgroupError
resolve files pid = elim (path_for (files.membership pid)) [
  | failed e ↦ (no_identity, some e)
  | path p ↦
      let (uid, cid) = parse_pod p in
      with_id
        (record { path = p; id = 0; pod_uid = uid; container_id = cid; relative = is_relative p })
        (id_for (files.handle p) (files.inode p))
]
