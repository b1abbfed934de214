-- ===== src/Cgroup/Membership.antt =====
-- Which line of /proc/<pid>/cgroup is believed.
use x.Base.{tests, ◌≡◌, refl, ◌↔◌, true, false, List, [], ◌∷◌, ◌++◌, some, Bytes, codes, All, In}
use x.Text.{has_prefix, trim_space, split}
use x.Cgroup.{path, path_for, unified_path, has_dots, is_relative}

abbrev pub unified : Bytes
unified = codes "0::"

unified_path_first :
    (before after : List Bytes) (p : Bytes)
    → All (λ line. has_prefix unified line ≡ false) before
    → unified_path (before ++ (unified ++ p) ∷ after) ≡ some p
unfolding unified_path
unified_path_first [] after p a = refl
unified_path_first (line ∷ before) after p a =
    rw (a.0, unified_path) (unified_path_first before after p a.1)

-- The unified entry is taken wherever it stands among the controllers' lines, and the first one if
-- there are several.
pub path_for-unified :
    (content p : Bytes) (before after : List Bytes)
    → split b'\n' (trim_space content) ≡ before ++ (unified ++ p) ∷ after
    → All (λ line. has_prefix unified line ≡ false) before
    → path_for (some content) ≡ path p
unfolding path_for
path_for-unified content p before after e a = rw (e, unified_path_first before after p a)

has_dots_iff : (segs : List Bytes) → (has_dots segs ≡ true) ↔ In (codes "..") segs
unfolding has_dots
has_dots_iff [] = (λ h. cc, λ h. absurd h)
has_dots_iff (seg ∷ segs) =
    (λ h. grind (tests, has_dots_iff segs), λ h. grind (tests, has_dots_iff segs))

-- A path is relative exactly when one of its segments is "..".
pub is_relative_iff : (p : Bytes) → (is_relative p ≡ true) ↔ In (codes "..") (split b'/' p)
unfolding is_relative
is_relative_iff p = has_dots_iff (split b'/' p)
