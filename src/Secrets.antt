-- ===== src/Secrets.antt =====
-- internal/secrets/registry.go: bindings, and which of them apply to a caller.
pub mod Admission
pub mod Matching
pub mod Targets
use x.Base.{
  ℕ, Bool, true, false, not, ◌&&◌, ◌||◌, List, [], ◌∷◌, ◌++◌, Option, none, some, if◌then◌else◌,
  Bytes, codes, eqb, is_empty, is_some, Assoc,
}
use x.Kube.{Pod, index}
use x.Text.{has_prefix, trim_suffix}
use x.Text.Sort.{sort}

pub record Secret : Type 0 where
  pub name : Bytes
  pub value : Bytes

pub record Selector : Type 0 where
  pub binary : Bytes
  pub container : Bytes
  pub namespace : Bytes
  pub labels : Assoc Bytes Bytes
  pub cgroup_path : Bytes

-- `Selector.IsPodScoped`.
unfoldable pub is_pod_scoped : Selector → Bool
is_pod_scoped s =
    not (is_empty s.namespace)
    || not (is_empty s.labels)
    || not (is_empty s.cgroup_path)
    || not (is_empty s.container)

pub record Caller : Type 0 where
  pub cgroup_path : Bytes
  pub cgroup_id : ℕ
  pub cgroup_path_relative : Bool
  pub pod_uid : Bytes
  pub container_id : Bytes
  pub pod : Option Pod

-- The constraint that `admits` names when it refuses.
pub data Constraint : Type 0 where
  relative_cgroup_path cgroup_path namespace labels container : Constraint

-- `cgroupPathMatches`.
unfoldable pub cgroup_path_matches : Bytes → Bytes → Bool
unfolding trim_suffix has_prefix
cgroup_path_matches want got =
    let w = trim_suffix (b'/' ∷ []) want in
    if is_empty w then false else eqb got w || has_prefix (w ++ b'/' ∷ []) got

refuses_cgroup : Selector → Caller → Option Constraint
refuses_cgroup s c =
    if is_empty s.cgroup_path
    then none
    else if c.cgroup_path_relative
    then some relative_cgroup_path
    else if not (cgroup_path_matches s.cgroup_path c.cgroup_path)
    then some cgroup_path
    else none

unfoldable pub has_namespace : Option Pod → Bytes → Bool
has_namespace none ns = false
has_namespace (some p) ns = eqb p.namespace ns

unfoldable pub has_label : Option Pod → Bytes → Bytes → Bool
has_label none k v = false
has_label (some p) k v = eqb (index p.labels k) v

-- The range over `s.Labels`.
unfoldable pub has_labels : Option Pod → Assoc Bytes Bytes → Bool
unfolding has_label
has_labels p [] = true
has_labels p ((k, v) ∷ ls) = has_label p k v && has_labels p ls

unfoldable pub has_container : Option Pod → Bytes → Bytes → Bool
has_container none cid name = false
has_container (some p) cid name = not (is_empty cid) && eqb (index p.containers cid) name

-- `Selector.admits`: `none` where the caller is admitted, and else the first constraint that fails.
unfoldable pub admits : Selector → Caller → Option Constraint
unfolding refuses_cgroup
admits s c = elim (refuses_cgroup s c) [
  | some why ↦ some why
  | none ↦
      if not (is_empty s.namespace) && not (has_namespace c.pod s.namespace)
      then some namespace
      else if not (has_labels c.pod s.labels)
      then some labels
      else if not (is_empty s.container) && not (has_container c.pod c.container_id s.container)
      then some container
      else none
]

-- Why a binding is not servable under the active policy: the texts of `rejectionFor`.
pub data Rejection : Type 0 where
  selects_nothing root_cgroup no_pod_named pod_selectors_disabled binary_only : Rejection

pub record Binding : Type 0 where
  pub name : Bytes
  pub selector : Selector
  pub secrets : List Secret
  pub unresolved : List Bytes
  pub rejected : Option Rejection

pub record Match : Type 0 where
  pub secrets : List Secret
  pub unresolved : List Bytes
  pub refused : List (Bytes × Constraint)
  pub rejected : List Bytes

abbrev pub no_match : Match
no_match = record { secrets = []; unresolved = []; refused = []; rejected = [] }

-- `Match.Empty`.
unfoldable pub is_empty_match : Match → Bool
is_empty_match m =
    is_empty m.secrets && is_empty m.unresolved && is_empty m.refused && is_empty m.rejected

pub record Registry : Type 0 where
  pub bindings : List Binding

-- `NewRegistry`.
unfoldable pub new_registry : Registry
new_registry = record { bindings = [] }

-- `Registry.Replace`, less its log lines.
unfoldable pub replace : Registry → List Binding → Registry
replace r bs = record r { bindings = bs }

unfoldable pub names_other_binary : Bytes → Binding → Bool
names_other_binary binary b = not (is_empty b.selector.binary) && not (eqb b.selector.binary binary)

-- The body of the loop in `Registry.Lookup`.
unfoldable pub consider : Bytes → Caller → Match → Binding → Match
unfolding names_other_binary
consider binary caller m b =
    if names_other_binary binary b
    then m
    else if is_some b.rejected
    then record m { rejected = m.rejected ++ b.name ∷ [] }
    else elim (admits b.selector caller) [
      | some why ↦ record m { refused = m.refused ++ (b.name, why) ∷ [] }
      | none ↦ record m {
        secrets = m.secrets ++ b.secrets;
        unresolved = m.unresolved ++ b.unresolved;
      }
    ]

unfoldable pub consider_all : Bytes → Caller → Match → List Binding → Match
consider_all binary caller m [] = m
consider_all binary caller m (b ∷ bs) = consider_all binary caller (consider binary caller m b) bs

-- `Registry.Lookup`.
unfoldable pub lookup : Registry → Bytes → Caller → Match
unfolding consider_all
lookup r binary caller =
    let m = consider_all binary caller no_match r.bindings in
    record m { unresolved = sort m.unresolved }

unfoldable pub contains : Bytes → List Bytes → Bool
contains x [] = false
contains x (y ∷ ys) = eqb x y || contains x ys

-- The loop of `Registry.TargetBinaries`; the names in `out` are those of the map `seen`.
unfoldable pub collect_targets : List Bytes → List Binding → List Bytes
unfolding contains
collect_targets out [] = out
collect_targets out (b ∷ bs) =
    let name = b.selector.binary in
    collect_targets (if is_empty name || contains name out then out else out ++ name ∷ []) bs

-- `Registry.TargetBinaries`.
unfoldable pub target_binaries : Registry → List Bytes
unfolding collect_targets
target_binaries r = sort (collect_targets [] r.bindings)
