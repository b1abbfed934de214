-- ===== src/Cgroup/Segments.antt =====
-- The two path segments that name a pod and a container, as the kubelet and the runtimes write them.
use mathlib.Core.List.{append_assoc, map-append}
use x.Base.{
  ℕ, zero, suc, ◌≤◌, ◌≡◌, refl, Bool, true, false, ◌&&◌, ◌||◌, [], ◌∷◌, ◌++◌, none, some, arith,
  if◌then◌else◌, leb, Bytes, codes, eqb, eqb_refl, is_empty, length, All,
}
use x.Text.{to_lower, replace_all}
use x.Cgroup.{
  is_hex, is_separator, hex_run, separator, read_uid, match_pod, pod_uid_segment, hex_prefix,
  strip_runtime, container_id_segment, normalize,
}

-- A digit, or a letter from a to f in lower case.
abbrev pub is_lower_hex : ℕ → Bool
is_lower_hex c = (leb b'0' c && leb c b'9') || (leb b'a' c && leb c b'f')

abbrev pub LowerHex : Bytes → Type 0
LowerHex = All (λ c. is_lower_hex c ≡ true)

-- The five groups of a UUID.
pub record Uuid : Type 0 where
  pub time_low : Bytes
  pub time_mid : Bytes
  pub time_high : Bytes
  pub clock : Bytes
  pub node : Bytes

pub record IsUuid (u : Uuid) : Type 0 where
  pub time_low : (length u.time_low ≡ 8) × LowerHex u.time_low
  pub time_mid : (length u.time_mid ≡ 4) × LowerHex u.time_mid
  pub time_high : (length u.time_high ≡ 4) × LowerHex u.time_high
  pub clock : (length u.clock ≡ 4) × LowerHex u.clock
  pub node : (length u.node ≡ 12) × LowerHex u.node

-- The groups with a byte between them: '-' as the API server writes, '_' under the systemd driver.
abbrev pub spell : ℕ → Uuid → Bytes
spell sep u =
    u.time_low ++ sep ∷ (u.time_mid ++ sep ∷ (u.time_high ++ sep ∷ (u.clock ++ sep ∷ u.node)))

hex_run-append :
    (n : ℕ) (g rest : Bytes) → length g ≡ n → LowerHex g → hex_run n (g ++ rest) ≡ some (g, rest)
unfolding hex_run is_hex
hex_run-append zero [] rest h a = refl
hex_run-append zero (c ∷ g) rest h a = absurd (omega arith)
hex_run-append (suc n) [] rest h a = absurd (omega arith)
hex_run-append (suc n) (c ∷ g) rest h a = ground (arith, hex_run-append n g rest (omega arith) a.1)

separator_lem :
    (sep : ℕ) (s : Bytes) → is_separator sep ≡ true → separator (sep ∷ s) ≡ some (sep, s)
unfolding separator
separator_lem sep s h = rw h

read_uid-spell :
    (sep : ℕ) (u : Uuid) (rest : Bytes)
    → is_separator sep ≡ true
    → IsUuid u
    → read_uid (spell sep u ++ rest) ≡ some (spell sep u, rest)
unfolding read_uid
read_uid-spell sep u rest h v = simp append_assoc (
    rw (
      hex_run-append 8 u.time_low _ v.time_low.0 v.time_low.1,
      separator_lem sep _ h,
      hex_run-append 4 u.time_mid _ v.time_mid.0 v.time_mid.1,
      separator_lem sep _ h,
      hex_run-append 4 u.time_high _ v.time_high.0 v.time_high.1,
      separator_lem sep _ h,
      hex_run-append 4 u.clock _ v.clock.0 v.clock.1,
      separator_lem sep _ h,
      hex_run-append 12 u.node _ v.node.0 v.node.1,
    ))

-- Where a pod's segment stands: alone under the cgroupfs driver, and behind its slice's name, with
-- the class of its quality of service, under the systemd driver.
pub data Place : Type 0 where
  cgroupfs guaranteed burstable besteffort : Place

abbrev pub slice_name : Place → Bytes
slice_name cgroupfs = []
slice_name guaranteed = codes "kubepods-"
slice_name burstable = codes "kubepods-burstable-"
slice_name besteffort = codes "kubepods-besteffort-"

abbrev pub optional : Bool → Bytes → Bytes
optional true s = s
optional false s = []

abbrev pub pod_segment : Place → Bool → ℕ → Uuid → Bytes
pod_segment place slice sep u =
    slice_name place ++ (codes "pod" ++ (spell sep u ++ optional slice (codes ".slice")))

module _ (sep : ℕ) (u : Uuid) (h : is_separator sep ≡ true) (v : IsUuid u) where
  match_pod-spell :
      (slice : Bool)
      → match_pod (codes "pod" ++ (spell sep u ++ optional slice (codes ".slice")))
        ≡ some (spell sep u)
  unfolding match_pod eqb
  match_pod-spell true = rw (read_uid-spell sep u (codes ".slice") h v)
  match_pod-spell false = rw (read_uid-spell sep u [] h v)

  pub pod_uid_segment-spell :
      (place : Place) (slice : Bool)
      → pod_uid_segment (pod_segment place slice sep u) ≡ some (spell sep u)
  unfolding pod_uid_segment eqb
  pod_uid_segment-spell cgroupfs true = rw (read_uid-spell sep u (codes ".slice") h v)
  pod_uid_segment-spell cgroupfs false = rw (read_uid-spell sep u [] h v)
  pod_uid_segment-spell guaranteed true = rw (read_uid-spell sep u (codes ".slice") h v)
  pod_uid_segment-spell guaranteed false = rw (read_uid-spell sep u [] h v)
  pod_uid_segment-spell burstable true = rw (read_uid-spell sep u (codes ".slice") h v)
  pod_uid_segment-spell burstable false = rw (read_uid-spell sep u [] h v)
  pod_uid_segment-spell besteffort true = rw (read_uid-spell sep u (codes ".slice") h v)
  pod_uid_segment-spell besteffort false = rw (read_uid-spell sep u [] h v)

normalize_digits : (g : Bytes) → LowerHex g → normalize g ≡ g
unfolding to_lower replace_all
normalize_digits [] a = refl
normalize_digits (c ∷ g) a = ground (arith, normalize_digits g a.1)

normalize-append : (s t : Bytes) → normalize (s ++ t) ≡ normalize s ++ normalize t
unfolding to_lower replace_all
normalize-append s t = simp map-append

normalize_separator :
    (sep : ℕ) (s : Bytes) → is_separator sep ≡ true → normalize (sep ∷ s) ≡ b'-' ∷ normalize s
unfolding to_lower replace_all is_separator
normalize_separator sep s h = ground arith

-- Either spelling of the separators gives the UID as the API server writes it.
pub normalize-spell :
    (sep : ℕ) (u : Uuid)
    → is_separator sep ≡ true
    → IsUuid u
    → normalize (spell sep u) ≡ spell b'-' u
normalize-spell sep u h v = rw (
  normalize-append u.time_low _,
  normalize_separator sep _ h,
  normalize-append u.time_mid _,
  normalize_separator sep _ h,
  normalize-append u.time_high _,
  normalize_separator sep _ h,
  normalize-append u.clock _,
  normalize_separator sep _ h,
  normalize_digits u.time_low v.time_low.1,
  normalize_digits u.time_mid v.time_mid.1,
  normalize_digits u.time_high v.time_high.1,
  normalize_digits u.clock v.clock.1,
  normalize_digits u.node v.node.1,
)

pub data Runtime : Type 0 where
  bare containerd crio docker libpod : Runtime

abbrev pub runtime_prefix : Runtime → Bytes
runtime_prefix bare = []
runtime_prefix containerd = codes "cri-containerd-"
runtime_prefix crio = codes "crio-"
runtime_prefix docker = codes "docker-"
runtime_prefix libpod = codes "libpod-"

abbrev pub container_segment : Runtime → Bool → Bytes → Bytes
container_segment runtime scope cid =
    runtime_prefix runtime ++ (cid ++ optional scope (codes ".scope"))

hex_prefix-append :
    (cid rest : Bytes)
    → LowerHex cid
    → hex_prefix rest ≡ ([], rest)
    → hex_prefix (cid ++ rest) ≡ (cid, rest)
unfolding hex_prefix is_hex
hex_prefix-append [] rest a h = h
hex_prefix-append (c ∷ cid) rest a h = ground (arith, hex_prefix-append cid rest a.1 h)

strip_bare :
    (cid rest : Bytes) → LowerHex cid → 2 ≤ length cid → strip_runtime (cid ++ rest) ≡ cid ++ rest
unfolding strip_runtime
strip_bare [] rest a n = absurd (omega arith)
strip_bare (c ∷ []) rest a n = absurd (omega arith)
strip_bare (c ∷ d ∷ cid) rest a n = ground arith

-- A container's segment gives its ID, whichever runtime wrote it.
pub container_id_segment-spell :
    (runtime : Runtime) (scope : Bool) (cid : Bytes)
    → LowerHex cid
    → 12 ≤ length cid
    → length cid ≤ 64
    → container_id_segment (container_segment runtime scope cid) ≡ some cid
unfolding container_id_segment is_hex
container_id_segment-spell runtime scope cid a lo hi =
    rw
      (
        stripped runtime,
        hex_prefix-append cid (optional scope (codes ".scope")) a (no_digits scope),
      )
      (accepted scope)
  where
    stripped :
        (r : Runtime)
        → strip_runtime (container_segment r scope cid) ≡ cid ++ optional scope (codes ".scope")
    stripped bare = strip_bare cid _ a (omega arith)
    stripped containerd = refl
    stripped crio = refl
    stripped docker = refl
    stripped libpod = refl

    no_digits :
        (b : Bool) → hex_prefix (optional b (codes ".scope")) ≡ ([], optional b (codes ".scope"))
    no_digits true = refl
    no_digits false = refl

    accepted :
        (b : Bool)
        → (if leb 12 (length cid)
              && leb (length cid) 64
              && (is_empty (optional b (codes ".scope"))
                  || eqb (optional b (codes ".scope")) (codes ".scope"))
            then some cid
            else none)
          ≡ some cid
    accepted true = ground (arith, eqb_refl (codes ".scope"))
    accepted false = ground arith
