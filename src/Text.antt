-- ===== src/Text.antt =====
-- Go's `strings`, `strconv`, `sort` and `path/filepath`, as far as the program uses them, on bytes.
-- Case folding and white space are those of ASCII.
pub mod Affix
pub mod Split
pub mod Sort
use x.Base.{
  ℕ, zero, suc, ◌+◌, ◌-◌, ◌*◌, ◌/◌, ◌%◌, ◌^◌, Bool, true, false, not, ◌&&◌, ◌||◌, List, [], ◌∷◌,
  ◌++◌, map, Option, none, some, ltb, leb, ◌==◌, if◌then◌else◌, Bytes, codes, eqb, is_empty, drop,
  length,
}

-- `strings.HasPrefix`, the prefix first.
unfoldable pub has_prefix : Bytes → Bytes → Bool
has_prefix [] s = true
has_prefix (p ∷ ps) [] = false
has_prefix (p ∷ ps) (c ∷ s) = (p == c) && has_prefix ps s

-- `bytes.Contains`, what is looked for first.
unfoldable pub contains_bytes : Bytes → Bytes → Bool
unfolding has_prefix
contains_bytes p [] = has_prefix p []
contains_bytes p (c ∷ s) = has_prefix p (c ∷ s) || contains_bytes p s

-- `strings.TrimPrefix`, the prefix first.
unfoldable pub trim_prefix : Bytes → Bytes → Bytes
unfolding has_prefix
trim_prefix p s = if has_prefix p s then drop (length p) s else s

-- `strings.TrimSuffix`, the suffix first.
unfoldable pub trim_suffix : Bytes → Bytes → Bytes
trim_suffix t [] = []
trim_suffix t (c ∷ s) = if eqb (c ∷ s) t then [] else c ∷ trim_suffix t s

abbrev pub is_space : ℕ → Bool
is_space c = (c == b' ') || (leb 9 c && leb c 13)

unfoldable pub trim_left : Bytes → Bytes
trim_left [] = []
trim_left (c ∷ s) = if is_space c then trim_left s else c ∷ s

abbrev put_right : ℕ → Bytes → Bytes
put_right c [] = if is_space c then [] else c ∷ []
put_right c (d ∷ s) = c ∷ d ∷ s

unfoldable pub trim_right : Bytes → Bytes
trim_right [] = []
trim_right (c ∷ s) = put_right c (trim_right s)

-- `strings.TrimSpace`.
unfoldable pub trim_space : Bytes → Bytes
unfolding trim_left trim_right
trim_space s = trim_right (trim_left s)

abbrev pub lower : ℕ → ℕ
lower c = if leb b'A' c && leb c b'Z' then c + 32 else c

-- `strings.ToLower`.
unfoldable pub to_lower : Bytes → Bytes
to_lower s = map lower s

-- `strings.ReplaceAll` of one byte by another.
unfoldable pub replace_all : ℕ → ℕ → Bytes → Bytes
replace_all a b s = map (λ c. if c == a then b else c) s

abbrev pub onto_first : ℕ → List Bytes → List Bytes
onto_first c [] = (c ∷ []) ∷ []
onto_first c (s ∷ ss) = (c ∷ s) ∷ ss

-- `strings.Split` by one byte: never empty.
unfoldable pub split : ℕ → Bytes → List Bytes
split sep [] = [] ∷ []
split sep (c ∷ s) = let rest = split sep s in if c == sep then [] ∷ rest else onto_first c rest

abbrev onto_left : ℕ → Option (Bytes × Bytes) → Option (Bytes × Bytes)
onto_left c none = none
onto_left c (some (a, b)) = some (c ∷ a, b)

-- `strings.Cut` by one byte; `none` where it is not found.
unfoldable pub cut : ℕ → Bytes → Option (Bytes × Bytes)
cut sep [] = none
cut sep (c ∷ s) = if c == sep then some ([], s) else onto_left c (cut sep s)

-- What follows the last `sep`, if there is one: `s[i+1:]` for `bytes.LastIndexByte`.
unfoldable pub after_last : ℕ → Bytes → Option Bytes
after_last sep [] = none
after_last sep (c ∷ s) = elim (after_last sep s) [
  | some t ↦ some t
  | none ↦ if c == sep then some s else none
]

-- What follows the first "://": `s[i+3:]` for `strings.Index`.
unfoldable pub after_scheme : Bytes → Option Bytes
unfolding has_prefix
after_scheme [] = none
after_scheme (c ∷ s) =
    let rest = after_scheme s in if has_prefix (codes "://") (c ∷ s) then some (drop 2 s) else rest

abbrev add_field : Bytes → List Bytes → List Bytes
add_field [] fs = fs
add_field w fs = w ∷ fs

-- `strings.Fields`, with the field that is being read.
unfoldable pub fields_from : Bytes → Bytes → List Bytes
fields_from w [] = add_field w []
fields_from w (c ∷ s) =
    let word = fields_from (w ++ c ∷ []) s in
    let gap = add_field w (fields_from [] s) in if is_space c then gap else word

abbrev pub fields : Bytes → List Bytes
fields s = fields_from [] s

abbrev pub is_digit : ℕ → Bool
is_digit c = leb b'0' c && leb c b'9'

-- `strconv.ParseUint(s, 10, 64)`, with the value read so far.
unfoldable pub parse_digits : ℕ → Bytes → Option ℕ
parse_digits n [] = some n
parse_digits n (c ∷ s) =
    let m = n * 10 + (c - b'0') in
    let rest = parse_digits m s in if is_digit c && ltb m (2 ^ 64) then rest else none

unfoldable pub parse_uint : Bytes → Option ℕ
unfolding parse_digits
parse_uint [] = none
parse_uint (c ∷ s) = parse_digits 0 (c ∷ s)

-- An `int` of 64 bits; `negsuc n` is `-(n + 1)`.
pub data ℤ : Type 0 where
  pos : ℕ → ℤ
  negsuc : ℕ → ℤ

abbrev minus : ℕ → ℤ
minus zero = pos 0
minus (suc n) = negsuc n

abbrev up_to : ℕ → (ℕ → ℤ) → Option ℕ → Option ℤ
up_to limit f none = none
up_to limit f (some n) = if leb n limit then some (f n) else none

-- `strconv.Atoi`.
unfoldable pub atoi : Bytes → Option ℤ
unfolding parse_uint
atoi [] = none
atoi (c ∷ s) =
    if c == b'-'
    then up_to (2 ^ 63) minus (parse_uint s)
    else if c == b'+'
    then up_to (2 ^ 63 - 1) pos (parse_uint s)
    else up_to (2 ^ 63 - 1) pos (parse_uint (c ∷ s))

abbrev pub put_stem : ℕ → Bytes → Bytes
put_stem c [] = if c == b'/' then [] else c ∷ []
put_stem c (d ∷ t) = c ∷ d ∷ t

-- `path` without its trailing slashes.
unfoldable pub strip_slashes : Bytes → Bytes
strip_slashes [] = []
strip_slashes (c ∷ s) = put_stem c (strip_slashes s)

abbrev pub or_slash : Bytes → Bytes
or_slash [] = b'/' ∷ []
or_slash (c ∷ s) = c ∷ s

abbrev pub or_whole : Bytes → Option Bytes → Bytes
or_whole s none = s
or_whole s (some t) = t

-- `filepath.Base`.
unfoldable pub base : Bytes → Bytes
unfolding strip_slashes after_last
base [] = b'.' ∷ []
base (c ∷ s) = let stem = strip_slashes (c ∷ s) in or_slash (or_whole stem (after_last b'/' stem))

-- `fmt.Sprint` of a number in decimal, the digits onto `acc`. A number below 2 ^ k needs no more than
-- k rounds.
unfoldable pub decimal_onto : ℕ → ℕ → Bytes → Bytes
decimal_onto zero n acc = acc
decimal_onto (suc fuel) n acc =
    let digit = b'0' + n % 10 in
    let rest = decimal_onto fuel (n / 10) (digit ∷ acc) in if ltb n 10 then digit ∷ acc else rest

unfoldable pub decimal : ℕ → Bytes
unfolding decimal_onto
decimal n = decimal_onto (suc n) n []

abbrev from_dot : Option Bytes → Bytes
from_dot none = []
from_dot (some t) = b'.' ∷ t

-- `filepath.Ext`: from the last dot of the last element on.
unfoldable pub ext : Bytes → Bytes
unfolding after_last
ext path = from_dot (after_last b'.' (or_whole path (after_last b'/' path)))
