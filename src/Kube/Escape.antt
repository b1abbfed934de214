-- ===== src/Kube/Escape.antt =====
-- internal/kube/pods.go: what the receiver of a query reads back from an escaped text. The reader follows
-- RFC 3986 and the form encoding of HTML, not the code.
use x.Base.{
  ℕ, ◌+◌, ◌-◌, ◌*◌, ◌/◌, ◌%◌, ◌<◌, ◌≡◌, ◌≢◌, refl, true, ◌&&◌, [], ◌∷◌, ◌++◌, Option, none, some,
  arith, if◌then◌else◌, leb, ◌==◌, Bytes, All, All-append, All-if, ◌∙◌, ap,
}
use x.Text.{is_digit}
use x.Kube.Url.{escape_byte, query_escape, is_unreserved, hex_digit}

-- Where the reader is: outside an escape, or after its percent sign, or after its first digit.
pub data Place : Type 0 where
  outside : Place
  percent : Place
  half : ℕ → Place

unfoldable pub digit_of : ℕ → Option ℕ
digit_of c =
    if is_digit c
    then some (c - b'0')
    else if leb b'A' c && leb c b'F'
    then some (c - b'A' + 10)
    else if leb b'a' c && leb c b'f'
    then some (c - b'a' + 10)
    else none

abbrev pub push : ℕ → Option Bytes → Option Bytes
push c none = none
push c (some s) = some (c ∷ s)

abbrev pub plain : ℕ → ℕ
plain c = if c == b'+' then b' ' else c

-- The text that the bytes spell from a place on; `none` where an escape is broken off or has another byte.
unfoldable pub unescape_from : Place → Bytes → Option Bytes
unescape_from outside [] = some []
unescape_from percent [] = none
unescape_from (half n) [] = none
unescape_from outside (c ∷ s) =
    let escaped = unescape_from percent s in
    let rest = unescape_from outside s in if c == b'%' then escaped else push (plain c) rest
unescape_from percent (c ∷ s) = elim (digit_of c) [
  | none ↦ none
  | some n ↦ unescape_from (half n) s
]
unescape_from (half n) (c ∷ s) = elim (digit_of c) [
  | none ↦ none
  | some m ↦ push (n * 16 + m) (unescape_from outside s)
]

abbrev pub unescape : Bytes → Option Bytes
unescape s = unescape_from outside s

-- A byte of a Go string.
abbrev pub IsByte : ℕ → Type 0
IsByte c = c < 256

-- A byte that separates nothing in a query.
abbrev pub IsSafe : ℕ → Type 0
IsSafe c = (c ≢ b'&') × (c ≢ b'=')

digit_of-hex_digit : (n : ℕ) → n < 16 → digit_of (hex_digit n) ≡ some n
unfolding digit_of hex_digit
digit_of-hex_digit n h = ground arith

unescape-percent :
    (a b m n : ℕ) (t : Bytes)
    → digit_of a ≡ some m
    → digit_of b ≡ some n
    → unescape (b'%' ∷ a ∷ b ∷ t) ≡ push (m * 16 + n) (unescape t)
unfolding unescape_from
unescape-percent a b m n t h k = ground (arith, h, k)

unescape-unreserved :
    (c : ℕ) (t : Bytes) → is_unreserved c ≡ true → unescape (c ∷ t) ≡ push c (unescape t)
unfolding unescape_from is_unreserved
unescape-unreserved c t h = ground arith

unescape-space : (t : Bytes) → unescape (b'+' ∷ t) ≡ push b' ' (unescape t)
unfolding unescape_from
unescape-space t = refl

unescape-hex :
    (c : ℕ) (t : Bytes)
    → IsByte c
    → unescape (b'%' ∷ hex_digit (c / 16) ∷ hex_digit (c % 16) ∷ t) ≡ push c (unescape t)
unescape-hex c t h =
    unescape-percent (hex_digit (c / 16)) (hex_digit (c % 16)) (c / 16) (c % 16) t
      (digit_of-hex_digit (c / 16) (omega (arith, h))) (digit_of-hex_digit (c % 16) (omega arith))
    ∙ ap (λ n. push n (unescape t)) (omega arith)

unescape-escape_byte :
    (c : ℕ) (t : Bytes) → IsByte c → unescape (escape_byte c ++ t) ≡ push c (unescape t)
unfolding escape_byte
unescape-escape_byte c t h =
    ground (arith, unescape-unreserved c t, unescape-space t, unescape-hex c t)

-- The reader reads the text back.
pub unescape-query_escape : (s : Bytes) → All IsByte s → unescape (query_escape s) ≡ some s
unfolding query_escape unescape_from
unescape-query_escape [] h = refl
unescape-query_escape (c ∷ s) h =
    unescape-escape_byte c (query_escape s) h.0 ∙ ap (push c) (unescape-query_escape s h.1)

hex_digit-IsSafe : (n : ℕ) → n < 16 → IsSafe (hex_digit n)
unfolding hex_digit
hex_digit-IsSafe n h = ground arith

unreserved-IsSafe : (c : ℕ) → is_unreserved c ≡ true → IsSafe c
unfolding is_unreserved
unreserved-IsSafe c h = ground arith

escape_byte-IsSafe : (c : ℕ) → IsByte c → All IsSafe (escape_byte c)
unfolding escape_byte
escape_byte-IsSafe c h =
    All-if IsSafe (is_unreserved c) _ _ (λ u. (unreserved-IsSafe c u, tt))
      (λ u.
        All-if IsSafe (c == b' ') _ _ (λ e. (ground arith, tt))
          (λ e. (
            ground arith,
            (
              hex_digit-IsSafe (c / 16) (omega (arith, h)),
              (hex_digit-IsSafe (c % 16) (omega arith), tt),
            ),
          )))

-- An escaped text has no separator.
pub query_escape-IsSafe : (s : Bytes) → All IsByte s → All IsSafe (query_escape s)
unfolding query_escape
query_escape-IsSafe [] h = tt
query_escape-IsSafe (c ∷ s) h =
    All-append IsSafe (escape_byte c) (query_escape s) (escape_byte-IsSafe c h.0)
      (query_escape-IsSafe s h.1)
