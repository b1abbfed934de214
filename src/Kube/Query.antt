-- ===== src/Kube/Query.antt =====
-- internal/kube/pods.go: the keys and values of an encoded query, read back by a receiver.
use x.Base.{
  ℕ, ◌≡◌, ◌≢◌, refl, List, [], ◌∷◌, ◌++◌, map, Option, none, some, arith, Bytes, eqb, lookup, Assoc,
  All, All-append, All-weaken,
}
use x.Text.{split, cut}
use x.Text.Split.{split-append, split_one}
use x.Kube.Url.{encode_keys, query_escape}
use x.Kube.Escape.{unescape, IsByte, IsSafe, query_escape-IsSafe, unescape-query_escape}

abbrev both : Option Bytes → Option Bytes → Option (Bytes × Bytes)
both none v = none
both (some k) none = none
both (some k) (some v) = some (k, v)

-- A key and a value around the first '='.
abbrev pair_from : Option (Bytes × Bytes) → Option (Bytes × Bytes)
pair_from none = none
pair_from (some (k, v)) = both (unescape k) (unescape v)

abbrev onto : Option (Bytes × Bytes) → Option (Assoc Bytes Bytes) → Option (Assoc Bytes Bytes)
onto none ps = none
onto (some p) none = none
onto (some p) (some ps) = some (p ∷ ps)

unfoldable parse_pairs : List Bytes → Option (Assoc Bytes Bytes)
unfolding cut
parse_pairs [] = some []
parse_pairs (s ∷ ss) = onto (pair_from (cut b'=' s)) (parse_pairs ss)

-- The pairs of a query, in the order in which they stand.
unfoldable pub parse_query : Bytes → Option (Assoc Bytes Bytes)
unfolding parse_pairs split
parse_query s = parse_pairs (split b'&' s)

pub cut-append :
    (sep : ℕ) (a b : Bytes) → All (λ c. c ≢ sep) a → cut sep (a ++ sep ∷ b) ≡ some (a, b)
unfolding cut
cut-append sep [] b h = ground arith
cut-append sep (c ∷ a) b h = ground (arith, cut-append sep a b h.1)

abbrev spell : Bytes × Bytes → Bytes
spell p = query_escape p.0 ++ b'=' ∷ query_escape p.1

abbrev pub AreBytes : Bytes × Bytes → Type 0
AreBytes p = All IsByte p.0 × All IsByte p.1

spell-pair_from : (p : Bytes × Bytes) → AreBytes p → pair_from (cut b'=' (spell p)) ≡ some p
spell-pair_from p h =
    rw
      (
        cut-append b'=' (query_escape p.0) (query_escape p.1) (
            All-weaken IsSafe (λ c. c ≢ b'=') (λ c s. s.1) (query_escape p.0)
              (query_escape-IsSafe p.0 h.0)),
        unescape-query_escape p.0 h.0,
        unescape-query_escape p.1 h.1,
      )
      refl

spell-is_piece : (p : Bytes × Bytes) → AreBytes p → All (λ c. c ≢ b'&') (spell p)
spell-is_piece p h =
    All-append (λ c. c ≢ b'&') (query_escape p.0) (b'=' ∷ query_escape p.1) (piece p.0 h.0)
      (omega arith, piece p.1 h.1)
  where
    piece : (s : Bytes) → All IsByte s → All (λ c. c ≢ b'&') (query_escape s)
    piece s b =
        All-weaken IsSafe (λ c. c ≢ b'&') (λ c s. s.0) (query_escape s) (query_escape-IsSafe s b)

parse_query-one : (p : Bytes × Bytes) → AreBytes p → parse_query (spell p) ≡ some (p ∷ [])
unfolding parse_query parse_pairs
parse_query-one p h = rw (split_one b'&' (spell p) (spell-is_piece p h), spell-pair_from p h) refl

parse_query-more :
    (p : Bytes × Bytes) (s : Bytes)
    → AreBytes p
    → parse_query (spell p ++ b'&' ∷ s) ≡ onto (some p) (parse_query s)
unfolding parse_query parse_pairs
parse_query-more p s h =
    rw
      (
        split-append b'&' (spell p) s,
        split_one b'&' (spell p) (spell-is_piece p h),
        spell-pair_from p h,
      )
      refl

-- What a query says of its keys is read back.
pub parse_query-encode_keys :
    (q : Assoc Bytes Bytes) (ps : List (Bytes × Bytes))
    → ps ≢ []
    → All (λ p. (lookup eqb p.0 q ≡ some p.1) × AreBytes p) ps
    → parse_query (encode_keys q (map (λ p. p.0) ps)) ≡ some ps
unfolding encode_keys
parse_query-encode_keys q [] n h = absurd (n refl)
parse_query-encode_keys q (p ∷ []) n h = rw h.0.0 (parse_query-one p h.0.1)
parse_query-encode_keys q (p ∷ p' ∷ ps) n h =
    rw
      (
        h.0.0,
        parse_query-more p (encode_keys q (map (λ e. e.0) (p' ∷ ps))) h.0.1,
        parse_query-encode_keys q (p' ∷ ps) (λ e. cc) h.1,
      )
      refl
