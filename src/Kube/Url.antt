-- ===== src/Kube/Url.antt =====
-- internal/kube/pods.go: the query of `podsURL`. What `url.Values.Encode` does is written out.
use x.Base.{
  ℕ, ◌+◌, ◌-◌, ◌/◌, ◌%◌, Bool, not, ◌&&◌, ◌||◌, List, [], ◌∷◌, ◌++◌, map, Option, none, some,
  if◌then◌else◌, ltb, leb, ◌==◌, Bytes, codes, eqb, is_empty, Assoc, lookup, insert,
}
use x.Text.{decimal, is_digit}
use x.Text.Sort.{sort}

-- `watchTimeout`, in seconds.
abbrev pub watch_timeout : ℕ
watch_timeout = 300

-- `url.QueryEscape`, on one byte.
unfoldable pub is_unreserved : ℕ → Bool
is_unreserved c =
    is_digit c
    || (leb b'A' c && leb c b'Z')
    || (leb b'a' c && leb c b'z')
    || (c == b'-')
    || (c == b'_')
    || (c == b'.')
    || (c == b'~')

unfoldable pub hex_digit : ℕ → ℕ
hex_digit n = if ltb n 10 then b'0' + n else b'A' + (n - 10)

unfoldable pub escape_byte : ℕ → Bytes
unfolding is_unreserved hex_digit
escape_byte c =
    if is_unreserved c
    then c ∷ []
    else if c == b' '
    then b'+' ∷ []
    else b'%' ∷ hex_digit (c / 16) ∷ hex_digit (c % 16) ∷ []

unfoldable pub query_escape : Bytes → Bytes
unfolding escape_byte
query_escape [] = []
query_escape (c ∷ s) = escape_byte c ++ query_escape s

abbrev pub pair_of : Bytes → Option Bytes → Bytes
pair_of k none = []
pair_of k (some v) = query_escape k ++ b'=' ∷ query_escape v

-- `url.Values.Encode`, on the keys in order.
unfoldable pub encode_keys : Assoc Bytes Bytes → List Bytes → Bytes
unfolding query_escape lookup
encode_keys q [] = []
encode_keys q (k ∷ []) = pair_of k (lookup eqb k q)
encode_keys q (k ∷ k' ∷ ks) = pair_of k (lookup eqb k q) ++ b'&' ∷ encode_keys q (k' ∷ ks)

unfoldable pub encode : Assoc Bytes Bytes → Bytes
unfolding encode_keys sort
encode q = encode_keys q (sort (map (λ e. e.0) q))

-- The query of `podsURL`.
unfoldable pub pods_query : Bytes → Bool → Bytes → Assoc Bytes Bytes
unfolding insert decimal
pods_query node_name watch resource_version =
    let q = insert eqb (codes "fieldSelector") (codes "spec.nodeName=" ++ node_name) [] in
    let q' = insert eqb (codes "timeoutSeconds") (decimal watch_timeout) (
      insert eqb (codes "allowWatchBookmarks") (codes "true")
        (insert eqb (codes "watch") (codes "true") q)) in
    if not watch
    then q
    else if is_empty resource_version
    then q'
    else insert eqb (codes "resourceVersion") resource_version q'
