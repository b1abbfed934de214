-- ===== src/Kube/Selection.antt =====
-- internal/kube/pods.go: `podsURL`, read back by a receiver.
use mathlib.Core.List.{append_assoc}
use x.Base.{
  ℕ, ltb, ◌∙◌, ap, sym, All-if, String, ◌≡◌, ◌≢◌, refl, Bool, true, false, [], ◌∷◌, ◌++◌, map, some,
  arith, Bytes, codes, eqb, lookup, insert, Assoc, All, All-append, passes, All_of_passes,
}
use x.Text.{cut, trim_suffix, decimal, decimal_onto}
use x.Text.Sort.{sort, place, le_bytes}
use x.Kube.Url.{encode, encode_keys, pods_query}
use x.Kube.Client.{Config, pods_url}
use x.Kube.Escape.{IsByte}
use x.Kube.Query.{parse_query, parse_query-encode_keys, AreBytes, cut-append}

abbrev of_node : Bytes → Bytes × Bytes
of_node node_name = (codes "fieldSelector", codes "spec.nodeName=" ++ node_name)

abbrev from_version : Bytes → Assoc Bytes Bytes
from_version [] = []
from_version (c ∷ version) = (codes "resourceVersion", c ∷ version) ∷ []

-- What a list and a watch ask for: the pods of the node, and for a watch the changes after a version where
-- one is known, for five minutes, with bookmarks.
abbrev pub selected : Bytes → Bool → Bytes → Assoc Bytes Bytes
selected node_name false version = of_node node_name ∷ []
selected node_name true version =
    (codes "allowWatchBookmarks", codes "true")
    ∷ of_node node_name
    ∷ (from_version version
        ++ ((codes "timeoutSeconds", codes "300") ∷ (codes "watch", codes "true") ∷ []))

are_bytes : (s : Bytes) → passes (λ c. ltb c 256) s ≡ true → All IsByte s
are_bytes s h = All_of_passes IsByte (λ c. ltb c 256) (λ c e. ground arith) s h

literal :
    (k v : String)
    → passes (λ c. ltb c 256) (codes k) ≡ true
    → passes (λ c. ltb c 256) (codes v) ≡ true
    → AreBytes (codes k, codes v)
literal k v h i = (are_bytes (codes k) h, are_bytes (codes v) i)

encode-selected :
    (node_name : Bytes) (watch : Bool) (version : Bytes)
    → encode (pods_query node_name watch version)
      ≡ encode_keys
          (pods_query node_name watch version)
          (map (λ p. p.0) (selected node_name watch version))
unfolding encode pods_query sort place le_bytes insert eqb decimal decimal_onto
encode-selected node_name false version = refl
encode-selected node_name true [] = refl
encode-selected node_name true (c ∷ version) = refl

node-AreBytes : (node_name : Bytes) → All IsByte node_name → AreBytes (of_node node_name)
node-AreBytes node_name b = (
  are_bytes (codes "fieldSelector") refl,
  All-append IsByte (codes "spec.nodeName=") node_name (are_bytes (codes "spec.nodeName=") refl) b,
)

pods_query-selected :
    (node_name : Bytes) (watch : Bool) (version : Bytes)
    → All IsByte node_name
    → All IsByte version
    → All
        (λ p. (lookup eqb p.0 (pods_query node_name watch version) ≡ some p.1) × AreBytes p)
        (selected node_name watch version)
unfolding pods_query insert lookup eqb
pods_query-selected node_name false version n v = ((refl, node-AreBytes node_name n), tt)
pods_query-selected node_name true [] n v = (
  (refl, literal "allowWatchBookmarks" "true" refl refl),
  (
    (refl, node-AreBytes node_name n),
    (
      (refl, literal "timeoutSeconds" "300" refl refl),
      ((refl, literal "watch" "true" refl refl), tt),
    ),
  ),
)
pods_query-selected node_name true (c ∷ version) n v = (
  (refl, literal "allowWatchBookmarks" "true" refl refl),
  (
    (refl, node-AreBytes node_name n),
    (
      (refl, (are_bytes (codes "resourceVersion") refl, v)),
      (
        (refl, literal "timeoutSeconds" "300" refl refl),
        ((refl, literal "watch" "true" refl refl), tt),
      ),
    ),
  ),
)

parse_query-pods_query :
    (node_name : Bytes) (watch : Bool) (version : Bytes)
    → All IsByte node_name
    → All IsByte version
    → parse_query (encode (pods_query node_name watch version))
      ≡ some (selected node_name watch version)
parse_query-pods_query node_name watch version n v =
    ap parse_query (encode-selected node_name watch version)
    ∙ (parse_query-encode_keys (pods_query node_name watch version)
        (selected node_name watch version) (selected_some watch version)
        (pods_query-selected node_name watch version n v))
  where
    selected_some : (watch : Bool) (version : Bytes) → selected node_name watch version ≢ []
    selected_some false version e = cc
    selected_some true version e = cc

trim_suffix-All : (P : ℕ → Type 0) (t s : Bytes) → All P s → All P (trim_suffix t s)
unfolding trim_suffix
trim_suffix-All P t [] h = tt
trim_suffix-All P t (c ∷ s) h =
    All-if P (eqb (c ∷ s) t) _ _ (λ e. tt) (λ e. (h.0, trim_suffix-All P t s h.1))

-- Where the server's address has no '?', the URL that `podsURL` builds has the address without a last
-- slash and the path before its first '?', and what follows is read back as the query for the pods of the
-- node, whatever bytes the name of the node and the resource version have: a list has the field selector
-- alone; a watch has also the bookmarks, the timeout, and the version where it is not empty.
pub pods_url-parse_query :
    (cfg : Config) (watch : Bool) (version : Bytes)
    → All (λ c. c ≢ b'?') cfg.server
    → All IsByte cfg.node_name
    → All IsByte version
    → (query : Bytes) × (cut b'?' (pods_url cfg watch version)
        ≡ some (trim_suffix (codes "/") cfg.server ++ codes "/api/v1/pods", query))
      × (parse_query query ≡ some (selected cfg.node_name watch version))
unfolding pods_url
pods_url-parse_query cfg watch version s n v =
    let address = trim_suffix (codes "/") cfg.server in
    let query = encode (pods_query cfg.node_name watch version) in
    (
      query,
      ap (cut b'?') (
            append_assoc address (codes "/api/v1/pods?") query
            ∙ sym (append_assoc address (codes "/api/v1/pods") (b'?' ∷ query)))
          ∙ cut-append b'?' (address ++ codes "/api/v1/pods") query (
              All-append (λ c. c ≢ b'?') address (codes "/api/v1/pods")
                (trim_suffix-All _ (codes "/") cfg.server s) (ground arith)),
      parse_query-pods_query cfg.node_name watch version n v,
    )
