-- ===== src/Shim/Env.antt =====
-- What the application reads from its environment.
use x.Base.{
  ◌≡◌, ◌≢◌, refl, ◌∙◌, List, [], ◌∷◌, ◌++◌, Option, none, some, arith, if◌then◌else◌, Option-cases,
  inl, inr, Bytes, eqb, eqb_iff, is_some, Assoc, lookup, All,
}
use x.Text.{cut}
use x.Shim.{keep_base, render, merge_env}

abbrev pub value_if : Bytes → Option (Bytes × Bytes) → Option Bytes
value_if name none = none
value_if name (some (n, v)) = if eqb n name then some v else none

abbrev pub or_later : Option Bytes → Option Bytes → Option Bytes
or_later (some v) o = some v
or_later none o = o

-- The value of a name: that of the first entry for it.
unfoldable pub getenv : Bytes → List Bytes → Option Bytes
getenv name [] = none
getenv name (kv ∷ env) = or_later (value_if name (cut b'=' kv)) (getenv name env)

-- A name as it can stand in an environment.
abbrev pub IsName : Bytes → Type 0
IsName = All (λ c. c ≢ b'=')

abbrev pub AreNames : Assoc Bytes Bytes → Type 0
AreNames = All (λ e. IsName e.0)

cut-name : (name value : Bytes) → IsName name → cut b'=' (name ++ b'=' ∷ value) ≡ some (name, value)
unfolding cut
cut-name [] value a = refl
cut-name (c ∷ name) value a = ground (arith, cut-name name value a.1)

getenv-append :
    (name : Bytes) (xs ys : List Bytes)
    → getenv name (xs ++ ys) ≡ or_later (getenv name xs) (getenv name ys)
unfolding getenv
getenv-append name [] ys = refl
getenv-append name (kv ∷ xs) ys = ground (arith, getenv-append name xs ys)

getenv-render :
    (name : Bytes) (overlay : Assoc Bytes Bytes)
    → AreNames overlay
    → getenv name (render overlay) ≡ lookup eqb name overlay
unfolding getenv render lookup
getenv-render name [] a = refl
getenv-render name ((k, v) ∷ overlay) a =
    ground (arith, cut-name k v a.0, getenv-render name overlay a.1)

getenv-keep_base :
    (name : Bytes) (overlay : Assoc Bytes Bytes) (base : List Bytes)
    → getenv name (keep_base overlay base)
      ≡ (if is_some (lookup eqb name overlay) then none else getenv name base)
unfolding getenv keep_base
getenv-keep_base name overlay [] = ground arith
getenv-keep_base name overlay (kv ∷ base) = elim (Option-cases (cut b'=' kv)) [
  | inl e ↦ ground (arith, getenv-keep_base name overlay base)
  | inr ((n, v), e) ↦ ground (arith, getenv-keep_base name overlay base, eqb_iff n name)
]

-- The application reads a secret wherever the agent sent one of that name, and else what it would
-- have read without the agent, in whatever order the map is visited.
pub getenv-merge_env :
    (name : Bytes) (base : List Bytes) (overlay : Assoc Bytes Bytes)
    → AreNames overlay
    → getenv name (merge_env base overlay) ≡ or_later (lookup eqb name overlay) (getenv name base)
unfolding merge_env lookup
getenv-merge_env name base [] a = refl
getenv-merge_env name base ((k, v) ∷ overlay) a =
    getenv-append name (keep_base ((k, v) ∷ overlay) base) (render ((k, v) ∷ overlay))
    ∙ ground (
      arith,
      getenv-keep_base name ((k, v) ∷ overlay) base,
      getenv-render name ((k, v) ∷ overlay) a,
    )
