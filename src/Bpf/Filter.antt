-- ===== src/Bpf/Filter.antt =====
-- The keys of the map of target binaries, against the command names by which the kernel looks them up.
use x.Base.{
  ℕ, zero, suc, ◌-◌, ◌≤◌, ◌<◌, ◌≡◌, ◌≢◌, refl, ap, ◌∙◌, inl, inr, Bool, false, ◌&&◌, ◌||◌, [], ◌∷◌,
  ◌++◌, Option, none, some, arith, Bool-cases, Option-cases, ltb, Bytes, All, take, length,
  get_elem?, eqb, eqb_iff, is_some,
}
use x.Types.{c_string_to_go}
use x.Types.Strings.{c_string_to_go_terminated, c_string_to_go_full}
use x.Bpf.Maps.{MapLaws, Ebpf}
use x.Bpf.Programs.{is_one}
use x.Bpf.Manager.{Manager, zeros, binary_key, add_target_binary}

-- A string with no NUL.
abbrev pub IsName : Bytes → Type 0
IsName = All (λ c. c ≢ 0)

take_short : (n : ℕ) (s : Bytes) → length s ≤ n → take n s ≡ s
take_short zero [] h = refl
take_short zero (c ∷ s) h = absurd (omega arith)
take_short (suc n) [] h = refl
take_short (suc n) (c ∷ s) h = ap (λ t. c ∷ t) (take_short n s (omega arith))

padded : (s : Bytes) (n : ℕ) → IsName s → c_string_to_go (s ++ zeros n) ≡ s
padded s zero h = ap c_string_to_go (append_nil s) ∙ c_string_to_go_full s h
  where
    append_nil : (t : Bytes) → t ++ [] ≡ t
    append_nil [] = refl
    append_nil (c ∷ t) = ap (λ u. c ∷ u) (append_nil t)
padded s (suc n) h = c_string_to_go_terminated s (zeros n) h

-- A name of at most 16 bytes with no NUL can be read back from its key.
pub c_string_to_go-binary_key :
    (name : Bytes) → IsName name → length name ≤ 16 → c_string_to_go (binary_key name) ≡ name
unfolding binary_key
c_string_to_go-binary_key name h k =
    ap (λ s. c_string_to_go (s ++ zeros (16 - length name))) (take_short 16 name k)
    ∙ padded name (16 - length name) h

get_elem?-long :
    (n k : ℕ) (s rest : Bytes)
    → IsName s
    → k < n
    → n ≤ length s
    → get_elem? (take n s ++ rest) k ≢ some 0
get_elem?-long zero k s rest h l m = absurd (omega arith)
get_elem?-long (suc n) k [] rest h l m = absurd (omega arith)
get_elem?-long (suc n) zero (c ∷ s) rest h l m = λ q. ground arith
get_elem?-long (suc n) (suc k) (c ∷ s) rest h l m =
    get_elem?-long n k s rest h.1 (omega arith) (omega arith)

-- A command name as the kernel gives it: the last of the 16 bytes is a NUL.
abbrev pub IsComm : Bytes → Type 0
IsComm comm = get_elem? comm 15 ≡ some 0

long_key :
    (name comm : Bytes)
    → IsName name
    → 16 ≤ length name
    → IsComm comm
    → eqb (binary_key name) comm ≡ false
unfolding binary_key
long_key name comm h k c = elim (Bool-cases (eqb (binary_key name) comm)) [
  | inr q ↦ q
  | inl q ↦ absurd (
      get_elem?-long 16 15 name (zeros (16 - length name)) h (omega arith) k
        (ap (λ s. get_elem? s 15) ((eqb_iff (binary_key name) comm).0 q) ∙ c))
]

module _ (e : Ebpf) (laws : MapLaws e.names eqb) where
  abbrev finds : Option e.names.Map → Bytes → Bool
  unfolding is_one
  finds none comm = false
  finds (some p) comm = is_one (laws.get p comm)

  -- The lookup of `should_monitor_binary` finds 1 under this command name.
  unfoldable pub is_target : Manager e → Bytes → Bool
  unfolding is_one
  is_target m comm = finds m.target_binaries comm

  -- After the addition of a name with no NUL succeeds, a command name whose 16th byte is a NUL is a
  -- target if it was before, or if the name is shorter than 16 bytes and its key is that command
  -- name; a longer name makes none a target.
  pub add_target_binary-is_target :
      (m : Manager e) (name comm : Bytes)
      → IsName name
      → IsComm comm
      → is_some (add_target_binary e m name).1 ≡ false
      → is_target (add_target_binary e m name).0 comm
        ≡ ((ltb (length name) 16 && eqb (binary_key name) comm) || is_target m comm)
  unfolding add_target_binary is_target is_one
  add_target_binary-is_target m name comm h c ok = elim (Option-cases m.target_binaries) [
    | inl q ↦ ground arith
    | inr (p, q) ↦ elim (Option-cases (e.names.put p (binary_key name) 1)) [
      | inl r ↦ ground arith
      | inr (p', r) ↦ elim (Bool-cases (ltb (length name) 16)) [
        | inl t ↦ ground (arith, laws.get-put p p' (binary_key name) comm 1 r)
        | inr t ↦ ground (
          arith,
          laws.get-put p p' (binary_key name) comm 1 r,
          long_key name comm h (ground arith) c,
        )
      ]
    ]
  ]
