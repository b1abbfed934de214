-- ===== src/Metrics/Lines.antt =====
-- internal/metrics/metrics.go: the lines of a page of metrics, read back. The reader follows the text
-- exposition format of Prometheus, not the code.
use mathlib.Core.List.{append_assoc}
use x.Base.{
  ℕ, Bool, true, not, ◌&&◌, passes, All_of_passes, ◌≡◌, ◌≢◌, refl, ap, ◌∙◌, List, [], ◌∷◌, ◌++◌,
  map, Option, none, some, arith, Bytes, codes, Assoc, All, All-append, All-weaken, ◌==◌,
  if◌then◌else◌,
}
use x.Text.{split, cut}
use x.Text.Split.{split-append, split_one}
use x.Metrics.{Metric, Kind, counter, gauge, kind_name, write_text}

-- A line that is a sample: neither empty nor a comment, with its name before the first space.
abbrev sample_of : Bytes → Option (Bytes × Bytes)
unfolding cut
sample_of [] = none
sample_of (c ∷ l) = if c == b'#' then none else cut b' ' (c ∷ l)

abbrev add : Option (Bytes × Bytes) → Assoc Bytes Bytes → Assoc Bytes Bytes
add none ss = ss
add (some s) ss = s ∷ ss

unfoldable samples : List Bytes → Assoc Bytes Bytes
unfolding sample_of
samples [] = []
samples (l ∷ ls) = add (sample_of l) (samples ls)

-- The samples of a page, in the order of its lines.
unfoldable pub scrape : Bytes → Assoc Bytes Bytes
unfolding samples split
scrape s = samples (split b'\n' s)

-- A name as the format has it, as far as the reader sees.
pub record IsName (name : Bytes) : Type 0 where
  pub named : name ≢ []
  pub plain : All (λ c. (c ≢ b' ') × (c ≢ b'\n') × (c ≢ b'#')) name

abbrev pub IsLine : Bytes → Type 0
IsLine = All (λ c. c ≢ b'\n')

pub record IsSample {V : Type 0} (format : V → Bytes) (m : Metric V) : Type 0 where
  pub name : IsName m.name
  pub help : IsLine m.help
  pub value : IsLine (format m.value)

-- The same of a text that is given, by computation.
abbrev pub stays : ℕ → Bool
stays c = not (c == b'\n')

pub line : (s : Bytes) → passes stays s ≡ true → IsLine s
line s h = All_of_passes _ stays (λ c e. ground arith) s h

abbrev pub is_plain : ℕ → Bool
is_plain c = not (c == b' ') && not (c == b'\n') && not (c == b'#')

pub name_of : (c : ℕ) (s : Bytes) → passes is_plain (c ∷ s) ≡ true → IsName (c ∷ s)
name_of c s h = record {
  named = λ e. cc;
  plain = All_of_passes _ is_plain (λ c e. ground arith) (c ∷ s) h;
}

scrape-line :
    (l rest : Bytes) → IsLine l → scrape (l ++ b'\n' ∷ [] ++ rest) ≡ add (sample_of l) (scrape rest)
unfolding scrape samples
scrape-line l rest h =
    ap scrape (append_assoc l (b'\n' ∷ []) rest)
    ∙ rw (split-append b'\n' l rest, split_one b'\n' l h) refl

cut-spaced : (a b : Bytes) → All (λ c. c ≢ b' ') a → cut b' ' (a ++ codes " " ++ b) ≡ some (a, b)
unfolding cut
cut-spaced [] b h = ground arith
cut-spaced (c ∷ a) b h = ground (arith, cut-spaced a b h.1)

sample_of-value :
    (name value : Bytes) → IsName name → sample_of (name ++ codes " " ++ value) ≡ some (name, value)
unfolding sample_of
sample_of-value [] value n = absurd (n.named refl)
sample_of-value (c ∷ name) value n =
    ground (
      arith,
      cut-spaced (c ∷ name) value (All-weaken _ _ (λ c p. p.0) (c ∷ name) n.plain),
      n.plain.0,
    )

name-IsLine : (name : Bytes) → IsName name → IsLine name
name-IsLine name n = All-weaken _ _ (λ c p. p.1) name n.plain

spaced-IsLine : (a b : Bytes) → IsLine a → IsLine b → IsLine (a ++ codes " " ++ b)
spaced-IsLine a b h k =
    All-append _ (a ++ codes " ") b (All-append _ a (codes " ") h (ground arith)) k

help-IsLine :
    (name help : Bytes)
    → IsName name
    → IsLine help
    → IsLine (codes "# HELP " ++ name ++ codes " " ++ help)
help-IsLine name help n h =
    spaced-IsLine (codes "# HELP " ++ name) help (ground (arith, name-IsLine name n)) h

type-IsLine :
    (name : Bytes) (k : Kind)
    → IsName name
    → IsLine (codes "# TYPE " ++ name ++ codes " " ++ kind_name k)
type-IsLine name k n =
    spaced-IsLine (codes "# TYPE " ++ name) (kind_name k) (ground (arith, name-IsLine name n))
      (kind-IsLine k)
  where
    kind-IsLine : (k : Kind) → IsLine (kind_name k)
    kind-IsLine counter = ground arith
    kind-IsLine gauge = ground arith

value-IsLine :
    (name value : Bytes) → IsName name → IsLine value → IsLine (name ++ codes " " ++ value)
value-IsLine name value n h = spaced-IsLine name value (name-IsLine name n) h

abbrev pub reading : {V : Type 0} → (V → Bytes) → Metric V → Bytes × Bytes
reading format m = (m.name, format m.value)

scrape-metric :
    {V : Type 0} (format : V → Bytes) (m : Metric V) (ms : List (Metric V))
    → IsSample format m
    → scrape (write_text format (m ∷ ms)) ≡ reading format m ∷ scrape (write_text format ms)
unfolding write_text scrape
scrape-metric format m ms s =
    let rest = write_text format ms in
    let v = m.name ++ codes " " ++ format m.value in
    let t = codes "# TYPE " ++ m.name ++ codes " " ++ kind_name m.kind in
    let h = codes "# HELP " ++ m.name ++ codes " " ++ m.help in
    let end = b'\n' ∷ [] in
    ap scrape (
      append_assoc (h ++ end ++ (t ++ end)) (v ++ end) rest
      ∙ append_assoc (h ++ end) (t ++ end) (v ++ end ++ rest))
    ∙ scrape-line h (t ++ end ++ (v ++ end ++ rest)) (help-IsLine m.name m.help s.name s.help)
    ∙ scrape-line t (v ++ end ++ rest) (type-IsLine m.name m.kind s.name)
    ∙ scrape-line v rest (value-IsLine m.name (format m.value) s.name s.value)
    ∙ ap (λ o. add o (scrape rest)) (sample_of-value m.name (format m.value) s.name)

-- A page is read back as the metrics it was written from.
pub scrape-write_text :
    {V : Type 0} (format : V → Bytes) (ms : List (Metric V))
    → All (IsSample format) ms
    → scrape (write_text format ms) ≡ map (reading format) ms
unfolding write_text scrape samples split
scrape-write_text format [] s = refl
scrape-write_text format (m ∷ ms) s =
    scrape-metric format m ms s.0 ∙ ap (◌∷◌ (reading format m)) (scrape-write_text format ms s.1)
