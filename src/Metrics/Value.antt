-- ===== src/Metrics/Value.antt =====
-- internal/metrics/metrics.go: `formatValue`. Floating-point numbers are those of the language, so a record of
-- operations stands for them.
use x.Base.{ℕ, zero, suc, ◌+◌, ◌/◌, ◌%◌, ltb, Bool, [], ◌∷◌, Bytes, arith, if◌then◌else◌, All-if}
use x.Text.{ℤ, pos, negsuc, decimal, decimal_onto}
use x.Metrics.Lines.{IsLine}

-- `float64`: the conversions from and to `int64`, the comparison, and `strconv.FormatFloat(v, 'g', -1, 64)`.
pub record Float64 (V : Type 0) : Type 0 where
  pub of_int : ℤ → V
  pub to_int : V → ℤ
  pub same : V → V → Bool
  pub shortest : V → Bytes

-- `strconv.FormatInt` in base 10.
unfoldable pub format_int : ℤ → Bytes
unfolding decimal
format_int (pos n) = decimal n
format_int (negsuc n) = b'-' ∷ decimal (suc n)

-- `formatValue`.
unfoldable pub format_value : {V : Type 0} → Float64 V → V → Bytes
unfolding format_int
format_value f v =
    let n = f.to_int v in if f.same v (f.of_int n) then format_int n else f.shortest v

decimal_onto-IsLine : (fuel n : ℕ) (acc : Bytes) → IsLine acc → IsLine (decimal_onto fuel n acc)
unfolding decimal_onto
decimal_onto-IsLine zero n acc h = h
decimal_onto-IsLine (suc fuel) n acc h =
    All-if _ (ltb n 10) _ _ (λ e. (omega arith, h))
      (λ e. decimal_onto-IsLine fuel (n / 10) ((b'0' + n % 10) ∷ acc) (omega arith, h))

format_int-IsLine : (n : ℤ) → IsLine (format_int n)
unfolding format_int decimal
format_int-IsLine (pos n) = decimal_onto-IsLine (suc n) n [] tt
format_int-IsLine (negsuc n) = (ground arith, decimal_onto-IsLine (suc (suc n)) (suc n) [] tt)

-- A value is on one line where the format of a number that is not whole is.
pub format_value-IsLine :
    {V : Type 0} (f : Float64 V)
    → ((v : V) → IsLine (f.shortest v))
    → (v : V) → IsLine (format_value f v)
unfolding format_value
format_value-IsLine f h v =
    All-if _ (f.same v (f.of_int (f.to_int v))) _ _ (λ e. format_int-IsLine (f.to_int v)) (λ e. h v)
