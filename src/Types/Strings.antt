-- ===== src/Types/Strings.antt =====
-- Fixed-size C strings.
use x.Base.{◌≡◌, ◌≢◌, refl, [], ◌∷◌, ◌++◌, arith, Bytes, All}
use x.Types.{c_string_to_go}

-- A NUL-terminated string reads as what stands before the NUL, whatever follows it.
pub c_string_to_go_terminated :
    (s rest : Bytes) → All (λ c. c ≢ 0) s → c_string_to_go (s ++ 0 ∷ rest) ≡ s
unfolding c_string_to_go
c_string_to_go_terminated [] rest h = refl
c_string_to_go_terminated (c ∷ s) rest h = ground (arith, c_string_to_go_terminated s rest)

-- A full buffer with no NUL reads whole.
pub c_string_to_go_full : (s : Bytes) → All (λ c. c ≢ 0) s → c_string_to_go s ≡ s
unfolding c_string_to_go
c_string_to_go_full [] h = refl
c_string_to_go_full (c ∷ s) h = ground (arith, c_string_to_go_full s)

pub c_string_to_go-no_nul : (s : Bytes) → All (λ c. c ≢ 0) (c_string_to_go s)
unfolding c_string_to_go
c_string_to_go-no_nul [] = tt
c_string_to_go-no_nul (c ∷ s) = ground (arith, c_string_to_go-no_nul s)
