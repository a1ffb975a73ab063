-- ===== src/Mux/Tests.antt =====
-- A multiplexer with two inputs.
use ca.Base.{ℕ, ◌≡◌, refl, arith, ok, some, none, bind, [], ◌∷◌, out_of_range, throw, Result}
use ca.Base
use ca.Mux.{Mux, new_mux, set_input, get_output}

abbrev two_inputs : Mux ℕ
two_inputs = record { selector = some 1; values = some 7 ∷ some 8 ∷ [] }

selected : get_output two_inputs ≡ ok 8
unfolding get_output
selected = refl

never_set : get_output (new_mux {V = ℕ} 2) ≡ Base.Result.undefined
unfolding get_output
never_set = refl

last_input : set_input 2 2 9 two_inputs ≡ throw (out_of_range 2)
unfolding set_input
last_input = refl
