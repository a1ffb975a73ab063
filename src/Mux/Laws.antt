-- ===== src/Mux/Laws.antt =====
-- The output of the multiplexer of src/mux.h.
use ca.Base.{
  ℕ, ◌<◌, ◌≡◌, arith, ◌==◌, if◌then◌else◌, some, ok, bind, length, get_elem?-set_self,
  get_elem?-set_ne,
}
use ca.Mux.{Mux, set_input, set_selector, get_output}

-- For a multiplexer with as many values as inputs, and an input and a selector below that number,
-- setting the input and then the selector gives the value if they are the same, and what the
-- selector gave before otherwise.
pub get_output-set_input :
    {V : Type 0} (last input selector : ℕ) (value : V) (m : Mux V)
    → length m.values ≡ last
    → input < last
    → selector < last
    → bind (set_input last input value m) (λ m'. bind (set_selector last selector m') get_output)
      ≡ (if input == selector then ok value else bind (set_selector last selector m) get_output)
unfolding set_input set_selector get_output
get_output-set_input last input selector value m n h k = ground (
  arith,
  get_elem?-set_self m.values input (some value),
  get_elem?-set_ne m.values input selector (some value),
)
