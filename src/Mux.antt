-- ===== src/Mux.antt =====
-- src/mux.h: a multiplexer. The selector's type is an enumeration whose entry LAST is `last`, its
-- number of inputs. An input or a selector that was never set has no defined value.
pub mod Laws
mod Tests
use ca.Base.{
  ℕ, ◌<◌, Bool, ◌==◌, if◌then◌else◌, List, Option, none, some, Result, ok, throw, out_of_range,
  get_elem?, set, replicate,
}
use ca.Base

pub record Mux (V : Type 0) : Type 0 where
  pub selector : Option ℕ
  pub values : List (Option V)

module _ {V : Type 0} (last : ℕ) where
  abbrev pub new_mux : Mux V
  new_mux = record { selector = none; values = replicate last none }

  unfoldable pub set_input : ℕ → V → Mux V → Result (Mux V)
  set_input input value m =
      if input == last
      then throw (out_of_range last)
      else ok (record m { values = set m.values input (some value) })

  unfoldable pub set_selector : ℕ → Mux V → Result (Mux V)
  set_selector selector m =
      if selector == last
      then throw (out_of_range last)
      else ok (record m { selector = some selector })

-- A value that may be read.
abbrev defined_value : {V : Type 0} → Option (Option V) → Result V
defined_value (some (some v)) = ok v
defined_value _ = Base.Result.undefined

abbrev output_for : {V : Type 0} → Option ℕ → List (Option V) → Result V
output_for none values = Base.Result.undefined
output_for (some i) values = defined_value (get_elem? values i)

unfoldable pub get_output : {V : Type 0} → Mux V → Result V
get_output m = output_for m.selector m.values
