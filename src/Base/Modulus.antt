-- ===== src/Base/Modulus.antt =====
-- Remainders of products.
use Prim.Native.Nat.{ℕ, ◌+◌, ◌*◌, ◌/◌, ◌%◌, ◌<◌}
use mathlib.Core.Path.{◌≡◌, ap, sym, ◌∙◌}
use native.Mathlib.Nat.{add-mul-mod_self_left, mod-eq_of_lt, mod-lt, div-add-mod}
use native.Mathlib.Omega.{arith}

-- A factor may be reduced first.
pub mod-mul-mod : (a t m : ℕ) → (a % m) * t % m ≡ a * t % m
mod-mul-mod a t m =
    let split : a * t ≡ (a % m) * t + m * ((a / m) * t) =
      grind (arith, ap (λ (n : ℕ). n * t) (div-add-mod a m)) in
    sym (ap (λ (n : ℕ). n % m) split ∙ add-mul-mod_self_left ((a % m) * t) m ((a / m) * t))

-- The lowest byte and the rest of a remainder.
pub mod-mul-256 : (v m : ℕ) → 0 < m → v % (256 * m) ≡ v % 256 + 256 * (v / 256 % m)
mod-mul-256 v m h =
    let split : v ≡ v % 256 + 256 * (v / 256 % m) + 256 * m * (v / 256 / m) =
      omega (arith, ap (λ (n : ℕ). 256 * n) (div-add-mod (v / 256) m)) in
    ap (λ (n : ℕ). n % (256 * m)) split
    ∙ add-mul-mod_self_left (v % 256 + 256 * (v / 256 % m)) (256 * m) (v / 256 / m)
    ∙ mod-eq_of_lt (omega (arith, mod-lt (v / 256) h))
