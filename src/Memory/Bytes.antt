-- ===== src/Memory/Bytes.antt =====
-- Values of several bytes in a list of bytes, least significant byte first.
use ca.Base.{
  ℕ, zero, suc, ◌+◌, ◌*◌, ◌/◌, ◌%◌, ◌^◌, ◌<◌, ◌≤◌, ◌≡◌, refl, arith, Option, none, some, List,
  length, length-set, get_elem?, get_elem?-set_self, get_elem?_outside, get_or, get_elem?-eq-get_or,
  get_elem?-set_ne, set, ltb, if◌then◌else◌, ◌⊎◌,
}
use ca.Base.Modulus.{mod-mul-256}
use native.Mathlib.Nat.{pow-suc, one-le-pow}

-- `none` where a byte lies outside the list.
unfoldable pub load : ℕ → List ℕ → ℕ → Option ℕ
load zero bytes i = some 0
load (suc n) bytes i =
    let rest = load n bytes (i + 1) in
    elim (get_elem? bytes i) [
      | none ↦ none
      | some b ↦ elim rest [ none ↦ none | some v ↦ some (b + 256 * v) ]
    ]

unfoldable pub store : ℕ → List ℕ → ℕ → ℕ → Option (List ℕ)
store zero bytes i v = some bytes
store (suc n) bytes i v =
    if ltb i (length bytes) then store n (set bytes i (v % 256)) (i + 1) (v / 256) else none

-- A store within the list succeeds and keeps the length.
pub store_total :
    (n : ℕ) (bytes : List ℕ) (i v : ℕ)
    → i + n ≤ length bytes
    → (out : List ℕ) × (store n bytes i v ≡ some out) × (length out ≡ length bytes)
unfolding store
store_total zero bytes i v h = (bytes, refl, refl)
store_total (suc n) bytes i v h =
    let (out, e, same) =
      store_total n (set bytes i (v % 256)) (i + 1) (v / 256)
        (omega (arith, length-set bytes i (v % 256))) in
    (out, ground arith, ground (arith, length-set bytes i (v % 256)))

-- So does a load.
pub load_total :
    (n : ℕ) (bytes : List ℕ) (i : ℕ) → i + n ≤ length bytes → (v : ℕ) × (load n bytes i ≡ some v)
unfolding load
load_total zero bytes i h = (0, refl)
load_total (suc n) bytes i h =
    let (v, e) = load_total n bytes (i + 1) (omega arith) in
    (get_or bytes i 0 + 256 * v, ground (arith, get_elem?-eq-get_or bytes i 0))

-- A load that reaches past the end fails.
pub load_outside :
    (n : ℕ) (bytes : List ℕ) (i : ℕ) → 0 < n → length bytes < i + n → load n bytes i ≡ none
unfolding load
load_outside zero bytes i p h = absurd (omega arith)
load_outside (suc zero) bytes i p h = ground (arith, get_elem?_outside bytes i)
load_outside (suc (suc n)) bytes i p h =
    ground (arith, load_outside (suc n) bytes (i + 1) (omega arith) (omega arith))

-- Bytes outside the stored range stay.
pub store_outside :
    (n : ℕ) (bytes : List ℕ) (i v j : ℕ) (out : List ℕ)
    → store n bytes i v ≡ some out
    → (j < i) ⊎ (i + n ≤ j)
    → get_elem? out j ≡ get_elem? bytes j
unfolding store
store_outside zero bytes i v j out e h = ground arith
store_outside (suc n) bytes i v j out e h = ground (
  arith,
  store_outside n (set bytes i (v % 256)) (i + 1) (v / 256) j out,
  get_elem?-set_ne bytes i j (v % 256),
)

-- A load depends on its own bytes only.
pub load_congr :
    (n : ℕ) (xs ys : List ℕ) (i : ℕ)
    → ((j : ℕ) → i ≤ j → j < i + n → get_elem? xs j ≡ get_elem? ys j)
    → load n xs i ≡ load n ys i
unfolding load
load_congr zero xs ys i h = refl
load_congr (suc n) xs ys i h = ground (
  arith,
  h i (omega arith) (omega arith),
  load_congr n xs ys (i + 1) (λ j p q. h j (omega arith) (omega arith)),
)

-- What was stored is loaded, cut to the bytes that were stored.
pub load-store :
    (n : ℕ) (bytes : List ℕ) (i v : ℕ) (out : List ℕ)
    → store n bytes i v ≡ some out
    → load n out i ≡ some (v % 256 ^ n)
unfolding load store
load-store zero bytes i v out e = ground arith
load-store (suc n) bytes i v out e = ground (
  arith,
  pow-suc 256 n,
  store_outside n (set bytes i (v % 256)) (i + 1) (v / 256) i out,
  get_elem?-set_self bytes i (v % 256),
  load-store n (set bytes i (v % 256)) (i + 1) (v / 256) out,
  mod-mul-256 v (256 ^ n) (one-le-pow n 256 (omega arith)),
)
