-- ===== src/Memory/Access.antt =====
-- One segment, reached through the bus, which asks `contains` first.
use ca.Base.{
  ℕ, ◌+◌, ◌-◌, ◌%◌, ◌^◌, ◌<◌, ◌≤◌, ◌≡◌, arith, ok, throw, illegal_access_of_size, Bool, true, false,
  ◌↔◌, ◌⊎◌, inl, inr, Bool-cases, List, length, u64, some,
}
use ca.Memory.Bytes.{load, store, load_total, load-store, load_congr, store_outside}
use ca.Memory.{Width, size_of, Memory, contains, can_access, read_data, write_data}

-- The array has `size` bytes, and the segment ends at least eight bytes below 2 ^ 64, so that the
-- end of no access wraps.
pub record IsValid (m : Memory) : Type 0 where
  pub allocated : length m.bytes ≡ m.size
  pub below_top : m.base + m.size + 8 ≤ 2 ^ 64

-- The access lies within the segment.
abbrev pub Within : Memory → Width → ℕ → Type 0
Within m w addr = (m.base ≤ addr) × (addr + size_of w ≤ m.base + m.size)

size_of_bounds : (w : Width) → (0 < size_of w) × (size_of w ≤ 8)
size_of_bounds Width.byte = omega arith
size_of_bounds _ = omega arith

-- For a segment whose array has its size and that ends at least eight bytes below 2 ^ 64, and an
-- address in it: a read is allowed exactly if all its bytes are in the segment, and a write exactly
-- if, besides, the segment is writable.
pub can_access_iff :
    (m : Memory) (w : Width) (addr : ℕ)
    → IsValid m
    → contains addr m ≡ true
    → ((can_access addr (size_of w) false m ≡ true) ↔ Within m w addr)
      × ((can_access addr (size_of w) true m ≡ true) ↔ (Within m w addr × (m.may_write ≡ true)))
unfolding contains can_access
can_access_iff m w addr v c = (ground (arith, size_of_bounds w), ground (arith, size_of_bounds w))

-- The place of an address in the array.
abbrev pub offset : Memory → ℕ → ℕ
offset m addr = u64 (addr + 2 ^ 64 - m.base)

-- For a segment whose array has its size and that ends at least eight bytes below 2 ^ 64, and an
-- address in it: either all bytes of the access are in the segment and the read returns a value, or
-- they are not and the read throws an illegal access with the address and size. It is never
-- undefined.
pub read_data_defined :
    (m : Memory) (w : Width) (addr : ℕ)
    → IsValid m
    → contains addr m ≡ true
    → (Within m w addr × ((value : ℕ) × (read_data w addr m ≡ ok value)))
      ⊎ ((¬ Within m w addr)
          × (read_data w addr m ≡ throw (illegal_access_of_size addr (size_of w))))
unfolding read_data
read_data_defined m w addr v c =
    let allowed = (can_access_iff m w addr v c).0 in
    elim (Bool-cases (can_access addr (size_of w) false m)) [
      | inl e ↦
          let inside = allowed.0 e in
          let (value, l) =
            load_total (size_of w) m.bytes (offset m addr)
              (omega (arith, v.allocated, v.below_top, inside)) in
          inl (inside, (value, rw (e, l)))
      | inr e ↦ inr ((λ inside. cc (allowed.1 inside)), rw e)
    ]

-- What a successful write did.
write_data_inv :
    (m m' : Memory) (w : Width) (addr v : ℕ)
    → write_data w addr v m ≡ ok m'
    → (can_access addr (size_of w) true m ≡ true)
      × ((out : List ℕ) × (store (size_of w) m.bytes (offset m addr) v ≡ some out)
          × (m' ≡ record m { bytes = out }))
unfolding write_data
write_data_inv m m' w addr v e = ground arith

-- If a write to a segment succeeds, a read of the same address and width afterwards returns the
-- value, cut to that width.
pub read_data-write_data :
    (m m' : Memory) (w : Width) (addr v : ℕ)
    → write_data w addr v m ≡ ok m'
    → read_data w addr m' ≡ ok (v % 256 ^ size_of w)
unfolding read_data can_access
read_data-write_data m m' w addr v e =
    let (allowed, (out, s, same)) = write_data_inv m m' w addr v e in
    rw same (ground (arith, load-store (size_of w) m.bytes (offset m addr) v out))

base-le_of_access :
    (m : Memory) (addr n : ℕ) (b : Bool) → can_access addr n b m ≡ true → m.base ≤ addr
unfolding can_access
base-le_of_access m addr n b e = ground arith

load_disjoint :
    (bytes out : List ℕ) (i n i' n' v : ℕ)
    → store n bytes i v ≡ some out
    → (i + n ≤ i') ⊎ (i' + n' ≤ i)
    → load n' out i' ≡ load n' bytes i'
load_disjoint bytes out i n i' n' v s apart =
    load_congr n' out bytes i' (λ j p q. store_outside n bytes i v j out s (omega arith))

-- If a write to a segment succeeds, a read of any width of bytes that do not overlap the written
-- ones, both addresses below 2 ^ 64, gives what it gave before, exceptions included.
pub read_data-write_data_disjoint :
    (m m' : Memory) (w w' : Width) (addr addr' v : ℕ)
    → addr < 2 ^ 64
    → addr' < 2 ^ 64
    → (addr + size_of w ≤ addr') ⊎ (addr' + size_of w' ≤ addr)
    → write_data w addr v m ≡ ok m'
    → read_data w' addr' m' ≡ read_data w' addr' m
read_data-write_data_disjoint m m' w w' addr addr' v ha ha' apart e =
    let (allowed, (out, s, same)) = write_data_inv m m' w addr v e in
    let low : m.base ≤ addr = base-le_of_access m addr (size_of w) true allowed in
    rw same (elim (Bool-cases (can_access addr' (size_of w') false m)) [
      | inl c ↦
          let low' : m.base ≤ addr' = base-le_of_access m addr' (size_of w') false c in
          both_allowed out s low low' c
      | inr c ↦ both_refused out c
    ])
  where
    both_allowed :
        (out : List ℕ)
        → store (size_of w) m.bytes (offset m addr) v ≡ some out
        → m.base ≤ addr
        → m.base ≤ addr'
        → can_access addr' (size_of w') false m ≡ true
        → read_data w' addr' (record m { bytes = out }) ≡ read_data w' addr' m
    both_allowed out s low low' c =
        unfold read_data can_access in
        ground (
          arith,
          load_disjoint m.bytes out (offset m addr) (size_of w) (offset m addr') (size_of w') v s
              (omega arith),
        )

    both_refused :
        (out : List ℕ)
        → can_access addr' (size_of w') false m ≡ false
        → read_data w' addr' (record m { bytes = out }) ≡ read_data w' addr' m
    both_refused out c = unfold read_data can_access in ground arith
