-- ===== src/Common/Average.antt =====
-- The running average of common_functions.c.
use forwarding_explorer_agio.Prelude.{
  ℕ, suc, ◌/◌, ◌≤◌, ◌≡◌, refl, arith, ◌==◌, Bool-cases, inl, inr, ◌⊎◌,
}
use forwarding_explorer_agio.Prelude.Int.{
  ℤ, pos, negsuc, pos_part, neg_part, ◌-ℤ◌, ◌≤ℤ◌, +ℤ_parts, -ℤ_parts,
}
use forwarding_explorer_agio.Common.{div_ℤ, update_iterative_average}

div-le : (a n : ℕ) → 1 ≤ n → a / n ≤ a
div-le a n h = grind arith

-- A quotient has the sign of the dividend and is no further from 0.
div_parts :
    (a : ℤ) (n : ℕ)
    → 1 ≤ n
    → (pos_part (div_ℤ a n) ≤ pos_part a) × (neg_part (div_ℤ a n) ≤ neg_part a)
div_parts (pos a) n h = (div-le a n h, omega arith)
div_parts (negsuc a) n h = (ground (arith, div-le (suc a) n), ground (arith, div-le (suc a) n))

one_part : (a : ℤ) → (pos_part a ≡ 0) ⊎ (neg_part a ≡ 0)
one_part (pos a) = inr refl
one_part (negsuc a) = inl refl

-- A new value moves the average towards itself and not past it: bounds that hold of both hold of
-- the new average.
pub update_iterative_average_bounds :
    (lo hi avg value : ℤ) (count : ℕ)
    → 1 ≤ count
    → lo ≤ℤ avg
    → avg ≤ℤ hi
    → lo ≤ℤ value
    → value ≤ℤ hi
    → (lo ≤ℤ update_iterative_average avg value count)
      × (update_iterative_average avg value count ≤ℤ hi)
unfolding update_iterative_average
update_iterative_average_bounds lo hi avg value count h a b c d = elim (Bool-cases (count == 1)) [
  | inl first ↦ rw first (c, d)
  | inr later ↦
      let q = div_ℤ (value -ℤ avg) count in
      let p = div_parts (value -ℤ avg) count h in
      let s = one_part (value -ℤ avg) in
      rw later (
        omega (arith, p.0, p.1, s, +ℤ_parts avg q, -ℤ_parts value avg),
        omega (arith, p.0, p.1, s, +ℤ_parts avg q, -ℤ_parts value avg),
      )
]
