-- ===== src/Quanta/Adjusting.antt =====
-- The next quantum of a queue under aIOLi.c.
use forwarding_explorer_agio.Prelude.{ℕ, ◌≡◌, refl, if◌then◌else◌, arith, inl, inr, ◌⊎◌, Bool-cases}
use forwarding_explorer_agio.Prelude.Int.{ℤ, pos, ◌≤ℤ◌, ltb_ℤ}
use forwarding_explorer_agio.Schedulers.{max_aggreg_size}
use forwarding_explorer_agio.Quanta.{required_quantum, adjust_quantum}

-- The next quantum is the configured one, or it lies between 1 and `MAX_AGGREG_SIZE`, however large
-- the quantum in bytes was that the queue used up: the bound is the one on the number of requests in
-- an aggregation.
pub adjust_quantum_bounds :
    (config used quantum : ℕ)
    → (adjust_quantum config used quantum ≡ pos config)
      ⊎ ((pos 1 ≤ℤ adjust_quantum config used quantum)
          × (adjust_quantum config used quantum ≤ℤ pos max_aggreg_size))
unfolding adjust_quantum
adjust_quantum_bounds config used quantum = bounds (required_quantum used quantum)
  where
    bounds :
        (z : ℤ)
        → let r =
            (if ltb_ℤ (pos 0) z
              then if ltb_ℤ (pos max_aggreg_size) z then pos max_aggreg_size else z
              else pos config) in
          (r ≡ pos config) ⊎ ((pos 1 ≤ℤ r) × (r ≤ℤ pos max_aggreg_size))
    bounds z = elim (Bool-cases (ltb_ℤ (pos 0) z)) [
      | inr low ↦ rw low (inl refl)
      | inl some_room ↦ elim (Bool-cases (ltb_ℤ (pos max_aggreg_size) z)) [
        | inl high ↦ rw (some_room, high) (inr (omega arith, omega arith))
        | inr between ↦ rw (some_room, between) (inr (ground arith, ground arith))
      ]
    ]
