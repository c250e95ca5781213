-- ===== src/Mlf/Turns.antt =====
-- How many rounds of the loop of MLF.c a turn over the lines takes, and all turns.
use forwarding_explorer_agio.Prelude.{
  ℕ, zero, suc, ◌+◌, ◌*◌, ◌-◌, ◌≤◌, ◌<◌, ◌≡◌, refl, ◌⊎◌, inl, inr, Bool, true, false, ◌==◌, arith,
  Bool-cases,
}
use forwarding_explorer_agio.Prelude.Int.{ℤ, pos, negsuc, pos_part, ltb_ℤ, ◌-ℤ◌}
use forwarding_explorer_agio.Mlf.{next_line}

-- Line `hash` is `d` lines before the end of the turn that began at `start`.
pub record IsBefore (start hash d : ℕ) : Type 0 where
  pub below : hash < 64
  pub start_below : start < 64
  pub some_left : 1 ≤ d
  pub most : d ≤ 64
  pub meets : (hash + d ≡ start) ⊎ (hash + d ≡ start + 64)

pub next_line-IsBefore :
    (start hash d : ℕ)
    → IsBefore start hash d
    → (((next_line hash == start) ≡ true) × (d ≡ 1) × IsBefore start (next_line hash) 64)
      ⊎ (((next_line hash == start) ≡ false) × IsBefore start (next_line hash) (d - 1) × (2 ≤ d))
unfolding next_line
next_line-IsBefore start hash d h =
    let b = h.below in
    let s = h.start_below in
    let one = h.some_left in
    let most = h.most in
    let m = h.meets in
    elim (Bool-cases (d == 1)) [
      | inl last ↦ inl (
        ground arith,
        ground arith,
        record {
          below = ground arith;
          start_below = s;
          some_left = omega arith;
          most = omega arith;
          meets = ground arith;
        },
      )
      | inr more ↦ inr (
        ground arith,
        record {
          below = ground arith;
          start_below = s;
          some_left = ground arith;
          most = omega arith;
          meets = ground arith;
        },
        ground arith,
      )
    ]

-- The rounds that are enough: a turn for each request that is left, and what is left of this turn.
abbrev pub rounds_left : (d : ℕ) → (processed : Bool) → (requests : ℕ) → ℕ
rounds_left d processed zero = 0
rounds_left d true (suc k) = d + 64 * suc k
rounds_left d false (suc k) = d + 64 * k

-- Nothing has been processed, or there is a request less.
abbrev pub Goes : (p : Bool) → ℕ → (p' : Bool) → ℕ → Type 0
Goes p k p' k' = ((p' ≡ p) × (k' ≡ k)) ⊎ ((p' ≡ true) × (k' < k))

pub rounds_left-next :
    (n d k : ℕ) (p : Bool) (k' : ℕ) (p' : Bool)
    → rounds_left d p (suc k) < suc n
    → 2 ≤ d
    → Goes p (suc k) p' k'
    → rounds_left (d - 1) p' k' < n
rounds_left-next n d k true zero p' h two g = omega arith
rounds_left-next n d k false zero p' h two g = omega arith
rounds_left-next n d k true (suc k') true h two g = ground arith
rounds_left-next n d k true (suc k') false h two g = ground arith
rounds_left-next n d k false (suc k') true h two g = ground arith
rounds_left-next n d k false (suc k') false h two g = ground arith

pub rounds_left-turn :
    (n d k : ℕ) (p : Bool) (k' : ℕ) (p' : Bool)
    → rounds_left d p (suc k) < suc n
    → d ≡ 1
    → Goes p (suc k) p' k'
    → p' ≡ true
    → rounds_left 64 false k' < n
rounds_left-turn n d k true zero p' h one g more = omega arith
rounds_left-turn n d k false zero p' h one g more = omega arith
rounds_left-turn n d k true (suc k') p' h one g more = ground arith
rounds_left-turn n d k false (suc k') p' h one g more = ground arith

pub fewer : (z : ℤ) (h k : ℕ) → pos_part z ≡ suc k → 1 ≤ h → pos_part (z -ℤ pos h) < suc k
unfolding ◌-ℤ◌
fewer (pos n) h k e one = ground arith
fewer (negsuc n) h k e one = absurd (omega arith)

pub zero_or_more : (n : ℕ) → (n ≡ 0) ⊎ ((k : ℕ) × (n ≡ suc k))
zero_or_more zero = inl refl
zero_or_more (suc k) = inr (k, refl)

pub positive : (z : ℤ) (k : ℕ) → pos_part z ≡ suc k → ltb_ℤ (pos 0) z ≡ true
positive (pos n) k e = ground arith
positive (negsuc n) k e = absurd (omega arith)
