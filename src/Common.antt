-- ===== src/Common.antt =====
-- common_functions.c: minima, times in nanoseconds, iterative averages. A time is a number of
-- nanoseconds of the monotonic clock; `now` is what `clock_gettime` returns.
pub mod Average
use forwarding_explorer_agio.Prelude.{
  ℕ, suc, ◌+◌, ◌*◌, ◌/◌, ◌%◌, ◌<◌, ◌≡◌, refl, ap, arith, ltb, leb, ◌==◌, if◌then◌else◌,
}
use forwarding_explorer_agio.Prelude.Int.{ℤ, pos, negsuc, ◌+ℤ◌, ◌-ℤ◌, ltb_ℤ, -ℤ_parts, sub_ℕ}
use forwarding_explorer_agio.Data.{Timespec}

-- -n, and C's division of an integer by a positive count, which rounds towards 0.
abbrev pub negate : ℕ → ℤ
negate n = sub_ℕ 0 n

abbrev pub div_ℤ : ℤ → ℕ → ℤ
div_ℤ (pos a) n = pos (a / n)
div_ℤ (negsuc a) n = negate (suc a / n)

-- The remainder that goes with it.
abbrev pub mod_ℤ : ℤ → ℕ → ℤ
mod_ℤ (pos a) n = pos (a % n)
mod_ℤ (negsuc a) n = negate (suc a % n)

unfoldable pub agios_min : ℤ → ℤ → ℤ
agios_min t1 t2 = if ltb_ℤ t1 t2 then t1 else t2

unfoldable pub agios_max : ℤ → ℤ → ℤ
agios_max t1 t2 = if ltb_ℤ t2 t1 then t1 else t2

unfoldable pub get_index_of_max_from_two : ℤ → ℤ → ℕ
get_index_of_max_from_two first second = if ltb_ℤ first second then 1 else 0

abbrev pub second_ns : ℕ
second_ns = 1_000_000_000

unfoldable pub get_timespec2long : Timespec → ℕ
get_timespec2long t = t.tv_sec * second_ns + t.tv_nsec

unfoldable pub get_long2timespec : ℕ → Timespec
get_long2timespec t = record { tv_sec = t / second_ns; tv_nsec = t % second_ns }

-- TIMESPEC_DIFF.
unfoldable pub timespec_diff : Timespec → Timespec → ℤ
timespec_diff t1 t2 =
    sub_ℕ (t2.tv_nsec + t2.tv_sec * second_ns) (t1.tv_nsec + t1.tv_sec * second_ns)

unfoldable pub get_nanoelapsed : Timespec → Timespec → ℤ
get_nanoelapsed now t1 = timespec_diff t1 now

unfoldable pub get_nanoelapsed_long : Timespec → ℕ → ℤ
unfolding get_timespec2long
get_nanoelapsed_long now t1 = sub_ℕ (get_timespec2long now) t1

-- Every caller has incremented `count`, so that the assertion `count > 0` holds.
unfoldable pub update_iterative_average : ℤ → ℤ → ℕ → ℤ
update_iterative_average avg value count =
    if count == 1 then value else avg +ℤ div_ℤ (value -ℤ avg) count

-- A time becomes a struct with less than a second of nanoseconds and comes back unchanged, and a
-- struct that is normalised survives the way through a number.
pub timespec_round_trip :
    (n : ℕ) (t : Timespec)
    → t.tv_nsec < second_ns
    → (get_timespec2long (get_long2timespec n) ≡ n)
      × ((get_long2timespec n).tv_nsec < second_ns)
      × (get_long2timespec (get_timespec2long t) ≡ t)
unfolding get_timespec2long get_long2timespec
timespec_round_trip n t h = (omega arith, omega arith, ground arith)

-- The elapsed time is that between the two times as numbers, also where the clock seems to go back.
pub get_nanoelapsed-get_timespec2long :
    (now t : Timespec) → get_nanoelapsed now t ≡ get_nanoelapsed_long now (get_timespec2long t)
unfolding get_nanoelapsed get_nanoelapsed_long timespec_diff get_timespec2long
get_nanoelapsed-get_timespec2long now t = ground arith
