-- ===== src/Schedulers/Table.antt =====
-- The table of scheduling_algorithms.c is consistent: names lead to indices and back.
use forwarding_explorer_agio.Prelude.{ℕ, zero, suc, leb, ◌≡◌, refl, true, false, some, arith}
use mathlib.Core.Path.{subst}
use mathlib.Core.Option.{some-injective}
use forwarding_explorer_agio.Schedulers.{
  IoScheduler, io_schedulers, io_scheduler_count, find_io_scheduler, get_algorithm_from_string,
  search_name, get_algorithm_name_from_index,
}

abbrev Consistent : ℕ → IoScheduler → Type 0
Consistent i s =
    (s.index ≡ i)
    × (get_algorithm_from_string io_schedulers s.name ≡ (true, i))
    × (get_algorithm_name_from_index io_schedulers i ≡ some s.name)
    × (s.is_dynamic ≡ false)

-- Every algorithm of the table stands at its own index, and its name is found there.
pub io_schedulers-round_trip :
    (i : ℕ) (s : IoScheduler)
    → find_io_scheduler io_schedulers i ≡ some s
    → (s.index ≡ i)
      × (get_algorithm_from_string io_schedulers s.name ≡ (true, i))
      × (get_algorithm_name_from_index io_schedulers i ≡ some s.name)
      × (s.is_dynamic ≡ false)
unfolding find_io_scheduler io_schedulers get_algorithm_from_string search_name
    get_algorithm_name_from_index
io_schedulers-round_trip zero s e =
    subst (Consistent 0) (some-injective _ _ e) (refl, refl, refl, refl)
io_schedulers-round_trip (suc zero) s e =
    subst (Consistent 1) (some-injective _ _ e) (refl, refl, refl, refl)
io_schedulers-round_trip (suc (suc zero)) s e =
    subst (Consistent 2) (some-injective _ _ e) (refl, refl, refl, refl)
io_schedulers-round_trip (suc (suc (suc zero))) s e =
    subst (Consistent 3) (some-injective _ _ e) (refl, refl, refl, refl)
io_schedulers-round_trip (suc (suc (suc (suc zero)))) s e =
    subst (Consistent 4) (some-injective _ _ e) (refl, refl, refl, refl)
io_schedulers-round_trip (suc (suc (suc (suc (suc zero))))) s e =
    subst (Consistent 5) (some-injective _ _ e) (refl, refl, refl, refl)
io_schedulers-round_trip (suc (suc (suc (suc (suc (suc zero)))))) s e =
    subst (Consistent 6) (some-injective _ _ e) (refl, refl, refl, refl)
io_schedulers-round_trip (suc (suc (suc (suc (suc (suc (suc zero))))))) s e =
    subst (Consistent 7) (some-injective _ _ e) (refl, refl, refl, refl)
io_schedulers-round_trip (suc (suc (suc (suc (suc (suc (suc (suc i)))))))) s e =
    let past : leb io_scheduler_count (suc (suc (suc (suc (suc (suc (suc (suc i)))))))) ≡ true =
      ground arith in
    absurd (cc past)
