-- ===== src/Tests/Ends.antt =====
-- The theorems on the end of the library.
use forwarding_explorer_agio.Prelude.{ℕ, zero, suc, ◌+◌, ◌≡◌, refl, true, false, none, some}
use forwarding_explorer_agio.Cleanup.{cleanup_all}
use forwarding_explorer_agio.Cleanup.Structs.{
  sum_of, all_structs, lines_structs, queues_structs, TableShaped, cleanup_all-structs,
}
use forwarding_explorer_agio.Config.Strings.{
  null, Strings, copy_strings, cleanup_config_parameters, cleanup_config_parameters-again,
}
use forwarding_explorer_agio.Tests.Loops.{lines}
use forwarding_explorer_agio.Tests.Structures.{in_hashtable, reads-AllShaped}

-- The strings before the first session.
abbrev never : Strings
never = record { trace_agios_file_prefix = null; trace_agios_file_sufix = null }

-- The single reads that are with the user, and the files of the hashtable.
lines-TableShaped : (n : ℕ) → TableShaped (lines n)
lines-TableShaped zero = (
  (
    (reads-AllShaped, (refl, (refl, tt))),
    (tt, tt),
    ((reads-AllShaped, (refl, (refl, tt))), (tt, tt), tt),
  ),
  tt,
)
lines-TableShaped (suc n) = (tt, lines-TableShaped n)

cleanup_all-structs_example :
    sum_of (λ f. f.len) (cleanup_all in_hashtable)
    ≡ lines_structs (λ f. f.len) in_hashtable.hashlist
      + all_structs (λ f. f.len) in_hashtable.timeline
      + queues_structs (λ f. f.len) in_hashtable.multi_timeline
cleanup_all-structs_example =
    cleanup_all-structs (λ f. f.len) in_hashtable (lines-TableShaped 31) tt tt

cleanup_config_parameters-again_example :
    (t : Strings) × (cleanup_config_parameters (copy_strings (λ i. true) true never) ≡ some t)
    × ((u : Strings) × (cleanup_config_parameters (copy_strings (λ i. true) true t) ≡ some u))
    × (cleanup_config_parameters (copy_strings (λ i. true) false t) ≡ none)
cleanup_config_parameters-again_example =
    cleanup_config_parameters-again (λ i. true) (λ i. true) refl refl
