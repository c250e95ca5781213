-- ===== src/Config/Strings.antt =====
-- The two strings that agios_config.c copies, and cleanup_config_parameters, which frees them. A pointer
-- is known by whether it is NULL, points to a block in use, or to one that has been freed.
use forwarding_explorer_agio.Prelude.{
  ℕ, ◌≡◌, refl, Bool, true, false, Option, none, some, Bool-cases, inl, inr, if◌then◌else◌,
}

pub data Pointer : Type 0 where
  null : Pointer
  in_use : Pointer
  freed : Pointer

-- `if (p) free(p)`: the pointer keeps its value. `none` is a second `free`.
unfoldable pub free_string : Pointer → Option Pointer
free_string null = some null
free_string in_use = some freed
free_string freed = none

pub record Strings : Type 0 where
  pub trace_agios_file_prefix : Pointer
  pub trace_agios_file_sufix : Pointer

-- What the reading of a file does to the pointers, if there is a file; the two calls of `malloc` answer
-- with `memory`. The second one is not reached where the first gives nothing.
unfoldable pub copy_strings : (memory : ℕ → Bool) → (has_file : Bool) → Strings → Strings
copy_strings memory false s = s
copy_strings memory true s =
    if memory 0
    then record {
      trace_agios_file_prefix = in_use;
      trace_agios_file_sufix = if memory 1 then in_use else null;
    }
    else record s { trace_agios_file_prefix = null }

abbrev and_sufix : Option Pointer → Option Pointer → Option Strings
and_sufix none q = none
and_sufix (some p) none = none
and_sufix (some p) (some q) =
    some (record { trace_agios_file_prefix = p; trace_agios_file_sufix = q })

unfoldable pub cleanup_config_parameters : Strings → Option Strings
unfolding free_string
cleanup_config_parameters s =
    and_sufix (free_string s.trace_agios_file_prefix) (free_string s.trace_agios_file_sufix)

-- Two sessions of a process, the first with a configuration file and memory for the first string: the
-- first clean-up frees nothing twice. The second does not either, where its session has a file and memory
-- for the first string; but where its session has no file it frees a block that has been freed.
pub cleanup_config_parameters-again :
    (memory again : ℕ → Bool)
    → memory 0 ≡ true
    → again 0 ≡ true
    → let before : Strings = record {
      trace_agios_file_prefix = null;
      trace_agios_file_sufix = null;
    } in
      (t : Strings) × (cleanup_config_parameters (copy_strings memory true before) ≡ some t)
      × ((u : Strings) × (cleanup_config_parameters (copy_strings again true t) ≡ some u))
      × (cleanup_config_parameters (copy_strings again false t) ≡ none)
unfolding cleanup_config_parameters copy_strings free_string
cleanup_config_parameters-again memory again first second = elim (Bool-cases (memory 1)) [
  | inl both ↦ rw (first, both) (_, refl, (rw second (by (again 1))), refl)
  | inr one ↦ rw (first, one) (_, refl, (rw second (by (again 1))), refl)
]
  where
    by :
        (b : Bool)
        → (u : Strings) × (and_sufix (some freed) (free_string (if b then in_use else null))
            ≡ some u)
    by true = (_, refl)
    by false = (_, refl)
