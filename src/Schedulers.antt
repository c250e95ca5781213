-- ===== src/Schedulers.antt =====
-- scheduling_algorithms.c: the table of scheduling algorithms and the searches in it.
pub mod Table
use forwarding_explorer_agio.Prelude.{
  ℕ, zero, suc, ◌+◌, ◌<◌, Bool, true, false, Option, none, some, List, [], ◌∷◌, ltb, leb, get_elem?,
  if◌then◌else◌,
}
use Prim.Native.String.{String}
use text.Mathlib.Text.{◌==◌ as str_eq}

abbrev pub max_aggreg_size : ℕ
max_aggreg_size = 16

abbrev pub mlf_scheduler : ℕ
mlf_scheduler = 0

abbrev pub toagg_scheduler : ℕ
toagg_scheduler = 1

abbrev pub sjf_scheduler : ℕ
sjf_scheduler = 2

abbrev pub aioli_scheduler : ℕ
aioli_scheduler = 3

abbrev pub to_scheduler : ℕ
to_scheduler = 4

abbrev pub sw_scheduler : ℕ
sw_scheduler = 5

abbrev pub noop_scheduler : ℕ
noop_scheduler = 6

abbrev pub twins_scheduler : ℕ
twins_scheduler = 7

abbrev pub io_scheduler_count : ℕ
io_scheduler_count = 8

-- The functions that the table points to: those that schedule, and those that initialise.
pub data Schedule : Type 0 where
  mlf timeorder sjf aioli sw noop twins : Schedule

pub data Init : Type 0 where
  no_init mlf_init twins_init : Init

pub record IoScheduler : Type 0 where
  pub name : String
  pub index : ℕ
  pub init : Init
  pub schedule : Schedule
  pub max_aggreg_size : ℕ
  pub needs_hashtable : Bool
  pub can_be_dynamically_selected : Bool
  pub is_dynamic : Bool

abbrev entry : String → ℕ → Init → Schedule → ℕ → Bool → Bool → IoScheduler
entry name index init schedule size needs selectable = record {
  name = name;
  index = index;
  init = init;
  schedule = schedule;
  max_aggreg_size = size;
  needs_hashtable = needs;
  can_be_dynamically_selected = selectable;
  is_dynamic = false;
}

unfoldable pub io_schedulers : List IoScheduler
io_schedulers =
    entry "MLF" mlf_scheduler mlf_init mlf 16 true true
    ∷ entry "TO-agg" toagg_scheduler no_init timeorder 16 false true
    ∷ entry "SJF" sjf_scheduler no_init sjf 16 true true
    ∷ entry "aIOLi" aioli_scheduler no_init aioli 16 true false
    ∷ entry "TO" to_scheduler no_init timeorder 1 false true
    ∷ entry "SW" sw_scheduler no_init sw 1 false false
    ∷ entry "NOOP" noop_scheduler no_init noop 1 false true
    ∷ entry "TWINS" twins_scheduler twins_init twins 1 false false
    ∷ []

-- An index is a non-negative `int32_t` here, so that only its upper bound is left to test.
unfoldable pub find_io_scheduler : List IoScheduler → ℕ → Option IoScheduler
find_io_scheduler table index = if leb io_scheduler_count index then none else get_elem? table index

-- `run` is the outcome of the initialisation function, if there is one.
unfoldable pub initialize_scheduler :
    (run : Init → Bool) → List IoScheduler → ℕ → Option IoScheduler
unfolding find_io_scheduler
initialize_scheduler run table index = elim (find_io_scheduler table index) [
  | none ↦ none
  | some s ↦ elim s.init [ no_init ↦ some s | f ↦ if run f then some s else none ]
]

-- The loop of `get_algorithm_from_string` from index `i` on.
unfoldable pub search_name : String → ℕ → List IoScheduler → Option ℕ
search_name alg i [] = none
search_name alg i (s ∷ rest) = if str_eq alg s.name then some i else search_name alg (suc i) rest

-- The result and what `*index` holds afterwards.
unfoldable pub get_algorithm_from_string : List IoScheduler → String → Bool × ℕ
unfolding search_name
get_algorithm_from_string table alg = elim (search_name alg 0 table) [
  | none ↦ (false, sjf_scheduler)
  | some i ↦ (true, i)
]

unfoldable pub get_algorithm_name_from_index : List IoScheduler → ℕ → Option String
get_algorithm_name_from_index table index =
    if leb io_scheduler_count index
    then none
    else elim (get_elem? table index) [ none ↦ none | some s ↦ some s.name ]

abbrev select : ℕ → List IoScheduler → List IoScheduler
select i [] = []
select zero (s ∷ rest) = record s { can_be_dynamically_selected = true } ∷ rest
select (suc i) (s ∷ rest) = s ∷ select i rest

unfoldable pub enable_sw : List IoScheduler → List IoScheduler
enable_sw table = select sw_scheduler table
