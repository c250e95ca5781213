-- ===== src/Config/Reading.antt =====
-- agios_config.c: what each parameter is once the configuration is read.
use forwarding_explorer_agio.Prelude.{
  ℕ, ◌≡◌, refl, Bool, true, false, Option, some, List, [], ◌∷◌, drop, if◌then◌else◌,
}
use forwarding_explorer_agio.Prelude.Int.{ℤ, pos, ltb_ℤ, ◌*ℤ◌}
use forwarding_explorer_agio.Config.{
  Lookups, Settings, convert_inttobool, or_else, ms, us, kilobytes, file_name,
  read_configuration_file, read_options, read_trace, read_quanta, read_windows,
}
use forwarding_explorer_agio.Schedulers.{get_algorithm_from_string, enable_sw}
use Prim.Native.String.{String}

pub data Key : Type 0 where
  bool int : String → Key

abbrev look : Lookups → Key → Option ℤ
look l (bool key) = l.config_lookup_bool key
look l (int key) = l.config_lookup_int key

-- The value of the first of these keys that has one, or else `d`.
abbrev nearest : Lookups → List Key → ℤ → ℤ
nearest l [] d = d
nearest l (k ∷ ks) d = or_else (look l k) (nearest l ks d)

-- The keys that are read into the variable `ret`, the last one first.
abbrev keys : List Key
keys =
    int "library_options.max_trace_buffer_size"
    ∷ int "library_options.twins_window"
    ∷ int "library_options.SW_window"
    ∷ bool "library_options.enable_SW"
    ∷ int "library_options.select_algorithm_period"
    ∷ int "library_options.mlf_quantum"
    ∷ int "library_options.aioli_quantum"
    ∷ int "library_options.waiting_time"
    ∷ bool "library_options.trace"
    ∷ []

-- What `ret` holds after the lookup of key `i` of the list.
abbrev pub value : (config_true : ℤ) → Lookups → (i : ℕ) → ℤ
value config_true l i = nearest l (drop i keys) config_true

-- The parameters that a file gives, with the names of the trace files and the two algorithms.
abbrev pub given :
    (config_true : ℤ)
    → Lookups
    → (prefix sufix : String) → (default starting : ℕ) → Settings
    → Settings
given config_true l prefix sufix default starting s =
    let v = value config_true l in
    record {
      default_algorithm = default;
      max_trace_buffer_size = kilobytes (v 0);
      performance_values =
          or_else (l.config_lookup_int "library_options.performance_values") s.performance_values;
      select_algorithm_period = v 4 *ℤ ms;
      select_algorithm_min_reqnumber =
          or_else (l.config_lookup_int "library_options.select_algorithm_min_reqnumber")
            s.select_algorithm_min_reqnumber;
      starting_algorithm = starting;
      aioli_quantum = v 6;
      mlf_quantum = v 5;
      sw_size = v 2 *ℤ ms;
      trace_agios = convert_inttobool (v 8);
      trace_agios_file_prefix = some prefix;
      trace_agios_file_sufix = some sufix;
      twins_window = v 1 *ℤ us;
      waiting_time = v 7;
      io_schedulers =
          if convert_inttobool (v 3) then enable_sw s.io_schedulers else s.io_schedulers;
    }

-- What the file has to give, so that it is read to its end.
pub record IsReadable (config_true : ℤ) (l : Lookups) (memory : ℕ → Bool) (s : Settings)
    (prefix sufix : String) (default starting : ℕ) : Type 0 where
  pub default_name : String
  pub starting_name : String
  pub memory_prefix : memory 0 ≡ true
  pub memory_sufix : memory 1 ≡ true
  pub has_prefix : l.config_lookup_string "library_options.trace_file_prefix" ≡ some prefix
  pub has_sufix : l.config_lookup_string "library_options.trace_file_sufix" ≡ some sufix
  pub has_default : l.config_lookup_string "library_options.default_algorithm" ≡ some default_name
  pub has_starting :
      l.config_lookup_string "library_options.starting_algorithm" ≡ some starting_name
  pub finds_default : get_algorithm_from_string s.io_schedulers default_name ≡ (true, default)
  pub finds_starting : get_algorithm_from_string s.io_schedulers starting_name ≡ (true, starting)
  pub sw_nonneg : ltb_ℤ (value config_true l 2 *ℤ ms) (pos 0) ≡ false
  pub twins_nonneg : ltb_ℤ (value config_true l 1 *ℤ us) (pos 0) ≡ false

-- A file with the four names, whose windows do not come to a negative length, is read to its end.
-- Then each parameter with a key of its own variable has its value or what it was; but one of the
-- others without its key has the value of the nearest key before that is there, and the first of
-- them that of the constant CONFIG_TRUE, and not what it was.
pub read_configuration_file-given :
    (config_true : ℤ) (l : Lookups) (read_file : String → Option Lookups) (memory : ℕ → Bool)
    (config_file : Option String) (prefix sufix : String) (default starting : ℕ) (s : Settings)
    → read_file (file_name config_file) ≡ some l
    → IsReadable config_true l memory s prefix sufix default starting
    → read_configuration_file config_true read_file memory config_file s
      ≡ some (true, given config_true l prefix sufix default starting s)
unfolding read_configuration_file read_options read_trace read_quanta read_windows
read_configuration_file-given config_true l read_file memory config_file prefix sufix default
      starting s readable h =
    rw
      (
        read_configuration_file, readable, h.memory_prefix, h.memory_sufix, h.has_prefix,
        h.has_sufix, h.has_default, h.finds_default, h.has_starting, h.finds_starting, h.sw_nonneg,
        h.twins_nonneg,
      )
      refl
