-- ===== src/Config.antt =====
-- agios_config.c: the configuration parameters. libconfig is a parameter: a file that can be read
-- gives a value for some of the keys, of the type asked for, and a lookup without one leaves the
-- variable as it was, which here is the value of the lookup before. Some of the variables are
-- 32-bit integers, so that the size of the buffer for traces wraps around.
pub mod Reading
pub mod Strings
use forwarding_explorer_agio.Prelude.{
  ℕ, suc, ◌*◌, ◌+◌, ◌-◌, ◌%◌, ◌^◌, Bool, true, false, not, Option, none, some, List, if◌then◌else◌,
  ◌==◌,
}
use forwarding_explorer_agio.Prelude.Int.{ℤ, pos, negsuc, ltb_ℤ, ◌*ℤ◌}
use forwarding_explorer_agio.Schedulers.{IoScheduler, get_algorithm_from_string, enable_sw}
use forwarding_explorer_agio.Timeline.{wrap_int32}
use Prim.Native.String.{String, len}

-- What a file holds. The Boolean values are the numbers that libconfig stores.
pub record Lookups : Type 0 where
  pub config_lookup_bool : String → Option ℤ
  pub config_lookup_int : String → Option ℤ
  pub config_lookup_string : String → Option String

-- The parameters, without the `config_` that their names begin with, and the table of schedulers.
pub record Settings : Type 0 where
  pub default_algorithm : ℕ
  pub max_trace_buffer_size : ℤ
  pub performance_values : ℤ
  pub select_algorithm_period : ℤ
  pub select_algorithm_min_reqnumber : ℤ
  pub starting_algorithm : ℕ
  pub aioli_quantum : ℤ
  pub mlf_quantum : ℤ
  pub sw_size : ℤ
  pub trace_agios : Bool
  pub trace_agios_file_prefix : Option String
  pub trace_agios_file_sufix : Option String
  pub twins_window : ℤ
  pub waiting_time : ℤ
  pub io_schedulers : List IoScheduler

-- With the two variables of the function. `ret_str` starts without a value.
pub record Reader : Type 0 where
  pub settings : Settings
  pub ret : ℤ
  pub ret_str : Option String

-- What a step of the function comes to, and the function itself, which returns false or true.
pub data Outcome : Type 0 where
  -- an assertion failed, or a pointer without a value was followed
  fault : Outcome
  -- it returned false
  gave_up : Settings → Outcome
  go_on : Reader → Outcome

infixl 20 ◌then◌
abbrev pub ◌then◌ : Outcome → (Reader → Outcome) → Outcome
fault then k = fault
gave_up s then k = gave_up s
go_on r then k = k r

unfoldable pub convert_inttobool : ℤ → Bool
convert_inttobool (pos n) = not (n == 0)
convert_inttobool (negsuc n) = true

abbrev pub or_else {ℓ} : {A : Type ℓ} → Option A → A → A
or_else none old = old
or_else (some v) old = v

abbrev pub lookup_bool : Lookups → String → Reader → Reader
lookup_bool l key r = record r { ret = or_else (l.config_lookup_bool key) r.ret }

abbrev pub lookup_int : Lookups → String → Reader → Reader
lookup_int l key r = record r { ret = or_else (l.config_lookup_int key) r.ret }

abbrev pub or_older : Option String → Option String → Option String
or_older none old = old
or_older (some v) old = some v

abbrev pub lookup_string : Lookups → String → Reader → Reader
lookup_string l key r = record r { ret_str = or_older (l.config_lookup_string key) r.ret_str }

-- A write to the parameters.
abbrev pub update : (Settings → Settings) → Reader → Reader
update f r = record r { settings = f r.settings }

-- A copy of the string, for which `malloc` gives memory or not. The parameter is NULL without it.
abbrev pub copy_string :
    (memory : Bool) → (store : Option String → Settings → Settings) → Reader → Outcome
copy_string memory store r = elim (r.ret_str) [
  | none ↦ fault
  | some s ↦ if memory then go_on (update (store (some s)) r) else gave_up (store none r.settings)
]

abbrev pub named : (store : ℕ → Settings → Settings) → Reader → Bool × ℕ → Outcome
named store r (true, i) = go_on (update (store i) r)
named store r (false, i) = gave_up (store i r.settings)

-- The algorithm that the string names.
abbrev pub take_algorithm : (store : ℕ → Settings → Settings) → Reader → Outcome
take_algorithm store r = elim (r.ret_str) [
  | none ↦ fault
  | some s ↦ named store r (get_algorithm_from_string r.settings.io_schedulers s)
]

abbrev pub ms : ℤ
ms = pos 1_000_000

abbrev pub us : ℤ
us = pos 1_000

-- `ret*1024` in 32 bits.
abbrev pub kilobytes : ℤ → ℤ
kilobytes v = wrap_int32 (v *ℤ pos 1024)

-- The parameters about traces, in the order of the file, up to the default algorithm.
unfoldable pub read_trace : Lookups → (memory : ℕ → Bool) → Reader → Outcome
unfolding convert_inttobool
read_trace l memory r =
    let r1 = lookup_bool l "library_options.trace" r in
    let r2 = update (λ s. record s { trace_agios = convert_inttobool r1.ret }) r1 in
    copy_string (memory 0) (λ v s. record s { trace_agios_file_prefix = v })
      (lookup_string l "library_options.trace_file_prefix" r2)
    then λ r3.
        copy_string (memory 1) (λ v s. record s { trace_agios_file_sufix = v })
          (lookup_string l "library_options.trace_file_sufix" r3)

-- The parameters from the waiting time on, up to the starting algorithm.
unfoldable pub read_quanta : Lookups → Reader → Reader
read_quanta l r =
    let r1 = lookup_int l "library_options.waiting_time" r in
    let r2 =
      lookup_int l "library_options.aioli_quantum"
        (update (λ s. record s { waiting_time = r1.ret }) r1) in
    let r3 =
      lookup_int l "library_options.mlf_quantum"
        (update (λ s. record s { aioli_quantum = r2.ret }) r2) in
    let r4 =
      lookup_int l "library_options.select_algorithm_period"
        (update (λ s. record s { mlf_quantum = r3.ret }) r3) in
    update
      (λ s. record s {
        select_algorithm_period = r4.ret *ℤ ms;
        select_algorithm_min_reqnumber =
            or_else (l.config_lookup_int "library_options.select_algorithm_min_reqnumber")
              s.select_algorithm_min_reqnumber;
      })
      r4

abbrev pub assert_nonneg : ℤ → Reader → Outcome
assert_nonneg v r = if ltb_ℤ v (pos 0) then fault else go_on r

-- The parameters after the starting algorithm.
unfoldable pub read_windows : Lookups → Reader → Outcome
unfolding convert_inttobool
read_windows l r =
    let r1 = lookup_bool l "library_options.enable_SW" (
      update
        (λ s. record s {
          performance_values =
              or_else (l.config_lookup_int "library_options.performance_values")
                s.performance_values;
        })
        r) in
    let r2 =
      update
        (λ s. record s {
          io_schedulers =
              if convert_inttobool r1.ret then enable_sw s.io_schedulers else s.io_schedulers;
        })
        r1 in
    let r3 = lookup_int l "library_options.SW_window" r2 in
    assert_nonneg (r3.ret *ℤ ms) (update (λ s. record s { sw_size = r3.ret *ℤ ms }) r3) then λ r4.
    (let r5 = lookup_int l "library_options.twins_window" r4 in
      assert_nonneg (r5.ret *ℤ us) (update (λ s. record s { twins_window = r5.ret *ℤ us }) r5))
    then λ r6.
        (let r7 = lookup_int l "library_options.max_trace_buffer_size" r6 in
          go_on (update (λ s. record s { max_trace_buffer_size = kilobytes r7.ret }) r7))

-- The lookups in a file that was read. `config_true` is what reading it returned.
unfoldable pub read_options : (config_true : ℤ) → Lookups → (memory : ℕ → Bool) → Settings → Outcome
unfolding read_trace read_quanta read_windows
read_options config_true l memory s =
    read_trace l memory (record { settings = s; ret = config_true; ret_str = none })
    then (λ r.
        take_algorithm (λ i t. record t { default_algorithm = i })
          (lookup_string l "library_options.default_algorithm" r))
    then (λ r.
        take_algorithm (λ i t. record t { starting_algorithm = i })
          (lookup_string l "library_options.starting_algorithm" (read_quanta l r)))
    then read_windows l

-- What `read_configuration_file` returns, and the parameters then.
abbrev pub result : Outcome → Option (Bool × Settings)
result fault = none
result (gave_up s) = some (false, s)
result (go_on r) = some (true, r.settings)

abbrev pub default_configfile : String
default_configfile = "/etc/agios.conf"

abbrev pub file_name : (config_file : Option String) → String
file_name none = default_configfile
file_name (some f) = if len f == 0 then default_configfile else f

-- `none` is a fault. `read_file` reads a file of that name, and fails where there is none or it has a
-- syntax error.
unfoldable pub read_configuration_file :
    (config_true : ℤ)
    → (read_file : String → Option Lookups) → (memory : ℕ → Bool) → (config_file : Option String)
    → Settings
    → Option (Bool × Settings)
unfolding read_options
read_configuration_file config_true read_file memory config_file s =
    elim (read_file (file_name config_file)) [
      | none ↦ some (true, s)
      | some l ↦ result (read_options config_true l memory s)
    ]
