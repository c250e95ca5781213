-- ===== src/Tests/Scheduling.antt =====
-- The theorems on traces, the configuration, the thread and the window of TWINS, on concrete inputs.
use forwarding_explorer_agio.Prelude.{
  zero, suc, get_or, List, ℕ, ◌≡◌, ◌<◌, refl, true, false, Option, none, some, [], ◌∷◌, length,
  arith, if◌then◌else◌,
}
use forwarding_explorer_agio.Prelude.Int.{ℤ, ltb_ℤ, pos, negsuc, ◌*ℤ◌}
use forwarding_explorer_agio.Config.{Lookups, Settings, read_configuration_file}
use forwarding_explorer_agio.Config.Reading.{IsReadable, given, read_configuration_file-given}
use forwarding_explorer_agio.Data.{File, Requests, nil, cons}
use forwarding_explorer_agio.Dispatch.{Times, sjf_round}
use forwarding_explorer_agio.Dispatch.FromShortest.{IsAt, Took, sjf_round-Took}
use forwarding_explorer_agio.Process.{Callback}
use forwarding_explorer_agio.Sjf.{
  Choice, sjf_get_shortest_job, search_lines, evaluate_line, evaluate, consider, sjf_check_queue,
}
use forwarding_explorer_agio.Sjf.Shortest.{AtMostAll}
use forwarding_explorer_agio.Files.Lookup.{IsLine}
use forwarding_explorer_agio.Fifo.{Selected, Selection, aioli_select_queue}
use forwarding_explorer_agio.Files.{find_file}
use forwarding_explorer_agio.Hash.{get_hashtable_position, calculate_hash}
use forwarding_explorer_agio.Schedulers.{
  io_schedulers, get_algorithm_from_string, search_name, sjf_scheduler, twins_scheduler,
}
use forwarding_explorer_agio.State.{Agios, line}
use forwarding_explorer_agio.Tests.Data.{single, virtual, handle, file_with, queue_with, one_second}
use forwarding_explorer_agio.Tests.Loops.{lines as hash_lines, state}
use forwarding_explorer_agio.Thread.{Limits, Environment}
use forwarding_explorer_agio.Trace.{Text, Trace, close_agios_trace}
use forwarding_explorer_agio.Trace.Lines.{lines, trace_all, close_agios_trace-lines}
use forwarding_explorer_agio.Twins.{Twins}
use Prim.Native.String.{String}
use text.Mathlib.Text.{◌==◌ as str_eq}

-- A trace with an empty buffer, in fresh memory that holds a byte.
abbrev new_trace : Trace
new_trace = record { file = []; buffer = 1 ∷ []; buffer_size = 0; aux_buf = []; t0 = one_second }

-- Every number is printed as one digit here.
abbrev digit : ℤ → Text
digit n = 48 ∷ []

abbrev traced : Trace
traced = trace_all digit (λ s. s) 300 (single 0 71 2 ∷ single 10 72 3 ∷ []) new_trace

close_agios_trace-lines_example :
    ((close_agios_trace (λ s. s) traced).file
      ≡ lines digit one_second (single 0 71 2 ∷ single 10 72 3 ∷ []))
    × (traced.buffer_size < 300)
    × (traced.buffer_size ≡ length traced.buffer)
close_agios_trace-lines_example =
    close_agios_trace-lines digit (λ s. s) 300 (single 0 71 2) (single 10 72 3 ∷ []) new_trace
      (λ s. refl) (omega arith) refl

-- A file without the keys for the quanta.
abbrev int_of : String → Option ℤ
int_of key = if str_eq key "library_options.waiting_time" then some (pos 70) else none

abbrev string_of : String → Option String
string_of key =
    if str_eq key "library_options.default_algorithm"
    then some "TWINS"
    else if str_eq key "library_options.starting_algorithm"
    then some "SJF"
    else some "agios"

abbrev short_file : Lookups
short_file = record {
  config_lookup_bool = λ key. none;
  config_lookup_int = int_of;
  config_lookup_string = string_of;
}

abbrev defaults : Settings
defaults = record {
  default_algorithm = sjf_scheduler;
  max_trace_buffer_size = pos 1048576;
  performance_values = pos 5;
  select_algorithm_period = negsuc 0;
  select_algorithm_min_reqnumber = pos 1;
  starting_algorithm = sjf_scheduler;
  aioli_quantum = pos 8192;
  mlf_quantum = pos 8192;
  sw_size = pos 1000000000;
  trace_agios = false;
  trace_agios_file_prefix = none;
  trace_agios_file_sufix = none;
  twins_window = pos 1000000;
  waiting_time = pos 900000;
  io_schedulers = io_schedulers;
}

short_file-IsReadable :
    IsReadable (pos 1) short_file (λ i. true) defaults "agios" "agios" twins_scheduler sjf_scheduler
unfolding get_algorithm_from_string search_name io_schedulers ◌*ℤ◌
short_file-IsReadable = record {
  default_name = "TWINS";
  starting_name = "SJF";
  memory_prefix = refl;
  memory_sufix = refl;
  has_prefix = refl;
  has_sufix = refl;
  has_default = refl;
  has_starting = refl;
  finds_default = refl;
  finds_starting = refl;
  sw_nonneg = refl;
  twins_nonneg = refl;
}

read_configuration_file-given_example :
    read_configuration_file (pos 1) (λ name. some short_file) (λ i. true) none defaults
    ≡ some (true, given (pos 1) short_file "agios" "agios" twins_scheduler sjf_scheduler defaults)
read_configuration_file-given_example =
    read_configuration_file-given (pos 1) short_file (λ name. some short_file) (λ i. true) none
      "agios" "agios" twins_scheduler sjf_scheduler defaults refl short_file-IsReadable

-- A scheduler that asks for a second and leaves the state alone.
abbrev environment : Environment
environment = record {
  now = one_second;
  now_remaining = one_second;
  now_selected = one_second;
  now_changed = one_second;
  memory = true;
  stored = λ r. pos 0;
  run = λ i. true;
  select_algorithm = λ a. sjf_scheduler;
  schedule = λ a. some (a, pos 1000000000);
}

abbrev pub limits : Limits
limits = record {
  select_algorithm_period = pos 5;
  select_algorithm_min_reqnumber = pos 1;
  waiting_time = pos 900000;
  sw_size = 1000;
  performance_values = 5;
}

-- Two servers, with requests for both.
abbrev queued : Requests
queued = cons (virtual 0) (cons (single 40 73 5) nil)

abbrev two_servers : Agios
two_servers = record state {
  timeline = nil;
  multi_timeline = cons (single 60 76 8) nil ∷ queued ∷ [];
  counters = record (state.counters) { current_reqnb = pos 4 };
}

abbrev window_of_1 : Twins
window_of_1 = record { g_twins_first_req = false; g_current_twins_server = 1; g_window_start = 7 }

abbrev times : Times
times = record {
  has_list_cb = true;
  now = λ i. 9;
  now_sent = λ i. 9;
  now_left = λ i. 10;
  stops = λ i. false;
}

lines-IsLine : (n h : ℕ) → IsLine (get_or (hash_lines n) h [])
lines-IsLine zero zero = (refl, tt)
lines-IsLine zero (suc h) = tt
lines-IsLine (suc n) zero = tt
lines-IsLine (suc n) (suc h) = lines-IsLine n h

-- Two files with 30 bytes to read each.
abbrev reads : Agios
reads = record state {
  timeline = nil;
  counters = record { current_reqnb = pos 6; current_filenb = pos 2; hashlist_reqcounter = [] };
}

abbrev choice : Choice
choice = record { hash = 31; file_id = handle; type = 0; queue = (file_with handle).read_queue }

reads-choice : sjf_get_shortest_job 2 reads.hashlist ≡ some choice
unfolding sjf_get_shortest_job search_lines evaluate_line evaluate consider sjf_check_queue
reads-choice = refl

reads-IsLine : (h : ℕ) → IsLine (line h reads)
reads-IsLine h = lines-IsLine 31 h

choice-IsAt : IsAt reads choice (file_with handle) (virtual 0) (cons (single 40 73 5) nil)
unfolding find_file get_hashtable_position calculate_hash
choice-IsAt = record {
  found = refl;
  hash = refl;
  first = refl;
  shape = (refl, omega arith, (refl, omega arith, (refl, omega arith, tt)));
}

sjf_round-Took_example :
    (ltb_ℤ (pos 0) (file_with handle).read_queue.current_size ≡ true)
    × AtMostAll (file_with handle).read_queue.current_size reads.hashlist
    × ((b : Agios) × (cs : List Callback) × (sjf_round true 9 reads ≡ some (b, cs))
        × Took reads (virtual 0) b cs)
sjf_round-Took_example =
    sjf_round-Took true 9 reads choice (file_with handle) (virtual 0) (cons (single 40 73 5) nil)
      reads-IsLine (omega arith) reads-choice choice-IsAt

-- A read of 10 bytes, whose quantum of 16 covers it, in a file that does not wait.
abbrev one_read : File
one_read = record (file_with handle) { read_queue = queue_with (cons (single 40 73 5) nil) nil 10 }

abbrev selection : Option Selection
selection = aioli_select_queue 50 16 (λ i. 9) 9 ((one_read ∷ []) ∷ [])

abbrev selected : Selected
selected = record { index = 0; file_id = handle; type = 0 }

abbrev or_empty : Option Selection → Selection
or_empty none = record { queue = none; sleeping_time = none; hashlist = [] }
or_empty (some s) = s

abbrev answer : Selection
answer = or_empty selection
