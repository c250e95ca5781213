-- ===== src/Tests/Session.antt =====
-- Sessions under TO and under MLF: two requests for two files are added to an empty state, and the
-- loop runs.
use forwarding_explorer_agio.Prelude.{
  ℕ, zero, suc, ◌+◌, ◌%◌, ◌≡◌, refl, true, false, some, List, [], ◌∷◌, ◌++◌, ◌==◌, length,
  replicate, get_or, arith,
}
use forwarding_explorer_agio.Prelude.Int.{pos}
use forwarding_explorer_agio.Data.{nil, File, FileId}
use forwarding_explorer_agio.Entry.{Arrival, Environment, added}
use forwarding_explorer_agio.Files.Lookup.{IsLine}
use forwarding_explorer_agio.Loops.{timeorder, returned}
use forwarding_explorer_agio.Loops.Session.{IsReady, add_all, asked, timeorder-agios_add_request}
use forwarding_explorer_agio.Loops.Filling.{IsFilled, queued, add_all-IsFilled}
use forwarding_explorer_agio.Migration.Lines.{LinesSorted}
use forwarding_explorer_agio.Mlf.{Mlf, Environment as MlfEnvironment}
use forwarding_explorer_agio.Mlf.Session.{Conserved, mlf-agios_add_request}
use forwarding_explorer_agio.Process.{Callback}
use forwarding_explorer_agio.Process.Delivery.{delivered}
use forwarding_explorer_agio.Schedulers.{io_schedulers, mlf_scheduler, to_scheduler}
use forwarding_explorer_agio.Startup.{Memory, allocate_data_structures}
use forwarding_explorer_agio.Startup.Ready.{start_thread-IsReady}
use forwarding_explorer_agio.Thread.{Worker, start_thread}
use forwarding_explorer_agio.State.{Agios}
use forwarding_explorer_agio.Tests.Data.{handle, other_handle, file_with, one_second}
use forwarding_explorer_agio.Tests.Scheduling.{limits}
use forwarding_explorer_agio.Tests.Loops.{state, rounds}

abbrev empty_lines : ℕ → List (List File)
empty_lines zero = []
empty_lines (suc n) = [] ∷ empty_lines n

empty_lines-IsLine : (n h : ℕ) → IsLine (get_or (empty_lines n) h [])
empty_lines-IsLine zero h = tt
empty_lines-IsLine (suc n) zero = tt
empty_lines-IsLine (suc n) (suc h) = empty_lines-IsLine n h

abbrev new_state : Agios
new_state = record state {
  hashlist = empty_lines 64;
  timeline = nil;
  counters = record { current_reqnb = pos 0; current_filenb = pos 0; hashlist_reqcounter = [] };
}

new_state-IsReady : IsReady new_state
new_state-IsReady = record {
  alg = refl;
  hashtable = refl;
  width = refl;
  lines = empty_lines-IsLine 64;
  known = tt;
  counted = refl;
}

abbrev environment : Environment
environment = record {
  now = 9;
  now_dispatched = 9;
  request_memory = true;
  file_memory = some (file_with handle);
  stored = λ _. pos 0;
  config_sw_size = 1000;
  config_trace_agios = true;
  has_list_cb = true;
}

abbrev read_of : FileId → (identifier : ℕ) → Arrival
read_of file_id identifier = record {
  file_id = file_id;
  type = 0;
  offset = 20;
  len = 10;
  identifier = identifier;
  queue_id = 0;
}

abbrev calls : List (Environment × Arrival)
calls = (environment, read_of handle 81) ∷ (environment, read_of other_handle 82) ∷ []

timeorder-agios_add_request_example :
    (d last : Agios) × (told : List Callback) × (add_all calls new_state ≡ added d [])
    × (timeorder 3 0 rounds d ≡ returned last told)
    × (last.timeline ≡ nil)
    × (delivered told ≡ [] ++ asked calls)
timeorder-agios_add_request_example =
    timeorder-agios_add_request calls new_state 3 0 rounds
      ((refl, (file_with handle, refl), (refl, (file_with handle, refl), tt))) new_state-IsReady
      (λ j. refl) (omega arith)

-- The start of the library, with three queues for TWINS.
abbrev all_memory : Memory
all_memory = record {
  hashlist = true;
  hashlist_locks = true;
  hashlist_reqcounter = true;
  multi_timeline = true;
}

start_thread-IsReady_example :
    (b : Agios) × (w : Worker) × (allocate_data_structures all_memory 2 state ≡ some b)
    × (start_thread limits io_schedulers (λ i. true) true one_second to_scheduler to_scheduler b
        ≡ some w)
    × IsReady w.agios
start_thread-IsReady_example =
    start_thread-IsReady all_memory 2 limits (λ i. true) true one_second to_scheduler state
      (refl, refl, refl, refl) (0, refl, omega arith)

-- The same library under MLF.
abbrev mlf_state : Agios
mlf_state = record new_state {
  current_alg = mlf_scheduler;
  current_scheduler = get_or io_schedulers mlf_scheduler (state.current_scheduler);
}

empty_lines-LinesSorted : (n : ℕ) → LinesSorted 16 (empty_lines n)
empty_lines-LinesSorted zero = tt
empty_lines-LinesSorted (suc n) = (tt, empty_lines-LinesSorted n)

mlf_state-IsFilled : IsFilled mlf_state
unfolding io_schedulers
mlf_state-IsFilled = record {
  alg = refl;
  hashtable = refl;
  limit = omega arith;
  width = refl;
  lines = empty_lines-IsLine 64;
  sorted = empty_lines-LinesSorted 64;
  counted = refl;
}

add_all-IsFilled_example :
    (d : Agios) × (add_all calls mlf_state ≡ added d [])
    × IsFilled d
    × (queued d ≡ queued mlf_state + length calls)
add_all-IsFilled_example =
    add_all-IsFilled calls mlf_state
      ((refl, (file_with handle, refl), (refl, (file_with handle, refl), tt))) mlf_state-IsFilled

-- The loop of MLF, with every other line held by another thread.
abbrev walked : MlfEnvironment
walked = record {
  has_list_cb = true;
  config_waiting_time = 100;
  config_mlf_quantum = 8192;
  is_free = λ i. i % 2 == 0;
  now_waited = λ i k. i;
  now_checked = λ i k. i;
  now_sent = λ i k. i;
  stops = λ i. false ∷ [];
}

abbrev mlf_locals : Mlf
mlf_locals = record { mlf_current_hash = 0; mlf_lock_tries = replicate 64 0 }

mlf-agios_add_request_example :
    (d : Agios) × (add_all calls mlf_state ≡ added d [])
    × Conserved d 129 (queued mlf_state + length calls) walked mlf_locals
mlf-agios_add_request_example =
    mlf-agios_add_request calls mlf_state 129 walked mlf_locals
      ((refl, (file_with handle, refl), (refl, (file_with handle, refl), tt))) mlf_state-IsFilled
      (omega arith) (omega arith) (λ i. (refl, tt))
