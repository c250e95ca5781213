-- ===== src/Trace.antt =====
-- trace.c: the trace of the arrivals of requests. A text is a list of bytes without the terminating
-- 0. The buffer is the text that it holds, which is more than its first `buffer_size` bytes only
-- until the first line is written to it. The files, `malloc` and the format `%ld` are parameters.
pub mod Lines
use forwarding_explorer_agio.Prelude.{
  ℕ, zero, suc, ◌+◌, ◌-◌, Bool, Option, none, some, List, [], ◌∷◌, ◌++◌, length, take, leb, ◌==◌,
  if◌then◌else◌,
}
use forwarding_explorer_agio.Prelude.Int.{ℤ, pos, sub_ℕ}
use forwarding_explorer_agio.Common.{get_timespec2long}
use forwarding_explorer_agio.Data.{Request, fields, Timespec, rt_read}

abbrev pub Text : Type 0
Text = List ℕ

abbrev pub aux_buf_size : ℕ
aux_buf_size = 300

-- What the module keeps, once the buffers are allocated, and the trace file.
pub record Trace : Type 0 where
  pub file : Text
  pub buffer : Text
  pub buffer_size : ℕ
  pub aux_buf : Text
  pub t0 : Timespec

-- `snprintf` into `size` bytes, the last for the 0.
abbrev pub snprintf : (size : ℕ) → Text → Text
snprintf size s = take (size - 1) s

abbrev pub tab : ℕ
tab = 9

abbrev pub newline : ℕ
newline = 10

-- The letters R and W.
abbrev pub letter : (type : ℕ) → ℕ
letter type = if type == rt_read then 82 else 87

-- `fprintf` is the part of a text that reaches the file.
unfoldable pub agios_tracefile_flush_buffer : (fprintf : Text → Text) → Trace → Trace
agios_tracefile_flush_buffer fprintf t = record t {
  file = t.file ++ fprintf t.buffer;
  buffer_size = 0;
}

unfoldable pub put_aux_buf : Trace → Trace
put_aux_buf t = record t {
  buffer = take t.buffer_size t.buffer ++ t.aux_buf;
  buffer_size = t.buffer_size + length t.aux_buf;
  aux_buf = [];
}

unfoldable pub agios_trace_write_to_buffer :
    (fprintf : Text → Text) → (max_size : ℕ) → Trace → Trace
unfolding agios_tracefile_flush_buffer put_aux_buf
agios_trace_write_to_buffer fprintf max_size t = put_aux_buf (
    if leb max_size (t.buffer_size + length t.aux_buf)
    then agios_tracefile_flush_buffer fprintf t
    else t)

-- The parts of a line, the request's and the one before it. `ld` prints a number.
abbrev pub request_text : (ld : ℤ → Text) → Request → Text
request_text ld req =
    let f = fields req in
    f.file_id
    ++ (tab ∷ letter f.type ∷ tab ∷ ld (pos f.offset))
    ++ (tab ∷ ld (pos f.len))
    ++ (newline ∷ [])

abbrev pub time_text : (ld : ℤ → Text) → Timespec → Request → Text
time_text ld t0 req = ld (sub_ℕ (fields req).arrival_time (get_timespec2long t0)) ++ (tab ∷ [])

unfoldable pub agios_trace_print_request : (ld : ℤ → Text) → Request → Trace → Trace
agios_trace_print_request ld req t = record t {
  aux_buf = t.aux_buf ++ snprintf (aux_buf_size - length t.aux_buf) (request_text ld req);
}

unfoldable pub agios_trace_add_request :
    (ld : ℤ → Text) → (fprintf : Text → Text) → (max_size : ℕ) → Request → Trace → Trace
unfolding agios_trace_print_request agios_trace_write_to_buffer
agios_trace_add_request ld fprintf max_size req t = agios_trace_write_to_buffer fprintf max_size (
    agios_trace_print_request ld req
      (record t { aux_buf = snprintf aux_buf_size (time_text ld t.t0 req) }))

-- The counter of the first trace file that is not there yet, from the one after `counter` on.
-- `present i` tells whether file i can be opened for reading.
unfoldable pub next_trace : (fuel : ℕ) → (present : ℕ → Bool) → (counter : ℕ) → Option ℕ
next_trace zero present counter = none
next_trace (suc fuel) present counter =
    let later = next_trace fuel present (suc counter) in
    if present (suc counter) then later else some (suc counter)

-- A buffer that is there already, or a new one, whose text is what the memory holds.
abbrev pub or_malloc : (old : Option Text) → (malloc : Option Text) → Option Text
or_malloc (some b) malloc = some b
or_malloc none malloc = malloc

abbrev with_buffers : Timespec → Option Text → Option Text → Option Trace
with_buffers now none a = none
with_buffers now (some b) none = none
with_buffers now (some b) (some a) =
    some (record { file = []; buffer = b; buffer_size = 0; aux_buf = a; t0 = now })

-- `creates i` tells whether file i can be created, `none` stands for the result false. The buffers
-- are the module's, if there are any from an earlier run, and those that `malloc` returns.
unfoldable pub init_trace_module :
    (creates : ℕ → Bool)
    → (malloc_buffer malloc_aux : Option Text) → (now : Timespec) → (counter : ℕ)
    → (buffer aux_buf : Option Text) → Option Trace
init_trace_module creates malloc_buffer malloc_aux now counter buffer aux_buf =
    if creates counter
    then with_buffers now (or_malloc buffer malloc_buffer) (or_malloc aux_buf malloc_aux)
    else none

unfoldable pub close_agios_trace : (fprintf : Text → Text) → Trace → Trace
unfolding agios_tracefile_flush_buffer
close_agios_trace fprintf t = agios_tracefile_flush_buffer fprintf t
