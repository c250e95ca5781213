-- ===== src/Trace/Lines.antt =====
-- trace.c: what reaches the trace file, and the choice of its number.
use forwarding_explorer_agio.Prelude.{
  ℕ, zero, suc, ◌+◌, ◌-◌, ◌≤◌, ◌<◌, ◌≡◌, refl, sym, ap, ◌∙◌, Bool, true, false, some, List, [], ◌∷◌,
  ◌++◌, length, take, length-append, length-take, leb, arith, Bool-cases, inl, inr, ◌==◌, ==_iff,
  ◌≢◌,
}
use forwarding_explorer_agio.Prelude.Int.{ℤ}
use forwarding_explorer_agio.Data.{Request, Timespec}
use forwarding_explorer_agio.Trace.{
  Text, Trace, snprintf, time_text, request_text, agios_tracefile_flush_buffer, put_aux_buf,
  agios_trace_write_to_buffer, agios_trace_print_request, agios_trace_add_request, next_trace,
  close_agios_trace,
}
use mathlib.Core.Path.{subst}
use mathlib.Core.Bool.{true≢false}
use mathlib.Core.List.{append_assoc, append-nil}

-- The line of a request, cut where it is longer than 299 bytes.
unfoldable pub line : (ld : ℤ → Text) → (t0 : Timespec) → Request → Text
line ld t0 req = take 299 (time_text ld t0 req ++ request_text ld req)

unfoldable pub lines : (ld : ℤ → Text) → (t0 : Timespec) → List Request → Text
unfolding line
lines ld t0 [] = []
lines ld t0 (r ∷ rs) = line ld t0 r ++ lines ld t0 rs

unfoldable pub trace_all :
    (ld : ℤ → Text) → (fprintf : Text → Text) → (max_size : ℕ) → List Request → Trace → Trace
unfolding agios_trace_add_request
trace_all ld fprintf max_size [] t = t
trace_all ld fprintf max_size (r ∷ rs) t =
    trace_all ld fprintf max_size rs (agios_trace_add_request ld fprintf max_size r t)

take-append :
    (n : ℕ) (xs ys : Text) → take n xs ++ take (n - length (take n xs)) ys ≡ take n (xs ++ ys)
take-append zero xs ys = refl
take-append (suc n) [] ys = let e : suc n - 0 ≡ suc n = omega arith in ap (λ k. take k ys) e
take-append (suc n) (x ∷ xs) ys =
    let e : suc n - suc (length (take n xs)) ≡ n - length (take n xs) = omega arith in
    ap (λ l. x ∷ l) (ap (λ k. take n xs ++ take k ys) e ∙ take-append n xs ys)

take_all : (xs : Text) → take (length xs) xs ≡ xs
take_all [] = refl
take_all (x ∷ xs) = ap (λ l. x ∷ l) (take_all xs)

-- All that the trace holds, in the file and in the buffer, is `all`, and the buffer has room for a 0.
record Holds (max_size : ℕ) (all : Text) (t0 : Timespec) (t : Trace) : Type 0 where
  text : t.file ++ t.buffer ≡ all
  size : t.buffer_size ≡ length t.buffer
  fits : t.buffer_size < max_size
  start : t.t0 ≡ t0

-- The trace when its `aux_buf` holds the line of a request.
abbrev printed : (ld : ℤ → Text) → Request → Trace → Trace
printed ld r t = record t { aux_buf = line ld t.t0 r }

short : (ld : ℤ → Text) (t0 : Timespec) (r : Request) → length (line ld t0 r) ≤ 299
unfolding line
short ld t0 r = omega (arith, length-take 299 (time_text ld t0 r ++ request_text ld r))

two_parts :
    (a b : Text) → snprintf 300 a ++ snprintf (300 - length (snprintf 300 a)) b ≡ take 299 (a ++ b)
two_parts a b =
    let e : 300 - length (take 299 a) - 1 ≡ 299 - length (take 299 a) = omega arith in
    ap (λ k. take 299 a ++ take k b) e ∙ take-append 299 a b

module _ (ld : ℤ → Text) (fprintf : Text → Text) (max_size : ℕ) where
  agios_trace_add_request-printed :
      (r : Request) (t : Trace)
      → agios_trace_add_request ld fprintf max_size r t
        ≡ agios_trace_write_to_buffer fprintf max_size (printed ld r t)
  unfolding agios_trace_add_request agios_trace_print_request line
  agios_trace_add_request-printed r t =
      ap (λ s. agios_trace_write_to_buffer fprintf max_size (record t { aux_buf = s }))
        (two_parts (time_text ld t.t0 r) (request_text ld r))

  line-room :
      (r : Request) (t : Trace)
      → leb max_size (t.buffer_size + length (line ld t.t0 r)) ≡ false
      → agios_trace_add_request ld fprintf max_size r t ≡ put_aux_buf (printed ld r t)
  unfolding agios_trace_write_to_buffer
  line-room r t h = agios_trace_add_request-printed r t ∙ rw h refl

  line-full :
      (r : Request) (t : Trace)
      → leb max_size (t.buffer_size + length (line ld t.t0 r)) ≡ true
      → agios_trace_add_request ld fprintf max_size r t
        ≡ put_aux_buf (agios_tracefile_flush_buffer fprintf (printed ld r t))
  unfolding agios_trace_write_to_buffer
  line-full r t h = agios_trace_add_request-printed r t ∙ rw h refl

  -- A line that goes behind what is in the buffer, if there is room for it.
  put_aux_buf-Holds :
      (all l : Text) (t0 : Timespec) (t : Trace)
      → t.aux_buf ≡ l
      → t.file ++ take t.buffer_size t.buffer ≡ all
      → length (take t.buffer_size t.buffer) ≡ t.buffer_size
      → t.buffer_size + length l < max_size
      → t.t0 ≡ t0
      → Holds max_size (all ++ l) t0 (put_aux_buf t)
  unfolding put_aux_buf
  put_aux_buf-Holds all l t0 t aux text size room start = record {
    text = sym (append_assoc t.file (take t.buffer_size t.buffer) t.aux_buf) ∙ rw (aux, text) refl;
    size = omega (arith, length-append (take t.buffer_size t.buffer) t.aux_buf, size);
    fits = rw aux room;
    start = start;
  }

  -- The first line goes to the start of the buffer.
  first-Holds :
      (r : Request) (t : Trace)
      → 300 ≤ max_size
      → t.buffer_size ≡ 0
      → Holds max_size
          (t.file ++ line ld t.t0 r)
          t.t0
          (agios_trace_add_request ld fprintf max_size r t)
  first-Holds r t big empty =
      let n = short ld t.t0 r in
      subst (Holds max_size (t.file ++ line ld t.t0 r) t.t0) (sym (line-room r t (ground arith))) (
        put_aux_buf-Holds t.file (line ld t.t0 r) t.t0 (printed ld r t) refl
          (ap (λ k. t.file ++ take k t.buffer) empty ∙ append-nil t.file)
          (ap (λ k. length (take k t.buffer)) empty ∙ sym empty) (omega arith) refl)

  next-Holds :
      (all : Text) (t0 : Timespec) (r : Request) (t : Trace)
      → ((s : Text) → fprintf s ≡ s)
      → 300 ≤ max_size
      → Holds max_size all t0 t
      → Holds max_size (all ++ line ld t0 r) t0 (agios_trace_add_request ld fprintf max_size r t)
  unfolding agios_tracefile_flush_buffer
  next-Holds all t0 r t writes big h =
      let n = short ld t.t0 r in
      let whole : take t.buffer_size t.buffer ≡ t.buffer =
        ap (λ k. take k t.buffer) h.size ∙ take_all t.buffer in
      let result = Holds max_size (all ++ line ld t0 r) t0 in
      let same = ap (λ z. line ld z r) h.start in
      elim (Bool-cases (leb max_size (t.buffer_size + length (line ld t.t0 r)))) [
        | inl full ↦ subst result (sym (line-full r t full)) (
            put_aux_buf-Holds all (line ld t0 r) t0
              (agios_tracefile_flush_buffer fprintf (printed ld r t)) same
              (append-nil (t.file ++ fprintf t.buffer)
                ∙ ap (λ b. t.file ++ b) (writes t.buffer)
                ∙ h.text)
              refl (omega (arith, short ld t0 r)) h.start)
        | inr room ↦ subst result (sym (line-room r t room)) (
            put_aux_buf-Holds all (line ld t0 r) t0 (printed ld r t) same
              (ap (λ b. t.file ++ b) whole ∙ h.text) (ap length whole ∙ sym h.size)
              (rw (sym same) (ground arith)) h.start)
      ]

  all-Holds :
      (rs : List Request) (all : Text) (t0 : Timespec) (t : Trace)
      → ((s : Text) → fprintf s ≡ s)
      → 300 ≤ max_size
      → Holds max_size all t0 t
      → Holds max_size (all ++ lines ld t0 rs) t0 (trace_all ld fprintf max_size rs t)
  unfolding trace_all lines
  all-Holds [] all t0 t writes big h = subst (λ l. Holds max_size l t0 t) (sym (append-nil all)) h
  all-Holds (r ∷ rs) all t0 t writes big h =
      subst (λ l. Holds max_size l t0 (trace_all ld fprintf max_size (r ∷ rs) t))
        (append_assoc all (line ld t0 r) (lines ld t0 rs))
        (all-Holds rs (all ++ line ld t0 r) t0 (agios_trace_add_request ld fprintf max_size r t)
          writes big (next-Holds all t0 r t writes big h))

-- With a buffer of at least 300 bytes, empty at the start, and a disk that takes all that is
-- written: the requests traced, at least one, and the trace closed, the file has got the line of
-- each request, in the order of arrival; and before, no write went past the end of the buffer.
pub close_agios_trace-lines :
    (ld : ℤ → Text) (fprintf : Text → Text) (max_size : ℕ) (r : Request) (rs : List Request)
    (t : Trace)
    → ((s : Text) → fprintf s ≡ s)
    → 300 ≤ max_size
    → t.buffer_size ≡ 0
    → ((close_agios_trace fprintf (trace_all ld fprintf max_size (r ∷ rs) t)).file
        ≡ t.file ++ lines ld t.t0 (r ∷ rs))
      × ((trace_all ld fprintf max_size (r ∷ rs) t).buffer_size < max_size)
      × ((trace_all ld fprintf max_size (r ∷ rs) t).buffer_size
          ≡ length (trace_all ld fprintf max_size (r ∷ rs) t).buffer)
unfolding close_agios_trace agios_tracefile_flush_buffer trace_all lines
close_agios_trace-lines ld fprintf max_size r rs t writes big empty =
    let u = trace_all ld fprintf max_size (r ∷ rs) t in
    let h =
      all-Holds ld fprintf max_size rs (t.file ++ line ld t.t0 r) t.t0
        (agios_trace_add_request ld fprintf max_size r t) writes big
        (first-Holds ld fprintf max_size r t big empty) in
    (
      ap (λ b. u.file ++ b) (writes u.buffer)
          ∙ h.text
          ∙ append_assoc t.file (line ld t.t0 r) (lines ld t.t0 rs),
      h.fits,
      h.size,
    )

-- If some trace file after `counter` is not there yet, a search long enough to reach it finds the
-- first such one: all between are there.
pub next_trace-first :
    (fuel : ℕ) (present : ℕ → Bool) (counter n : ℕ)
    → counter < n
    → n ≤ counter + fuel
    → present n ≡ false
    → (k : ℕ) × (next_trace fuel present counter ≡ some k)
      × (counter < k)
      × (k ≤ n)
      × (present k ≡ false)
      × ((i : ℕ) → counter < i → i < k → present i ≡ true)
unfolding next_trace
next_trace-first zero present counter n h g e = absurd (omega arith)
next_trace-first (suc fuel) present counter n h g e = elim (Bool-cases (present (suc counter))) [
  | inr free ↦
      (suc counter, rw free refl, omega arith, omega arith, free, λ i a b. absurd (omega arith))
  | inl taken ↦
      let later : suc counter ≢ n = λ q. true≢false (sym taken ∙ ap present q ∙ e) in
      let (k, run, after, before, free, all) =
        next_trace-first fuel present (suc counter) n (omega arith) (omega arith) e in
      (
        k,
        rw (taken, run) refl,
        omega arith,
        before,
        free,
        λ i a b. elim (Bool-cases (i == suc counter)) [
          | inl q ↦ ap present ((==_iff i (suc counter)).0 q) ∙ taken
          | inr q ↦ all i (ground arith) b
        ],
      )
]
