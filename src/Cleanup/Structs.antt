-- ===== src/Cleanup/Structs.antt =====
-- The end of the library frees every struct of a request exactly once.
use forwarding_explorer_agio.Prelude.{ℕ, ◌+◌, ◌≡◌, refl, true, List, [], ◌∷◌, ◌++◌, arith, ltb}
use forwarding_explorer_agio.Aggregation.Shape.{IsShaped, IsSingle, Members}
use forwarding_explorer_agio.Cancel.Queues.{AllShaped}
use forwarding_explorer_agio.Data.{Fields, Request, request, Requests, nil, cons, Queue, File}
use forwarding_explorer_agio.State.{Agios}
use forwarding_explorer_agio.Cleanup.{
  request_cleanup, list_of_requests_cleanup, queue_cleanup, line_cleanup, lines_cleanup,
  queues_cleanup, cleanup_all,
}

-- The sum of `w` over structs, and over all structs of a request: its own and those in it.
abbrev pub sum_of : (Fields → ℕ) → List Fields → ℕ
sum_of w [] = 0
sum_of w (f ∷ fs) = w f + sum_of w fs

unfoldable mutual
  pub structs : (Fields → ℕ) → Request → ℕ
  structs w (request f a) = w f + all_structs w a

  pub all_structs : (Fields → ℕ) → Requests → ℕ
  all_structs w nil = 0
  all_structs w (cons r q) = structs w r + all_structs w q

sum_of-++ : (w : Fields → ℕ) (a b : List Fields) → sum_of w (a ++ b) ≡ sum_of w a + sum_of w b
sum_of-++ w [] b = omega arith
sum_of-++ w (f ∷ a) b = omega (arith, sum_of-++ w a b)

sum_of-single :
    (w : Fields → ℕ) (r : Request) → IsSingle r → sum_of w (request_cleanup r) ≡ structs w r
unfolding request_cleanup structs
sum_of-single w (request f nil) h = ground arith
sum_of-single w (request f (cons r a)) h = absurd h

sum_of-Members :
    (w : Fields → ℕ) (start : ℕ) (a : Requests)
    → Members start a
    → sum_of w (list_of_requests_cleanup a) ≡ all_structs w a
unfolding list_of_requests_cleanup all_structs
sum_of-Members w start nil h = refl
sum_of-Members w start (cons r a) h = omega (
  arith,
  sum_of-++ w (request_cleanup r) (list_of_requests_cleanup a),
  sum_of-single w r h.0,
  sum_of-Members w start a h.2,
)

sum_of-request :
    (w : Fields → ℕ) (r : Request) → IsShaped r → sum_of w (request_cleanup r) ≡ structs w r
unfolding request_cleanup structs
sum_of-request w (request f nil) h = ground arith
sum_of-request w (request f (cons r a)) h =
    let subs = sum_of-Members w f.offset (cons r a) h.2 in
    let both = sum_of-++ w (list_of_requests_cleanup (cons r a)) (f ∷ []) in
    let many : ltb 1 f.reqnb ≡ true = ground arith in rw many (omega arith)

-- A list of well-formed requests is freed as a whole: each struct, those in aggregations included, is
-- freed exactly once.
pub sum_of-list :
    (w : Fields → ℕ) (q : Requests)
    → AllShaped q
    → sum_of w (list_of_requests_cleanup q) ≡ all_structs w q
unfolding list_of_requests_cleanup all_structs
sum_of-list w nil h = refl
sum_of-list w (cons r q) h = omega (
  arith,
  sum_of-++ w (request_cleanup r) (list_of_requests_cleanup q),
  sum_of-request w r h.0,
  sum_of-list w q h.1,
)

-- The structs of a queue, of a line of files, of all lines, and of the queues of TWINS.
abbrev pub in_queue : (Fields → ℕ) → Queue → ℕ
in_queue w q = all_structs w q.list + all_structs w q.dispatch

abbrev pub line_structs : (Fields → ℕ) → List File → ℕ
line_structs w [] = 0
line_structs w (f ∷ fs) = in_queue w f.read_queue + in_queue w f.write_queue + line_structs w fs

abbrev pub lines_structs : (Fields → ℕ) → List (List File) → ℕ
lines_structs w [] = 0
lines_structs w (l ∷ ls) = line_structs w l + lines_structs w ls

abbrev pub queues_structs : (Fields → ℕ) → List Requests → ℕ
queues_structs w [] = 0
queues_structs w (q ∷ qs) = all_structs w q + queues_structs w qs

-- All requests are well formed, those with the user included.
abbrev pub QueueShaped : Queue → Type 0
QueueShaped q = AllShaped q.list × AllShaped q.dispatch

abbrev pub FilesShaped : List File → Type 0
FilesShaped [] = Unit {0}
FilesShaped (f ∷ fs) = QueueShaped f.read_queue × QueueShaped f.write_queue × FilesShaped fs

abbrev pub TableShaped : List (List File) → Type 0
TableShaped [] = Unit {0}
TableShaped (l ∷ ls) = FilesShaped l × TableShaped ls

abbrev pub QueuesShaped : List Requests → Type 0
QueuesShaped [] = Unit {0}
QueuesShaped (q ∷ qs) = AllShaped q × QueuesShaped qs

sum_of-queue :
    (w : Fields → ℕ) (q : Queue) → QueueShaped q → sum_of w (queue_cleanup q) ≡ in_queue w q
unfolding queue_cleanup
sum_of-queue w q h = omega (
  arith,
  sum_of-++ w (list_of_requests_cleanup q.list) (list_of_requests_cleanup q.dispatch),
  sum_of-list w q.list h.0,
  sum_of-list w q.dispatch h.1,
)

sum_of-line :
    (w : Fields → ℕ) (fs : List File)
    → FilesShaped fs
    → sum_of w (line_cleanup fs) ≡ line_structs w fs
unfolding line_cleanup
sum_of-line w [] h = refl
sum_of-line w (f ∷ fs) h = omega (
  arith,
  sum_of-++ w (queue_cleanup f.read_queue ++ queue_cleanup f.write_queue) (line_cleanup fs),
  sum_of-++ w (queue_cleanup f.read_queue) (queue_cleanup f.write_queue),
  sum_of-queue w f.read_queue h.0,
  sum_of-queue w f.write_queue h.1,
  sum_of-line w fs h.2,
)

sum_of-lines :
    (w : Fields → ℕ) (ls : List (List File))
    → TableShaped ls
    → sum_of w (lines_cleanup ls) ≡ lines_structs w ls
unfolding lines_cleanup
sum_of-lines w [] h = refl
sum_of-lines w (l ∷ ls) h = omega (
  arith,
  sum_of-++ w (line_cleanup l) (lines_cleanup ls),
  sum_of-line w l h.0,
  sum_of-lines w ls h.1,
)

sum_of-queues :
    (w : Fields → ℕ) (qs : List Requests)
    → QueuesShaped qs
    → sum_of w (queues_cleanup qs) ≡ queues_structs w qs
unfolding queues_cleanup
sum_of-queues w [] h = refl
sum_of-queues w (q ∷ qs) h = omega (
  arith,
  sum_of-++ w (list_of_requests_cleanup q) (queues_cleanup qs),
  sum_of-list w q h.0,
  sum_of-queues w qs h.1,
)

-- The end of the library leaks no request: where all requests in the queues, with the user and in the
-- timelines are well formed, `cleanup_data_structures` frees each of their structs exactly once, those
-- of virtual requests and of the requests in them included, whatever is summed up over the structs.
pub cleanup_all-structs :
    (w : Fields → ℕ) (a : Agios)
    → TableShaped a.hashlist
    → AllShaped a.timeline
    → QueuesShaped a.multi_timeline
    → sum_of w (cleanup_all a)
      ≡ lines_structs w a.hashlist + all_structs w a.timeline + queues_structs w a.multi_timeline
unfolding cleanup_all
cleanup_all-structs w a h t qs = omega (
  arith,
  sum_of-++ w (lines_cleanup a.hashlist)
      (list_of_requests_cleanup a.timeline ++ queues_cleanup a.multi_timeline),
  sum_of-++ w (list_of_requests_cleanup a.timeline) (queues_cleanup a.multi_timeline),
  sum_of-lines w a.hashlist h,
  sum_of-list w a.timeline t,
  sum_of-queues w a.multi_timeline qs,
)
