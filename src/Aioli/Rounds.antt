-- ===== src/Aioli/Rounds.antt =====
-- A round of aIOLi.c with a selected queue.
use forwarding_explorer_agio.Prelude.{
  ℕ, ◌+◌, ◌-◌, ◌^◌, ◌<◌, ◌≡◌, refl, sym, ap, ◌∙◌, Bool, true, false, some, [], ◌==◌, arith, set,
  if◌then◌else◌,
}
use forwarding_explorer_agio.Prelude.Int.{pos, ◌-ℤ◌}
use forwarding_explorer_agio.Aioli.{
  Environment, Service, take_requests, set_quantum, next_quantum, Round, served, serve_file,
  serve_queue,
}
use forwarding_explorer_agio.Aioli.Batch.{
  fitting, beyond, append-fitting-beyond, take_requests-fitting,
}
use forwarding_explorer_agio.Cancel.Queues.{AllShaped}
use forwarding_explorer_agio.Data.{Fields, Request, Requests, cons, fields, File, rt_read}
use forwarding_explorer_agio.Fifo.{Selected}
use forwarding_explorer_agio.Files.{find_file, set_file}
use forwarding_explorer_agio.Loops.Draining.{held, identifiers}
use forwarding_explorer_agio.Migration.Lines.{handle-find_file, in_lines-set_file}
use forwarding_explorer_agio.Migration.ToTimeline.{in_file, in_lines}
use forwarding_explorer_agio.Mlf.Lines.{Quiet, call_step2_for_info_list-Quiet}
use forwarding_explorer_agio.Process.{queue_of}
use forwarding_explorer_agio.Process.Delivery.{delivered, sum_len}
use forwarding_explorer_agio.Requests.{total, append}
use forwarding_explorer_agio.State.{Agios, line}

-- State `b` and the calls `cs` after the requests `taken` of the queue of file `f` that `c` selects.
pub record Batch (config_aioli_quantum : ℕ) (c : Selected) (f : File) (a : Agios) (r : Round)
    (taken rest : Requests) : Type 0 where
  pub file : File
  pub done : r.agios.hashlist ≡ set a.hashlist c.index (set_file file (line c.index a))
  pub whole : append taken rest ≡ (queue_of c.type f).list
  pub list : (queue_of c.type file).list ≡ rest
  pub quantum :
      (queue_of c.type file).nextquantum
      ≡ next_quantum config_aioli_quantum (sum_len taken) (queue_of c.type f).nextquantum
  pub carries :
      (w : Fields → ℕ) → in_lines w r.agios.hashlist + total w taken ≡ in_lines w a.hashlist
  pub reqnb : r.agios.counters.current_reqnb ≡ a.counters.current_reqnb -ℤ pos (held taken)
  pub stop : r.stop ≡ false
  pub told : delivered r.calls ≡ identifiers taken

in_file-set_quantum :
    (w : Fields → ℕ) (config type current : ℕ) (s : Service)
    → in_file w (set_quantum config type current s) ≡ in_file w s.file
in_file-set_quantum w config type current s = by (type == rt_read)
  where
    by :
        (b : Bool)
        → in_file w (
            if b
            then record (s.file) {
              read_queue = record (s.file.read_queue) {
                nextquantum = next_quantum config s.used_quantum current;
              };
            }
            else record (s.file) {
              write_queue = record (s.file.write_queue) {
                nextquantum = next_quantum config s.used_quantum current;
              };
            })
          ≡ in_file w s.file
    by true = refl
    by false = refl

list-set_quantum :
    (config type current : ℕ) (s : Service)
    → (queue_of type (set_quantum config type current s)).list ≡ (queue_of type s.file).list
list-set_quantum config type current s = ground arith

nextquantum-set_quantum :
    (config type current : ℕ) (s : Service)
    → (queue_of type (set_quantum config type current s)).nextquantum
      ≡ next_quantum config s.used_quantum current
nextquantum-set_quantum config type current s = ground arith

handle-set_quantum :
    (config type current : ℕ) (s : Service)
    → (set_quantum config type current s).file_id ≡ s.file.file_id
handle-set_quantum config type current s = ground arith

-- A round with a selected queue, which is that of a file of its line and holds well-formed requests of
-- less than 2 GB, and in which no call of step 2 asks to stop: it succeeds, and takes the first request
-- and those of the following that the rest of the queue's quantum covers. These leave the hashtable and
-- the counter, and the user is told each of them once and in order; the queue keeps the others, and its
-- next quantum is set from what these requests used.
pub serve_queue-Batch :
    (e : Environment) (i : ℕ) (c : Selected) (a : Agios) (f : File) (r : Request) (q : Requests)
    → find_file c.file_id (line c.index a) ≡ some f
    → (queue_of c.type f).list ≡ cons r q
    → AllShaped (cons r q)
    → sum_len (cons r q) < 2 ^ 31
    → Quiet (e.stops i)
    → let left = (queue_of c.type f).nextquantum - (fields r).len in
      (round : Round) × (serve_queue e i c a ≡ some round)
      × Batch e.config_aioli_quantum c f a round (cons r (fitting left q)) (beyond left q)
unfolding serve_queue
serve_queue-Batch e i c a f r q found list shaped small quiet =
    let current = (queue_of c.type f).nextquantum in
    let start : Service = record {
      file = f;
      counters = a.counters;
      info_list = [];
      used_quantum = 0;
    } in
    let (s, run, took) =
      take_requests-fitting e.has_list_cb (e.now_sent i) c.index c.type current r q start shaped
        list refl small in
    let g = set_quantum e.config_aioli_quantum c.type current s in
    let name : g.file_id ≡ c.file_id =
      handle-set_quantum e.config_aioli_quantum c.type current s
      ∙ took.handle
      ∙ handle-find_file c.file_id (line c.index a) f found in
    let calls = call_step2_for_info_list-Quiet e.has_list_cb s.info_list (e.stops i) quiet in
    (
      _,
      ap (serve_file e i c a) found
          ∙ ap
              (λ l.
                served e i c a current
                  (take_requests (e.now_sent i) c.index c.type current l start))
              list
          ∙ ap (served e i c a current) run,
      record {
        file = g;
        done = refl;
        whole = ap (cons r) (append-fitting-beyond (current - (fields r).len) q) ∙ sym list;
        list = list-set_quantum e.config_aioli_quantum c.type current s ∙ took.list;
        quantum =
            nextquantum-set_quantum e.config_aioli_quantum c.type current s
            ∙ ap (λ u. next_quantum e.config_aioli_quantum u current) (took.used ∙ omega arith);
        carries = λ w. omega (
          arith,
          in_lines-set_file w g f a.hashlist c.index
              (ap (λ k. find_file k (line c.index a)) name ∙ found),
          in_file-set_quantum w e.config_aioli_quantum c.type current s,
          took.carries w,
        );
        reqnb = took.reqnb;
        stop = ap (λ x. x.1) calls;
        told = ap (λ x. delivered x.0) calls ∙ took.told;
      },
    )
