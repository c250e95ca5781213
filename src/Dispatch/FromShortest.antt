-- ===== src/Dispatch/FromShortest.antt =====
-- A round of SJF.c takes the first request of a shortest queue, and only that.
use forwarding_explorer_agio.Prelude.{
  ℕ, ◌+◌, ◌≤◌, ◌≡◌, refl, sym, ap, ◌∙◌, Bool, true, false, some, List, [], ◌==◌, get_or, arith,
  if◌then◌else◌,
}
use forwarding_explorer_agio.Prelude.Int.{pos, pos_part, ltb_ℤ, ◌-ℤ◌}
use forwarding_explorer_agio.Aggregation.Shape.{IsShaped}
use forwarding_explorer_agio.Data.{
  Fields, Request, Requests, nil, cons, fields, Queue, File, rt_read,
}
use forwarding_explorer_agio.Dispatch.{set_list, send_first, send_from, send_chosen, sjf_round}
use forwarding_explorer_agio.Entry.{give_back, sent}
use forwarding_explorer_agio.Files.{find_file}
use forwarding_explorer_agio.Hash.{get_hashtable_position}
use forwarding_explorer_agio.Migration.ToTimeline.{in_file, in_lines}
use forwarding_explorer_agio.Migration.Lines.{handle-find_file, in_lines-set_file}
use forwarding_explorer_agio.Process.{
  Callback, Counters, Step1, user_ids, parts, queue_of, on_queue, put_this_request_in_dispatch,
  dispatch_all, process_requests_step1, process_requests_step2, generic_post_process,
}
use forwarding_explorer_agio.Process.Delivery.{delivered, process-delivers}
use forwarding_explorer_agio.Requests.{total, weight, total-cons}
use forwarding_explorer_agio.Sjf.{Choice, sjf_get_shortest_job}
use forwarding_explorer_agio.Sjf.Choices.{sjf_get_shortest_job-Stands}
use forwarding_explorer_agio.Files.Lookup.{IsLine}
use forwarding_explorer_agio.Sjf.Shortest.{
  AtMostAll, active, IsShortest, sjf_get_shortest_job-IsShortest,
}
use forwarding_explorer_agio.State.{Agios, line, put_file}
use forwarding_explorer_agio.Statistics.{stats_aggregation}
use forwarding_explorer_agio.Timeline.{timeline_oldest_req}
use mathlib.Core.Path.{subst}
use mathlib.Core.Option.{some-injective}

-- Where the chosen queue is, and its first request.
pub record IsAt (a : Agios) (c : Choice) (f : File) (r : Request) (q : Requests) : Type 0 where
  pub found : find_file c.file_id (line c.hash a) ≡ some f
  pub hash : get_hashtable_position c.file_id ≡ c.hash
  pub first : (queue_of c.type f).list ≡ cons r q
  pub shape : IsShaped r

-- What a round leaves, after request `r` has gone to the user.
pub record Took (a : Agios) (r : Request) (b : Agios) (cs : List Callback) : Type 0 where
  pub told : delivered cs ≡ user_ids (parts r)
  pub reqnb : b.counters.current_reqnb ≡ a.counters.current_reqnb -ℤ pos (fields r).reqnb
  pub carries : (w : Fields → ℕ) → in_lines w b.hashlist + weight w r ≡ in_lines w a.hashlist

in_file-put :
    (w : Fields → ℕ) (r : Request) (t type : ℕ) (f : File)
    → in_file w (put_this_request_in_dispatch r t type f) ≡ in_file w f
unfolding put_this_request_in_dispatch
in_file-put w r t type f = ground arith

in_file-dispatch_all :
    (w : Fields → ℕ) (rs : Requests) (t type : ℕ) (f : File)
    → in_file w (dispatch_all rs t type f) ≡ in_file w f
unfolding dispatch_all
in_file-dispatch_all w nil t type f = refl
in_file-dispatch_all w (cons r rs) t type f =
    in_file-dispatch_all w rs t type (put_this_request_in_dispatch r t type f)
    ∙ in_file-put w r t type f

pub list-generic_post_process : (r : Request) (q : Queue) → (generic_post_process r q).list ≡ q.list
unfolding generic_post_process stats_aggregation
list-generic_post_process r q = ground arith

in_file-generic_post_process :
    (w : Fields → ℕ) (r : Request) (type : ℕ) (f : File)
    → in_file w (on_queue type (generic_post_process r) f) ≡ in_file w f
in_file-generic_post_process w r type f =
    ground
      (arith, list-generic_post_process r f.read_queue, list-generic_post_process r f.write_queue)

pub in_file-set_list :
    (w : Fields → ℕ) (r : Request) (q : Requests) (type : ℕ) (f : File)
    → (queue_of type f).list ≡ cons r q
    → in_file w (set_list type q f) + weight w r ≡ in_file w f
in_file-set_list w r q type f e = by (type == rt_read) e
  where
    by :
        (b : Bool)
        → (if b then f.read_queue else f.write_queue).list ≡ cons r q
        → in_file w (
              if b
              then record f { read_queue = record (f.read_queue) { list = q } }
              else record f { write_queue = record (f.write_queue) { list = q } })
            + weight w r
          ≡ in_file w f
    by true e = omega (arith, ap (total w) e, total-cons w r q)
    by false e = omega (arith, ap (total w) e, total-cons w r q)

pub file-step1 :
    (r : Request) (hash now : ℕ) (g : File) (c : Counters) (s : Step1)
    → process_requests_step1 true r hash now g c ≡ some s
    → s.file ≡ dispatch_all (parts r) now (fields r).type g
unfolding process_requests_step1
file-step1 r hash now g c s e = ap (λ (t : Step1). t.file) (sym (some-injective _ _ e))

pub handle-set_list : (type : ℕ) (q : Requests) (f : File) → (set_list type q f).file_id ≡ f.file_id
handle-set_list type q f = ground arith

handle-generic_post_process :
    (r : Request) (type : ℕ) (f : File)
    → (on_queue type (generic_post_process r) f).file_id ≡ f.file_id
handle-generic_post_process r type f = ground arith

-- Step 1 and the clean-up on a file of the hashtable whose queue no longer holds the request.
give_back-Took :
    (has_list_cb : Bool) (now : ℕ) (a : Agios) (c : Choice) (f : File) (r : Request) (q : Requests)
    → IsAt a c f r q
    → (b : Agios) × (cs : List Callback) × (give_back has_list_cb r c.hash now
          (set_list c.type q f)
          a
        ≡ some (b, cs))
      × Took a r b cs
unfolding give_back put_file
give_back-Took has_list_cb now a c f r q at =
    let g = set_list c.type q f in
    let (s, run, told, dispatched, _, reqnb, _, _) =
      process-delivers has_list_cb r c.hash now g a.counters at.shape in
    let done = on_queue (fields r).type (generic_post_process r) s.file in
    let name : done.file_id ≡ c.file_id =
      handle-generic_post_process r (fields r).type s.file
      ∙ dispatched.handle
      ∙ handle-set_list c.type q f
      ∙ handle-find_file c.file_id (line c.hash a) f at.found in
    let hash : get_hashtable_position done.file_id ≡ c.hash =
      ap get_hashtable_position name ∙ at.hash in
    let there : find_file done.file_id (get_or a.hashlist (get_hashtable_position done.file_id) [])
        ≡ some f =
      ap (λ k. find_file k (get_or a.hashlist (get_hashtable_position done.file_id) [])) name
      ∙ ap (λ h. find_file c.file_id (get_or a.hashlist h [])) hash
      ∙ at.found in
    (
      record (put_file done a) { counters = s.counters },
      process_requests_step2 has_list_cb s.info,
      ap (sent has_list_cb r a) run,
      record {
        told = told;
        reqnb = reqnb;
        carries = λ w. omega (
          arith,
          in_lines-set_file w done f a.hashlist (get_hashtable_position done.file_id) there,
          in_file-generic_post_process w r (fields r).type s.file,
          ap (in_file w) (file-step1 r c.hash now g a.counters s run),
          in_file-dispatch_all w (parts r) now (fields r).type g,
          in_file-set_list w r q c.type f at.first,
        );
      },
    )

-- Where the lines are sorted by handle, the counter of files covers the files with requests, and the
-- search of SJF chooses a queue, which starts with a well-formed request, a round succeeds: the queue
-- that it serves has a size, and no queue of a file with requests that has one is shorter; the round
-- takes the first request of that queue and tells the user each of its requests once and in order; the
-- hashtable then holds everything but this request, which the counter no longer counts.
pub sjf_round-Took :
    (has_list_cb : Bool) (now : ℕ) (a : Agios) (c : Choice) (f : File) (r : Request) (q : Requests)
    → ((h : ℕ) → IsLine (line h a))
    → active a.hashlist ≤ pos_part a.counters.current_filenb
    → sjf_get_shortest_job (pos_part a.counters.current_filenb) a.hashlist ≡ some c
    → IsAt a c f r q
    → (ltb_ℤ (pos 0) (queue_of c.type f).current_size ≡ true)
      × AtMostAll (queue_of c.type f).current_size a.hashlist
      × ((b : Agios) × (cs : List Callback) × (sjf_round has_list_cb now a ≡ some (b, cs))
          × Took a r b cs)
unfolding sjf_round timeline_oldest_req
sjf_round-Took has_list_cb now a c f r q lines counted chosen at =
    let (b, cs, run, took) = give_back-Took has_list_cb now a c f r q at in
    let best =
      subst (IsShortest a.hashlist) chosen
        (sjf_get_shortest_job-IsShortest (pos_part a.counters.current_filenb) a.hashlist counted) in
    let at_home =
      sjf_get_shortest_job-Stands (pos_part a.counters.current_filenb) a.hashlist c lines chosen in
    let served : c.queue ≡ queue_of c.type f =
      at_home.queue ∙ ap (queue_of c.type) (some-injective _ _ (sym at_home.found ∙ at.found)) in
    (
      subst (λ x. ltb_ℤ (pos 0) x.current_size ≡ true) served best.0,
      subst (λ x. AtMostAll x.current_size a.hashlist) served best.1,
      (
        b,
        cs,
        ap (send_chosen has_list_cb now a) chosen
            ∙ ap (send_from has_list_cb now c a) at.found
            ∙ ap (λ l. send_first has_list_cb c.hash now c.type a f (timeline_oldest_req l))
                at.first
            ∙ run,
        took,
      ),
    )
