-- ===== src/Waiting/Lists.antt =====
-- The queues of files under the operations of waiting_common.c and process_request.c, which leave the
-- requests in them alone; and the calls for a list of processed requests.
use forwarding_explorer_agio.Prelude.{
  ℕ, ◌≡◌, refl, sym, ap, ◌∙◌, Bool, true, false, List, [], ◌∷◌, ◌++◌, arith, Bool-cases, inl, inr,
  if◌then◌else◌, ◌==◌,
}
use forwarding_explorer_agio.Data.{
  Fields, Request, Requests, nil, cons, fields, Queue, File, rt_read,
}
use forwarding_explorer_agio.Loops.Draining.{delivered-++}
use forwarding_explorer_agio.Migration.ToTimeline.{in_file}
use forwarding_explorer_agio.Process.{
  ProcessingInfo, queue_of, on_queue, put_this_request_in_dispatch, dispatch_all,
  process_requests_step2, generic_post_process,
}
use forwarding_explorer_agio.Process.Delivery.{delivered, append-nil_ids}
use forwarding_explorer_agio.Requests.{total}
use forwarding_explorer_agio.Statistics.{stats_aggregation}
use forwarding_explorer_agio.Waiting.{check_selection, detect, waiting_algorithms_postprocess}
use forwarding_explorer_agio.Waiting.Progress.{all_calls}
use mathlib.Core.List.{append_assoc}

-- The queues of two files hold the same requests.
pub record SameLists (f g : File) : Type 0 where
  pub reads : f.read_queue.list ≡ g.read_queue.list
  pub writes : f.write_queue.list ≡ g.write_queue.list

pub SameLists-trans : (f g h : File) → SameLists f g → SameLists g h → SameLists f h
SameLists-trans f g h s t = record { reads = s.reads ∙ t.reads; writes = s.writes ∙ t.writes }

put-SameLists :
    (r : Request) (t type : ℕ) (f : File) → SameLists (put_this_request_in_dispatch r t type f) f
unfolding put_this_request_in_dispatch
put-SameLists r t type f = record { reads = ground arith; writes = ground arith }

pub dispatch_all-SameLists :
    (rs : Requests) (t type : ℕ) (f : File) → SameLists (dispatch_all rs t type f) f
unfolding dispatch_all
dispatch_all-SameLists nil t type f = record { reads = refl; writes = refl }
dispatch_all-SameLists (cons r rs) t type f =
    SameLists-trans _ _ _
      (dispatch_all-SameLists rs t type (put_this_request_in_dispatch r t type f))
      (put-SameLists r t type f)

list-waiting_algorithms_postprocess :
    (r : Request) (q : Queue) → (waiting_algorithms_postprocess r q).list ≡ q.list
unfolding waiting_algorithms_postprocess generic_post_process stats_aggregation
list-waiting_algorithms_postprocess r q = ground arith

pub postprocess-SameLists :
    (r : Request) (type : ℕ) (f : File)
    → SameLists (on_queue type (waiting_algorithms_postprocess r) f) f
postprocess-SameLists r type f = by (type == rt_read)
  where
    by :
        (b : Bool)
        → SameLists
            (if b
              then record f { read_queue = waiting_algorithms_postprocess r f.read_queue }
              else record f { write_queue = waiting_algorithms_postprocess r f.write_queue })
            f
    by true = record { reads = list-waiting_algorithms_postprocess r f.read_queue; writes = refl }
    by false = record { reads = refl; writes = list-waiting_algorithms_postprocess r f.write_queue }

pub in_file-SameLists : (w : Fields → ℕ) (f g : File) → SameLists f g → in_file w f ≡ in_file w g
in_file-SameLists w f g s = omega (arith, ap (total w) s.reads, ap (total w) s.writes)

pub lists-on_queue :
    (type : ℕ) (q : Queue) (f : File)
    → (queue_of type f).list ≡ q.list
    → SameLists (on_queue type (λ _. q) f) f
lists-on_queue type q f e = by (type == rt_read) e
  where
    by :
        (b : Bool)
        → (if b then f.read_queue else f.write_queue).list ≡ q.list
        → SameLists (if b then record f { read_queue = q } else record f { write_queue = q }) f
    by true e = record { reads = sym e; writes = refl }
    by false e = record { reads = refl; writes = sym e }

list-detect : (r : Request) (q : Queue) → q.list ≡ (detect r q).0.list
unfolding detect
list-detect r q = ground arith

pub check_selection-SameLists :
    (wait now : ℕ) (r : Request) (f : File) → SameLists (check_selection wait now r f).1 f
unfolding check_selection
check_selection-SameLists wait now r f =
    let q = queue_of (fields r).type f in
    let s = lists-on_queue (fields r).type (detect r q).0 f (list-detect r q) in
    let time = if (detect r q).1 then wait else f.waiting_time in
    elim (Bool-cases (time == 0)) [
      | inl none_left ↦ rw none_left (record { reads = s.reads; writes = s.writes })
      | inr left ↦ rw left (record { reads = s.reads; writes = s.writes })
    ]

pub all_calls-snoc :
    (b : Bool) (is : List ProcessingInfo) (i : ProcessingInfo)
    → delivered (all_calls b (is ++ i ∷ []))
      ≡ delivered (all_calls b is) ++ delivered (process_requests_step2 b i)
all_calls-snoc b [] i = delivered-++ (process_requests_step2 b i) [] ∙ append-nil_ids _
all_calls-snoc b (x ∷ is) i =
    delivered-++ (process_requests_step2 b x) (all_calls b (is ++ i ∷ []))
    ∙ ap (λ y. delivered (process_requests_step2 b x) ++ y) (all_calls-snoc b is i)
    ∙ sym (append_assoc (delivered (process_requests_step2 b x)) (delivered (all_calls b is)) _)
    ∙ ap (λ y. y ++ delivered (process_requests_step2 b i))
        (sym (delivered-++ (process_requests_step2 b x) (all_calls b is)))
