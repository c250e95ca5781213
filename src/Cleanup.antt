-- ===== src/Cleanup.antt =====
-- What the library frees at its end: request_cleanup and list_of_requests_cleanup of agios_request.c,
-- queue_cleanup and hashtable_cleanup of req_hashtable.c and timeline_cleanup of req_timeline.c. The
-- result of each is the structs of requests, in the order in which they are freed; the links of a
-- list are in Links.
pub mod Structs
use forwarding_explorer_agio.Prelude.{
  ℕ, suc, ◌+◌, ◌≡◌, refl, ap, ◌∙◌, Bool, true, false, List, [], ◌∷◌, ◌++◌, arith, ltb,
  if◌then◌else◌,
}
use forwarding_explorer_agio.Aggregation.Shape.{IsShaped, IsSingle, Members, IsSingle-IsShaped}
use forwarding_explorer_agio.Cancel.Queues.{AllShaped}
use forwarding_explorer_agio.Data.{Fields, Request, request, Requests, nil, cons, Queue, File}
use forwarding_explorer_agio.Requests.{count}
use forwarding_explorer_agio.State.{Agios}

unfoldable mutual
  pub request_cleanup : Request → List Fields
  request_cleanup (request f a) =
      let sub_requests = list_of_requests_cleanup a in
      if ltb 1 f.reqnb then sub_requests ++ f ∷ [] else f ∷ []

  pub list_of_requests_cleanup : Requests → List Fields
  list_of_requests_cleanup nil = []
  list_of_requests_cleanup (cons r q) = request_cleanup r ++ list_of_requests_cleanup q

unfoldable pub queue_cleanup : Queue → List Fields
unfolding list_of_requests_cleanup
queue_cleanup q = list_of_requests_cleanup q.list ++ list_of_requests_cleanup q.dispatch

unfoldable pub line_cleanup : List File → List Fields
unfolding queue_cleanup
line_cleanup [] = []
line_cleanup (f ∷ fs) =
    (queue_cleanup f.read_queue ++ queue_cleanup f.write_queue) ++ line_cleanup fs

unfoldable pub lines_cleanup : List (List File) → List Fields
unfolding line_cleanup
lines_cleanup [] = []
lines_cleanup (l ∷ ls) = line_cleanup l ++ lines_cleanup ls

unfoldable pub queues_cleanup : List Requests → List Fields
unfolding list_of_requests_cleanup
queues_cleanup [] = []
queues_cleanup (q ∷ qs) = list_of_requests_cleanup q ++ queues_cleanup qs

-- `cleanup_data_structures`: the hashtable, then the timelines.
unfoldable pub cleanup_all : Agios → List Fields
unfolding lines_cleanup queues_cleanup list_of_requests_cleanup
cleanup_all a =
    lines_cleanup a.hashlist
    ++ (list_of_requests_cleanup a.timeline ++ queues_cleanup a.multi_timeline)
