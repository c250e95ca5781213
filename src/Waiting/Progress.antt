-- ===== src/Waiting/Progress.antt =====
-- Waiting in waiting_common.c ends, and what happens when a list of processed requests is handed to
-- the user.
use forwarding_explorer_agio.Prelude.{
  ℕ, ◌+◌, ◌-◌, ◌<◌, ◌≡◌, refl, ap, Bool, true, false, List, [], ◌∷◌, ◌++◌, ◌==◌, ltb, if◌then◌else◌,
  Bool-cases, inl, inr, ◌⊎◌, arith,
}
use forwarding_explorer_agio.Data.{Request, fields, Queue, File}
use forwarding_explorer_agio.Process.{
  ProcessingInfo, Callback, process_requests_step2, queue_of, on_queue,
}
use forwarding_explorer_agio.Waiting.{
  update_waiting_time_counters, step2_for_all, call_step2_for_info_list,
}

-- How many reasons to wait a queue still holds: the two tests of `check_selection` have one each.
abbrev pub reasons : Queue → ℕ
reasons q = (if q.predictedoff == 0 then 0 else 1) + (if q.lastaggregation == 0 then 0 else 1)

queue-on_queue : (type : ℕ) (q : Queue) (f : File) → queue_of type (on_queue type (λ _. q) f) ≡ q
queue-on_queue type q f = ground arith

-- What a refusal leaves: the file waits from now for the configured time, and there is a reason less.
pub record Refused (config_waiting_time now : ℕ) (req : Request) (f g : File) : Type 0 where
  pub fewer : reasons (queue_of (fields req).type g) < reasons (queue_of (fields req).type f)
  pub waits : g.waiting_time ≡ config_waiting_time
  pub since : g.waiting_start ≡ now

-- A file that waits is done when its time is over, and until then the time left is what remains.
pub update_waiting_time_counters-left :
    (now shortest : ℕ) (f : File)
    → let g = (update_waiting_time_counters now f shortest).0 in
      (g.waiting_time ≡ f.waiting_time - (now - f.waiting_start))
      × ((now < f.waiting_start + f.waiting_time) ⊎ (g.waiting_time ≡ 0))
unfolding update_waiting_time_counters
update_waiting_time_counters-left now shortest f = (ground arith, ended)
  where
    ended :
        (now < f.waiting_start + f.waiting_time)
        ⊎ ((update_waiting_time_counters now f shortest).0.waiting_time ≡ 0)
    ended = elim (Bool-cases (ltb now (f.waiting_start + f.waiting_time))) [
      | inl early ↦ inl (ground arith)
      | inr over ↦ inr (ground arith)
    ]

step2_for_all-stopped :
    (b : Bool) (infos : List ProcessingInfo) (stops : List Bool)
    → (step2_for_all b true infos stops) ≡ ([], true)
unfolding step2_for_all
step2_for_all-stopped b [] stops = refl
step2_for_all-stopped b (i ∷ is) [] = step2_for_all-stopped b is []
step2_for_all-stopped b (i ∷ is) (c ∷ stops) = step2_for_all-stopped b is (c ∷ stops)

-- The calls for a list of processed requests, and the answers of calls that do not stop.
abbrev pub all_calls : Bool → List ProcessingInfo → List Callback
all_calls b [] = []
all_calls b (i ∷ is) = process_requests_step2 b i ++ all_calls b is

abbrev pub goes_on : List ProcessingInfo → List Bool → List Bool
goes_on [] stops = stops
goes_on (i ∷ is) stops = false ∷ goes_on is stops

all_sent :
    (b : Bool) (is : List ProcessingInfo)
    → step2_for_all b false is (goes_on is []) ≡ (all_calls b is, false)
unfolding step2_for_all
all_sent b [] = refl
all_sent b (i ∷ is) = ap (λ r. (process_requests_step2 b i ++ r.0, r.1)) (all_sent b is)

cut_off :
    (b : Bool) (is : List ProcessingInfo) (last : ProcessingInfo) (rest : List ProcessingInfo)
    (stops : List Bool)
    → step2_for_all b false (is ++ last ∷ rest) (goes_on is (true ∷ stops))
      ≡ (all_calls b (is ++ last ∷ []), true)
unfolding step2_for_all
cut_off b [] last rest stops =
    ap (λ r. (process_requests_step2 b last ++ r.0, r.1)) (step2_for_all-stopped b rest stops)
cut_off b (i ∷ is) last rest stops =
    ap (λ r. (process_requests_step2 b i ++ r.0, r.1)) (cut_off b is last rest stops)

-- Each request of the list is given to the user as long as no call of step 2 says that it is time to
-- stop; once one does, the rest of the list, which is already in the dispatch queue, is never given.
pub call_step2_for_info_list-cut :
    (b : Bool) (sent : List ProcessingInfo) (last : ProcessingInfo) (rest : List ProcessingInfo)
    (stops : List Bool)
    → (call_step2_for_info_list b sent (goes_on sent []) ≡ (all_calls b sent, false))
      × (call_step2_for_info_list b (sent ++ last ∷ rest) (goes_on sent (true ∷ stops))
          ≡ (all_calls b (sent ++ last ∷ []), true))
unfolding call_step2_for_info_list
call_step2_for_info_list-cut b sent last rest stops =
    (all_sent b sent, cut_off b sent last rest stops)
