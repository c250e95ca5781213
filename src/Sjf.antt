-- ===== src/Sjf.antt =====
-- SJF.c: the search for the shortest queue that has requests.
pub mod Shortest
pub mod Choices
use forwarding_explorer_agio.Prelude.{
  ℕ, zero, suc, ◌+◌, ◌-◌, ◌^◌, Bool, true, false, ◌&&◌, ◌||◌, not, Option, none, some, List, [],
  ◌∷◌, ◌==◌, ltb, if◌then◌else◌,
}
use forwarding_explorer_agio.Prelude.Int.{ℤ, pos, negsuc, ltb_ℤ}
use forwarding_explorer_agio.Data.{FileId, Queue, File, rt_read, rt_write}
use forwarding_explorer_agio.Requests.{is_empty}

abbrev pub long_max : ℤ
long_max = pos (2 ^ 63 - 1)

unfoldable pub sjf_check_queue : Queue → ℤ → Bool
sjf_check_queue queue min_size =
    if ltb_ℤ (pos 0) queue.current_size then ltb_ℤ queue.current_size min_size else false

-- `chosen_hash` and `chosen_queue`, with the file and the type of the queue, which stand for the
-- pointer.
pub record Choice : Type 0 where
  pub hash : ℕ
  pub file_id : FileId
  pub type : ℕ
  pub queue : Queue

-- The variables of the search.
pub record Search : Type 0 where
  pub min_size : ℤ
  pub chosen : Option Choice
  pub evaluated_reqfiles : ℕ

unfoldable pub consider : ℕ → FileId → (type : ℕ) → Queue → Search → Search
unfolding sjf_check_queue
consider i file_id type q s =
    if sjf_check_queue q s.min_size
    then record s {
      min_size = q.current_size;
      chosen = some (record { hash = i; file_id = file_id; type = type; queue = q });
    }
    else s

-- Whether one of the queues has requests.
abbrev pub has_requests : File → Bool
has_requests f = not (is_empty f.write_queue.list) || not (is_empty f.read_queue.list)

unfoldable pub evaluate : ℕ → File → Search → Search
unfolding consider
evaluate i f s =
    if has_requests f
    then (consider i f.file_id rt_write f.write_queue (
        consider i f.file_id rt_read f.read_queue
          (record s { evaluated_reqfiles = s.evaluated_reqfiles + 1 })))
    else s

unfoldable pub evaluate_line : ℕ → List File → Search → Search
evaluate_line i [] s = s
evaluate_line i (f ∷ fs) s = evaluate_line i fs (evaluate i f s)

-- The loop over the lines from `i` on, with the shortcut out of it.
unfoldable pub search_lines : (current_filenb : ℕ) → ℕ → List (List File) → Search → Search
search_lines current_filenb i [] s = s
search_lines current_filenb i (l ∷ ls) s =
    let s' = evaluate_line i l s in
    let rest = search_lines current_filenb (i + 1) ls s' in
    if ltb s'.evaluated_reqfiles current_filenb then rest else s'

abbrev pub start : Search
start = record { min_size = long_max; chosen = none; evaluated_reqfiles = 0 }

unfoldable pub sjf_get_shortest_job : (current_filenb : ℕ) → List (List File) → Option Choice
unfolding search_lines
sjf_get_shortest_job current_filenb hashlist = (search_lines current_filenb 0 hashlist start).chosen
