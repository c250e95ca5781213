-- ===== src/Release.antt =====
-- agios_release_request.c: the user has processed a request, which leaves its dispatch queue.
pub mod Found
use forwarding_explorer_agio.Prelude.{
  ℕ, ◌+◌, ◌/◌, suc, Bool, true, false, ◌&&◌, Option, none, some, List, ◌==◌, if◌then◌else◌,
}
use forwarding_explorer_agio.Prelude.Int.{ℤ, pos, negsuc, sub_ℕ}
use forwarding_explorer_agio.Data.{
  FileId, Request, Requests, nil, cons, fields, File, Queue, rt_write,
}
use forwarding_explorer_agio.Common.{negate, update_iterative_average}
use forwarding_explorer_agio.Files.{find_file, set_file}
use forwarding_explorer_agio.Performance.{Performance, account_request}

-- The first request of a list with this size and offset, and the list without it.
pub record Taken : Type 0 where
  pub req : Request
  pub rest : Requests

abbrev pub keep : Request → Option Taken → Option Taken
keep r none = none
keep r (some t) = some (record t { rest = cons r t.rest })

abbrev pub is_match : ℕ → ℕ → Request → Bool
is_match len offset r = (fields r).len == len && (fields r).offset == offset

unfoldable pub take_match : ℕ → ℕ → Requests → Option Taken
take_match len offset nil = none
take_match len offset (cons r rs) =
    if is_match len offset r
    then some (record { req = r; rest = rs })
    else keep r (take_match len offset rs)

-- C's quotient of a size by a time; `none` is the division by 0.
abbrev pub quotient : ℕ → ℤ → Option ℤ
quotient len (pos n) = if n == 0 then none else some (pos (len / n))
quotient len (negsuc n) = some (negate (len / suc n))

-- The queue of the type as this function and `agios_cancel_request` choose it.
abbrev pub related_queue : ℕ → File → Queue
related_queue type f = if type == rt_write then f.write_queue else f.read_queue

abbrev pub set_related : ℕ → Queue → File → File
set_related type q f =
    if type == rt_write then record f { write_queue = q } else record f { read_queue = q }

-- `generic_cleanup`; the request has left the list of its queue.
unfoldable pub generic_cleanup : Request → Queue → Queue
generic_cleanup req q =
    let s = q.stats in
    record q {
      stats = record s {
        processedreq_nb = s.processedreq_nb + 1;
        processed_req_size = s.processed_req_size + (fields req).len;
      };
    }

-- The statistics of the queue on the bandwidth of its released requests.
unfoldable pub count_release : ℤ → Queue → Queue
count_release this_bandwidth q =
    let s = q.stats in
    record q {
      stats = record s {
        releasedreq_nb = s.releasedreq_nb + 1;
        processed_bandwidth =
            update_iterative_average s.processed_bandwidth this_bandwidth (s.releasedreq_nb + 1);
      };
    }

pub record Released : Type 0 where
  pub ret : Bool
  pub line : List File
  pub performance : Performance

abbrev pub done : List File → Option Performance → Option Released
done line none = none
done line (some p) = some (record { ret = true; line = line; performance = p })

-- The request was found: `t` has it and the rest of the dispatch queue.
unfoldable pub finish_release :
    (type now : ℕ) → File → Taken → List File → Performance → Option Released
unfolding generic_cleanup count_release
finish_release type now f t line p =
    elim (quotient (fields t.req).len (sub_ℕ now (fields t.req).arrival_time)) [
      | none ↦ none
      | some this_bandwidth ↦
          let q = record (related_queue type f) { dispatch = t.rest } in
          done
            (set_file (set_related type (generic_cleanup t.req (count_release this_bandwidth q)) f)
              line)
            (account_request t.req this_bandwidth p)
    ]

-- `line` is the one of the file handle, and `now` the time of the release in nanoseconds.
-- `none` is a division by 0, where no time has passed since the arrival, or the use of a current
-- performance entry that is not there.
unfoldable pub agios_release_request :
    FileId → (type len offset now : ℕ) → List File → Performance → Option Released
agios_release_request file_id type len offset now line p =
    let refused = some (record { ret = false; line = line; performance = p }) in
    elim (find_file file_id line) [
      | none ↦ refused
      | some f ↦ elim (take_match len offset (related_queue type f).dispatch) [
        | none ↦ refused
        | some t ↦ finish_release type now f t line p
      ]
    ]
