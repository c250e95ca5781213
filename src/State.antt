-- ===== src/State.antt =====
-- The globals of the library: the hashtable, the timelines, the counters, the statistics, the
-- performance record and the scheduler in use. A pointer to a file or a queue is its file handle
-- and type: files are never moved to another line of the hashtable, nor freed before `agios_exit`.
use forwarding_explorer_agio.Prelude.{ℕ, List, [], Option, get_or, set}
use forwarding_explorer_agio.Data.{FileId, Request, Requests, File}
use forwarding_explorer_agio.Files.{find_file, set_file}
use forwarding_explorer_agio.Hash.{get_hashtable_position}
use forwarding_explorer_agio.Process.{Counters}
use forwarding_explorer_agio.Statistics.{GlobalState}
use forwarding_explorer_agio.Performance.{Performance}
use forwarding_explorer_agio.Schedulers.{IoScheduler}

pub record Agios : Type 0 where
  pub hashlist : List (List File)
  pub timeline : Requests
  pub multi_timeline : List Requests
  pub counters : Counters
  pub g_last_timestamp : ℕ
  pub statistics : GlobalState
  pub performance : Performance
  -- the requests that agios_trace_add_request was called with, in order
  pub traced : List Request
  pub current_alg : ℕ
  pub current_scheduler : IoScheduler

-- `hashlist[hash]`.
abbrev pub line : ℕ → Agios → List File
line hash a = get_or a.hashlist hash []

abbrev pub set_line : ℕ → List File → Agios → Agios
set_line hash fs a = record a { hashlist = set a.hashlist hash fs }

-- The file of a request, `req->globalinfo->req_file`, and a write to it.
unfoldable pub file_of : FileId → Agios → Option File
file_of file_id a = find_file file_id (line (get_hashtable_position file_id) a)

unfoldable pub put_file : File → Agios → Agios
put_file f a =
    let hash = get_hashtable_position f.file_id in set_line hash (set_file f (line hash a)) a
