-- ===== src/Tests/Turns.antt =====
-- The theorems on the loops of MLF and aIOLi, in a state with two files in the hashtable.
use forwarding_explorer_agio.Prelude.{
  ◌-◌, ◌%◌, ◌≡◌, refl, true, false, some, [], ◌∷◌, ◌==◌, arith, replicate,
}
use forwarding_explorer_agio.Prelude.Int.{pos}
use forwarding_explorer_agio.Aioli.{Environment as AioliEnvironment, Round, serve_queue}
use forwarding_explorer_agio.Aioli.Batch.{fitting, beyond}
use forwarding_explorer_agio.Aioli.Rounds.{Batch, serve_queue-Batch}
use forwarding_explorer_agio.Data.{nil, cons}
use forwarding_explorer_agio.Fifo.{Selected}
use forwarding_explorer_agio.Files.{find_file}
use forwarding_explorer_agio.Loops.Draining.{identifiers}
use forwarding_explorer_agio.Mlf.{Mlf, Environment, mlf}
use forwarding_explorer_agio.Mlf.Ends.{Returned, mlf-Returned, mlf-delivered}
use forwarding_explorer_agio.Process.Delivery.{delivered}
use forwarding_explorer_agio.State.{Agios}
use forwarding_explorer_agio.Tests.Data.{single, virtual, handle, file_with}
use forwarding_explorer_agio.Tests.Structures.{in_hashtable, lines-LinesShaped, reads-AllShaped}

-- Every line counts a request, so that MLF walks over all of them.
abbrev counted : Agios
counted = record in_hashtable {
  counters = record (in_hashtable.counters) { hashlist_reqcounter = replicate 64 (pos 1) };
}

-- The loop starts before the last line, and every other line is held by another thread.
abbrev started : Mlf
started = record { mlf_current_hash = 62; mlf_lock_tries = replicate 64 0 }

abbrev environment : Environment
environment = record {
  has_list_cb = true;
  config_waiting_time = 100;
  config_mlf_quantum = 8192;
  is_free = λ i. i % 2 == 0;
  now_waited = λ i k. i;
  now_checked = λ i k. i;
  now_sent = λ i k. i;
  stops = λ i. false ∷ [];
}

mlf-Returned_example : Returned counted (mlf 193 environment started counted)
mlf-Returned_example =
    mlf-Returned 193 environment started counted (omega arith) (lines-LinesShaped 31) (omega arith)

mlf-delivered_example :
    (r : Returned counted (mlf 193 environment started counted)) × (delivered (r.calls)
      ≡ identifiers (r.sent))
mlf-delivered_example =
    mlf-delivered 193 environment started counted (omega arith) (lines-LinesShaped 31) (omega arith)
      (λ i. (refl, tt))

abbrev selected : Selected
selected = record { index = 31; file_id = handle; type = 0 }

abbrev served : AioliEnvironment
served = record {
  has_list_cb = false;
  config_waiting_time = 100;
  config_aioli_quantum = 8192;
  now_searched = λ i k. i;
  now_checked = λ i. i;
  now_sent = λ i k. i;
  stops = λ i. [];
}

serve_queue-Batch_example :
    (round : Round) × (serve_queue served 0 selected counted ≡ some round)
    × Batch 8192 selected
        (file_with handle)
        counted
        round
        (cons (virtual 0) (fitting (0 - 20) (cons (single 40 73 5) nil)))
        (beyond (0 - 20) (cons (single 40 73 5) nil))
unfolding find_file
serve_queue-Batch_example =
    serve_queue-Batch served 0 selected counted (file_with handle) (virtual 0)
      (cons (single 40 73 5) nil) refl refl reads-AllShaped (omega arith) tt
