-- ===== src/Quanta.antt =====
-- The parts of MLF.c and aIOLi.c that choose a request by its quantum: a request may be processed
-- when `sched_factor` times the quantum covers its size. The product is an `int32_t`.
pub mod Growth
pub mod Adjusting
use forwarding_explorer_agio.Prelude.{
  ℕ, zero, suc, ◌+◌, ◌-◌, ◌*◌, ◌/◌, ◌%◌, ◌^◌, Bool, true, false, ◌&&◌, Option, none, some, ◌==◌,
  leb, ltb, if◌then◌else◌,
}
use forwarding_explorer_agio.Prelude.Int.{ℤ, pos, negsuc, ltb_ℤ}
use forwarding_explorer_agio.Data.{Request, Requests, nil, cons, fields, File, Queue}
use forwarding_explorer_agio.Common.{div_ℤ}
use forwarding_explorer_agio.Requests.{is_empty}
use forwarding_explorer_agio.Schedulers.{max_aggreg_size}
use forwarding_explorer_agio.Timeline.{to_int32}
use forwarding_explorer_agio.Waiting.{increment_sched_factor, check_selection}

-- `(req->sched_factor*config_mlf_quantum) >= req->len`.
unfoldable pub covers : ℕ → Request → Bool
covers quantum req =
    let product = (fields req).sched_factor * quantum % 2 ^ 32 in
    ltb product (2 ^ 31) && leb (fields req).len product

-- The queue with every factor incremented, and the first request that its quantum covers.
pub record Pass : Type 0 where
  pub list : Requests
  pub selected : Option Request

abbrev pub choose_first : Bool → Request → Option Request → Option Request
choose_first true r later = some r
choose_first false r later = later

unfoldable pub apply_mlf_onlist : (config_mlf_quantum : ℕ) → Requests → Pass
apply_mlf_onlist quantum nil = record { list = nil; selected = none }
apply_mlf_onlist quantum (cons r q) =
    let rest = apply_mlf_onlist quantum q in
    let r' = increment_sched_factor r in
    record {
      list = cons r' rest.list;
      selected = choose_first (covers quantum r') r' rest.selected;
    }

-- What `MLF_select_request` chooses before `check_selection`, with the file: the write queue is
-- passed over only if a read request is chosen.
unfoldable pub mlf_candidate : (config_mlf_quantum : ℕ) → File → Option Request × File
unfolding apply_mlf_onlist
mlf_candidate quantum f =
    let r = apply_mlf_onlist quantum f.read_queue.list in
    let f' =
      if is_empty f.read_queue.list
      then f
      else record f { read_queue = record (f.read_queue) { list = r.list } } in
    let w = apply_mlf_onlist quantum f.write_queue.list in
    let f'' =
      if is_empty f.write_queue.list
      then f'
      else record f' { write_queue = record (f.write_queue) { list = w.list } } in
    elim (r.selected) [ some req ↦ (some req, f') | none ↦ (w.selected, f'') ]

abbrev pub checked : Request → Bool × File → Option Request × File
checked req (true, f) = (some req, f)
checked req (false, f) = (none, f)

unfoldable pub mlf_select_request :
    (config_waiting_time config_mlf_quantum now : ℕ) → File → Option Request × File
unfolding mlf_candidate check_selection
mlf_select_request wait quantum now f =
    let c = mlf_candidate quantum f in
    elim (c.0) [ none ↦ (none, c.1) | some req ↦ checked req (check_selection wait now req c.1) ]

unfoldable pub increment_all : Requests → Requests
increment_all nil = nil
increment_all (cons r q) = cons (increment_sched_factor r) (increment_all q)

-- `aIOLi_select_from_list`: only the first request can be selected, by which the queue is.
unfoldable pub aioli_select_from_list : (config_aioli_quantum : ℕ) → Requests → Pass
unfolding increment_all
aioli_select_from_list quantum nil = record { list = nil; selected = none }
aioli_select_from_list quantum (cons r q) =
    let r' = increment_sched_factor r in
    record {
      list = cons r' (increment_all q);
      selected = if covers quantum r' then some r' else none;
    }

-- `used_quantum*100/quantum`, an `int32_t` quotient with a positive divisor.
abbrev pub used_rate : ℕ → ℕ → ℤ
used_rate used_quantum quantum = div_ℤ (to_int32 (used_quantum * 100)) quantum

unfoldable pub required_quantum : ℕ → ℕ → ℤ
required_quantum used_quantum quantum =
    let rate = used_rate used_quantum quantum in
    if ltb_ℤ (pos 174) rate
    then to_int32 (quantum * 2)
    else if ltb_ℤ (pos 124) rate
    then div_ℤ (to_int32 (quantum * 15)) 10
    else if ltb_ℤ (pos 74) rate
    then pos quantum
    else pos (quantum / 2)

unfoldable pub adjust_quantum : (config_aioli_quantum used_quantum quantum : ℕ) → ℤ
unfolding required_quantum
adjust_quantum config used_quantum quantum =
    let requiredqt = required_quantum used_quantum quantum in
    if ltb_ℤ (pos 0) requiredqt
    then if ltb_ℤ (pos max_aggreg_size) requiredqt then pos max_aggreg_size else requiredqt
    else pos config
