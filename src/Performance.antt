-- ===== src/Performance.antt =====
-- performance.c: a record of the last scheduling algorithms and of the bandwidth seen under each.
-- `performance_info_len` is a counter of its own, which cleanup_performance_module does not reset.
-- `performance_info` is kept newest first, so its head is `current_performance_entry`, and
-- `list.prev` leads on along the list.
pub mod Periods
use forwarding_explorer_agio.Prelude.{
  ℕ, zero, suc, ◌+◌, ◌-◌, Bool, true, false, Option, none, some, List, [], ◌∷◌, length, ltb,
  if◌then◌else◌,
}
use forwarding_explorer_agio.Prelude.Int.{ℤ, pos}
use forwarding_explorer_agio.Data.{Request, fields}
use forwarding_explorer_agio.Common.{update_iterative_average}

pub record PerformanceEntry : Type 0 where
  pub timestamp : ℕ
  pub alg : ℕ
  pub bandwidth : ℤ
  pub size : ℕ
  pub reqnb : ℕ

pub record Performance : Type 0 where
  pub performance_info : List PerformanceEntry
  pub performance_info_len : ℕ
  pub agios_processed_reqnb : ℕ

-- The first of the C list, which is the oldest, is removed.
abbrev pub drop_oldest : List PerformanceEntry → List PerformanceEntry
drop_oldest [] = []
drop_oldest (e ∷ []) = []
drop_oldest (e ∷ f ∷ es) = e ∷ drop_oldest (f ∷ es)

-- The list and the counter of its entries in the loop.
pub record Entries : Type 0 where
  pub info : List PerformanceEntry
  pub len : ℕ

-- The first entry of an empty list is the list itself, and freeing it is a fault.
abbrev pub unless_empty : List PerformanceEntry → Option Entries → Option Entries
unless_empty [] rest = none
unless_empty (e ∷ es) rest = rest

-- The loop that runs while the counter is above `limit`, `n` rounds at most.
unfoldable pub forget : ℕ → ℕ → ℕ → List PerformanceEntry → Option Entries
forget zero limit len es = some (record { info = es; len = len })
forget (suc n) limit len es =
    let rest = forget n limit (len - 1) (drop_oldest es) in
    if ltb limit len then unless_empty es rest else some (record { info = es; len = len })

abbrev pub with_entries : Option Entries → Option (Bool × Performance)
with_entries none = none
with_entries (some t) = some (
  true,
  record { performance_info = t.info; performance_info_len = t.len; agios_processed_reqnb = 0 },
)

-- `limit` is `config_agios_performance_values`. A round lowers the counter, which bounds the rounds.
-- The result says whether `malloc` gave memory; `none` is the fault.
unfoldable pub performance_set_new_algorithm :
    (memory : Bool) → (limit alg now : ℕ) → Performance → Option (Bool × Performance)
unfolding forget
performance_set_new_algorithm memory limit alg now p =
    let new : PerformanceEntry = record {
      timestamp = now;
      alg = alg;
      bandwidth = pos 0;
      size = 0;
      reqnb = 0;
    } in
    let len = p.performance_info_len + 1 in
    if memory
    then with_entries (forget len limit len (new ∷ p.performance_info))
    else some (false, p)

abbrev pub head_bandwidth : List PerformanceEntry → Option ℤ
head_bandwidth [] = none
head_bandwidth (e ∷ es) = some e.bandwidth

-- `none` where there is no entry, and the source reads through a dangling pointer.
unfoldable pub get_current_performance_bandwidth : Performance → Option ℤ
get_current_performance_bandwidth p = head_bandwidth p.performance_info

abbrev pub entry_among : Request → List PerformanceEntry → Option PerformanceEntry
entry_among req [] = none
entry_among req (e ∷ es) =
    if ltb (fields req).dispatch_timestamp e.timestamp then entry_among req es else some e

-- The entry of the algorithm that was in use at `dispatch_timestamp`, if there is one. The outer `none`
-- is the fault where there is no current entry, which the source reads without a test.
unfoldable pub get_request_entry :
    Request → List PerformanceEntry → Option (Option PerformanceEntry)
get_request_entry req [] = none
get_request_entry req (e ∷ es) = some (entry_among req (e ∷ es))

-- What `agios_release_request` writes to the entry.
unfoldable pub account : Request → ℤ → PerformanceEntry → PerformanceEntry
account req this_bandwidth e = record e {
  reqnb = e.reqnb + 1;
  size = e.size + (fields req).len;
  bandwidth = update_iterative_average e.bandwidth this_bandwidth (e.reqnb + 1);
}

unfoldable pub account_among : Request → ℤ → List PerformanceEntry → List PerformanceEntry
unfolding account
account_among req this_bandwidth [] = []
account_among req this_bandwidth (e ∷ es) =
    if ltb (fields req).dispatch_timestamp e.timestamp
    then e ∷ account_among req this_bandwidth es
    else account req this_bandwidth e ∷ es

-- The entry that `get_request_entry` finds is written to; `none` is the same fault.
unfoldable pub account_entry : Request → ℤ → List PerformanceEntry → Option (List PerformanceEntry)
unfolding account_among
account_entry req this_bandwidth [] = none
account_entry req this_bandwidth (e ∷ es) = some (account_among req this_bandwidth (e ∷ es))

-- Whether the entry of the request is the current one.
abbrev pub is_current : Request → List PerformanceEntry → Bool
is_current req [] = false
is_current req (e ∷ es) = if ltb (fields req).dispatch_timestamp e.timestamp then false else true

abbrev pub accounted : Request → Performance → Option (List PerformanceEntry) → Option Performance
accounted req p none = none
accounted req p (some es) = some (record p {
  performance_info = es;
  agios_processed_reqnb =
      if is_current req p.performance_info
      then p.agios_processed_reqnb + 1
      else p.agios_processed_reqnb;
})

-- The part of `agios_release_request` under `performance_mutex`.
unfoldable pub account_request : Request → ℤ → Performance → Option Performance
unfolding account_entry
account_request req this_bandwidth p =
    accounted req p (account_entry req this_bandwidth p.performance_info)
