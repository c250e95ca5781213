-- ===== src/Placement.antt =====
-- The end of `hashtable_add_req` in req_hashtable.c: a request takes its place in the queue of its
-- file and type, which is sorted by offset, or joins its neighbours there.
pub mod Sorted
pub mod Merging
use forwarding_explorer_agio.Prelude.{
  ℕ, ◌+◌, Bool, true, false, ◌&&◌, ◌||◌, Option, none, some, ◌==◌, ltb, if◌then◌else◌,
}
use forwarding_explorer_agio.Data.{Request, Requests, nil, cons, fields}
use forwarding_explorer_agio.Requests.{append}
use forwarding_explorer_agio.Aggregation.{
  Insertion, aggregated, unchanged, swallowed, insert_aggregations,
}

-- The test of the search loop: the request `tmp` of the queue goes after `req`.
unfoldable pub goes_after : Request → Request → Bool
goes_after tmp req =
    ltb (fields req).offset (fields tmp).offset
    || ((fields tmp).offset == (fields req).offset && ltb (fields req).len (fields tmp).len)

-- The queue cut at the place of `req`.
pub record Cut : Type 0 where
  pub before : Requests
  pub after : Requests

abbrev pub cut_cons : Request → Cut → Cut
cut_cons r c = record { before = cons r c.before; after = c.after }

unfoldable pub find_place : Request → Requests → Cut
find_place req nil = record { before = nil; after = nil }
find_place req (cons tmp q) =
    if goes_after tmp req
    then record { before = nil; after = cons tmp q }
    else cut_cons tmp (find_place req q)

-- `none` where the insertion place has left the queue, and `agios_list_add` goes through it.
unfoldable pub settle : Request → Cut → Insertion → ℕ → Option (Requests × ℕ)
settle req c (aggregated q g') g = some (q, g')
settle req c unchanged g = some (append c.before (cons req c.after), g)
settle req c (swallowed r q g') g = none

unfoldable pub add_to_queue : ℕ → Request → Requests → ℕ → Option (Requests × ℕ)
unfolding settle find_place
add_to_queue limit req queue g =
    let c = find_place req queue in
    settle req c (insert_aggregations limit req c.before c.after g) g
