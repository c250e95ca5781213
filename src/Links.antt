-- ===== src/Links.antt =====
-- mylist.c: doubly linked lists on an explicit store of links. A node is an address; `next` and
-- `prev` are what the two pointers of each node hold.
pub mod Rings
pub mod Insertion
pub mod Deletion
pub mod Refinement
pub mod Emptying
use forwarding_explorer_agio.Prelude.{
  ℕ, zero, suc, Bool, Option, none, some, List, [], ◌∷◌, ◌==◌, if◌then◌else◌,
}

pub record Store : Type 0 where
  pub next : ℕ → ℕ
  pub prev : ℕ → ℕ

-- `p->field = v`.
abbrev pub write : (ℕ → ℕ) → (p v : ℕ) → ℕ → ℕ
write f p v a = if a == p then v else f a

abbrev pub set_next : (p v : ℕ) → Store → Store
set_next p v h = record h { next = write h.next p v }

abbrev pub set_prev : (p v : ℕ) → Store → Store
set_prev p v h = record h { prev = write h.prev p v }

unfoldable pub init_agios_list_head : (list : ℕ) → Store → Store
init_agios_list_head list h = set_prev list list (set_next list list h)

-- `__agios_list_add`.
unfoldable pub list_add_between : (new prev next : ℕ) → Store → Store
list_add_between new prev next h =
    set_next prev new (set_prev new prev (set_next new next (set_prev next new h)))

unfoldable pub agios_list_add : (new head : ℕ) → Store → Store
unfolding list_add_between
agios_list_add new head h = list_add_between new head (h.next head) h

unfoldable pub agios_list_add_tail : (new head : ℕ) → Store → Store
unfolding list_add_between
agios_list_add_tail new head h = list_add_between new (h.prev head) head h

-- `__agios_list_del`.
unfoldable pub list_del_between : (prev next : ℕ) → Store → Store
list_del_between prev next h = set_next prev next (set_prev next prev h)

unfoldable pub agios_list_del : (entry : ℕ) → Store → Store
unfolding list_del_between
agios_list_del entry h =
    set_prev entry entry (set_next entry entry (list_del_between (h.prev entry) (h.next entry) h))

-- `__agios_list_del_entry`.
unfoldable pub list_del_entry : (entry : ℕ) → Store → Store
unfolding list_del_between
list_del_entry entry h = list_del_between (h.prev entry) (h.next entry) h

unfoldable pub agios_list_del_init : (entry : ℕ) → Store → Store
unfolding list_del_entry init_agios_list_head
agios_list_del_init entry h = init_agios_list_head entry (list_del_entry entry h)

unfoldable pub agios_list_empty : (head : ℕ) → Store → Bool
agios_list_empty head h = h.next head == head

abbrev pub visit : ℕ → Option (List ℕ) → Option (List ℕ)
visit p none = none
visit p (some ps) = some (p ∷ ps)

-- `agios_list_for_each_entry` from the node `pos` on: the nodes that it visits, or `none` if it has
-- not come back to the head in `n` rounds.
unfoldable pub for_each : (n head pos : ℕ) → Store → Option (List ℕ)
for_each zero head pos h = none
for_each (suc n) head pos h =
    let rest = for_each n head (h.next pos) h in if pos == head then some [] else visit pos rest

-- The loop of `list_of_requests_cleanup`, which the library has in many places: a node is deleted
-- only when the iteration has moved on to the next one. The result is the store, and the nodes in
-- the order of their deletion.
abbrev pub deleted : ℕ → Option (Store × List ℕ) → Option (Store × List ℕ)
deleted p none = none
deleted p (some (h, ps)) = some (h, p ∷ ps)

unfoldable pub delete_each :
    (n head pos : ℕ) → (aux_req : Option ℕ) → Store → Option (Store × List ℕ)
delete_each zero head pos aux h = none
delete_each (suc n) head pos none h =
    let rest = delete_each n head (h.next pos) (some pos) h in
    if pos == head then some (h, []) else rest
delete_each (suc n) head pos (some aux) h =
    let g = agios_list_del aux h in
    let rest = deleted aux (delete_each n head (g.next pos) (some pos) g) in
    if pos == head then some (g, aux ∷ []) else rest

unfoldable pub list_cleanup : (n head : ℕ) → Store → Option (Store × List ℕ)
unfolding delete_each
list_cleanup n head h =
    if agios_list_empty head h then some (h, []) else delete_each n head (h.next head) none h

-- The same loop over the list of the performance module, without the test.
unfoldable pub cleanup_performance_module : (n head : ℕ) → Store → Option (Store × List ℕ)
unfolding delete_each
cleanup_performance_module n head h = delete_each n head (h.next head) none h
