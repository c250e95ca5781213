-- ===== src/Links/Emptying.antt =====
-- The loop that deletes the nodes of a list one step behind its iteration.
use forwarding_explorer_agio.Prelude.{
  ℕ, zero, suc, ◌<◌, ◌≡◌, refl, ap, ◌∙◌, true, false, Option, none, some, List, [], ◌∷◌, ◌==◌,
  if◌then◌else◌, arith, length,
}
use forwarding_explorer_agio.Links.{
  Store, agios_list_del, deleted, delete_each, list_cleanup, cleanup_performance_module,
  agios_list_empty,
}
use forwarding_explorer_agio.Links.Rings.{IsRing, agios_list_empty-IsRing}
use forwarding_explorer_agio.Links.Deletion.{agios_list_del-IsRing}

-- The loop has deleted these nodes in this order, and the list is empty.
pub record Empties (head : ℕ) (xs : List ℕ) (o : Option (Store × List ℕ)) : Type 0 where
  pub store : Store
  pub runs : o ≡ some (store, xs)
  pub ring : IsRing store head []

delete_each-step :
    (n head aux x : ℕ) (h : Store)
    → (x == head) ≡ false
    → delete_each (suc n) head x (some aux) h
      ≡ deleted aux
          (delete_each n head ((agios_list_del aux h).next x) (some x) (agios_list_del aux h))
unfolding delete_each
delete_each-step n head aux x h more = rw more refl

delete_each-Empties :
    (n head aux : ℕ) (xs : List ℕ) (h : Store)
    → IsRing h head (aux ∷ xs)
    → length xs < n
    → Empties head (aux ∷ xs) (delete_each n head (h.next aux) (some aux) h)
unfolding delete_each
delete_each-Empties zero head aux xs h r fuel = absurd (omega arith)
delete_each-Empties (suc n) head aux [] h r fuel = record {
  store = agios_list_del aux h;
  runs = ground (arith, r.chain);
  ring = (agios_list_del-IsRing h aux head [] [] r).0;
}
delete_each-Empties (suc n) head aux (x ∷ xs) h r fuel =
    let g = agios_list_del aux h in
    let ring = (agios_list_del-IsRing h aux head [] (x ∷ xs) r).0 in
    let rest = delete_each-Empties n head x xs g ring (omega arith) in
    let here : h.next aux ≡ x = r.chain.2.0 in
    let more : (x == head) ≡ false = ground (arith, ring.outside) in
    record {
      store = rest.store;
      runs =
          ap (λ p. delete_each (suc n) head p (some aux) h) here
          ∙ delete_each-step n head aux x h more
          ∙ ap (deleted aux) rest.runs;
      ring = rest.ring;
    }

first :
    (n head x : ℕ) (h : Store)
    → (x == head) ≡ false
    → delete_each (suc n) head x none h ≡ delete_each n head (h.next x) (some x) h
unfolding delete_each
first n head x h more = rw more refl

-- The loop of the performance module terminates and reaches every entry: one round more than there are
-- entries is enough, each entry is deleted once and in order, and the list is empty in the end.
pub cleanup_performance_module-Empties :
    (n head : ℕ) (xs : List ℕ) (h : Store)
    → IsRing h head xs
    → length xs < n
    → Empties head xs (cleanup_performance_module n head h)
unfolding cleanup_performance_module delete_each
cleanup_performance_module-Empties zero head xs h r fuel = absurd (omega arith)
cleanup_performance_module-Empties (suc n) head [] h r fuel =
    let over : (h.next head == head) ≡ true =
      unfold agios_list_empty in agios_list_empty-IsRing h head [] r in
    record { store = h; runs = rw over refl; ring = r }
cleanup_performance_module-Empties (suc n) head (x ∷ xs) h r fuel =
    let rest = delete_each-Empties n head x xs h r (omega arith) in
    let here : h.next head ≡ x = r.chain.0 in
    let more : (x == head) ≡ false = ground (arith, r.outside) in
    record {
      store = rest.store;
      runs = ap (λ p. delete_each (suc n) head p none h) here ∙ first n head x h more ∙ rest.runs;
      ring = rest.ring;
    }

-- The loop terminates and reaches every node, although it deletes nodes of the list that it walks:
-- one round more than there are nodes is enough, each node is deleted once and in order, and the
-- list is empty in the end.
pub list_cleanup-Empties :
    (n head : ℕ) (xs : List ℕ) (h : Store)
    → IsRing h head xs
    → length xs < n
    → Empties head xs (list_cleanup n head h)
unfolding list_cleanup cleanup_performance_module
list_cleanup-Empties n head [] h r fuel = record {
  store = h;
  runs = rw (agios_list_empty-IsRing h head [] r) refl;
  ring = r;
}
list_cleanup-Empties n head (x ∷ xs) h r fuel =
    let rest = cleanup_performance_module-Empties n head (x ∷ xs) h r fuel in
    record {
      store = rest.store;
      runs =
          ap (λ b. if b then some (h, []) else delete_each n head (h.next head) none h)
            (agios_list_empty-IsRing h head (x ∷ xs) r)
          ∙ rest.runs;
      ring = rest.ring;
    }
