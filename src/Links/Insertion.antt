-- ===== src/Links/Insertion.antt =====
-- Adding a node between two neighbours of a ring.
use forwarding_explorer_agio.Prelude.{ℕ, ◌≡◌, ◌≢◌, false, List, [], ◌∷◌, ◌++◌, arith}
use mathlib.Core.List.{append-nil}
use forwarding_explorer_agio.Links.{Store, list_add_between, agios_list_add, agios_list_add_tail}
use forwarding_explorer_agio.Links.Rings.{
  has, has-append, last_of-ne, first_of-ne, Nodup, Chain, Chain-frame, IsRing, last_of, first_of,
}

add_here :
    (h : Store) (new a : ℕ) (ys : List ℕ) (b : ℕ)
    → Chain h a ys b
    → has new (a ∷ ys) ≡ false
    → new ≢ b
    → has a ys ≡ false
    → Nodup ys
    → has b ys ≡ false
    → Chain (list_add_between new a (first_of ys b) h) a (new ∷ ys) b
unfolding list_add_between
add_here h new a [] b c apart ne out once end =
    (ground arith, ground arith, (ground arith, ground arith))
add_here h new a (y ∷ ys) b c apart ne out once end = (
  ground arith,
  ground arith,
  (
    ground arith,
    ground arith,
    Chain-frame h (list_add_between new a y h) y ys b (λ p m. ground arith) (λ p m. ground arith)
        c.2,
  ),
)

-- The new node stands behind the nodes `xs`.
add_between-Chain :
    (h : Store) (new a : ℕ) (xs ys : List ℕ) (b : ℕ)
    → Chain h a (xs ++ ys) b
    → has new (a ∷ (xs ++ ys)) ≡ false
    → new ≢ b
    → has a (xs ++ ys) ≡ false
    → Nodup (xs ++ ys)
    → has b (xs ++ ys) ≡ false
    → Chain (list_add_between new (last_of a xs) (first_of ys b) h) a (xs ++ new ∷ ys) b
add_between-Chain h new a [] ys b c apart ne out once end =
    add_here h new a ys b c apart ne out once end
add_between-Chain h new a (x ∷ xs) ys b c apart ne out once end =
    let u = last_of-ne a x xs ys out in
    let v = first_of-ne x b xs ys once.0 (ground arith) in
    let rest =
      add_between-Chain h new x xs ys b c.2 (ground arith) ne once.0 once.1 (ground arith) in
    (unfold list_add_between in ground arith, unfold list_add_between in ground arith, rest)

Nodup-insert :
    (new : ℕ) (xs ys : List ℕ)
    → Nodup (xs ++ ys)
    → has new (xs ++ ys) ≡ false
    → Nodup (xs ++ new ∷ ys)
Nodup-insert new [] ys n h = (h, n)
Nodup-insert new (x ∷ xs) ys n h = (
  ground (arith, has-append x xs (new ∷ ys), has-append x xs ys),
  Nodup-insert new xs ys n.1 (ground arith),
)

-- Adding between the last of `xs` and the first of `ys` in a ring.
pub add_between-IsRing :
    (h : Store) (new head : ℕ) (xs ys : List ℕ)
    → IsRing h head (xs ++ ys)
    → has new (head ∷ (xs ++ ys)) ≡ false
    → IsRing (list_add_between new (last_of head xs) (first_of ys head) h) head (xs ++ new ∷ ys)
add_between-IsRing h new head xs ys r apart = record {
  chain =
      add_between-Chain h new head xs ys head r.chain apart (ground arith) r.outside r.nodup
        r.outside;
  nodup = Nodup-insert new xs ys r.nodup (ground arith);
  outside = ground (arith, has-append head xs (new ∷ ys), has-append head xs ys, r.outside);
}

pub next-Chain :
    (h : Store) (a : ℕ) (ys : List ℕ) (b : ℕ) → Chain h a ys b → h.next a ≡ first_of ys b
next-Chain h a [] b c = c.0
next-Chain h a (y ∷ ys) b c = c.0

pub prev-Chain :
    (h : Store) (a : ℕ) (xs : List ℕ) (b : ℕ) → Chain h a xs b → h.prev b ≡ last_of a xs
prev-Chain h a [] b c = c.1
prev-Chain h a (x ∷ xs) b c = prev-Chain h x xs b c.2

-- `agios_list_add` puts a node that is not in the list at its front.
pub agios_list_add-IsRing :
    (h : Store) (new head : ℕ) (xs : List ℕ)
    → IsRing h head xs
    → has new (head ∷ xs) ≡ false
    → IsRing (agios_list_add new head h) head (new ∷ xs)
unfolding agios_list_add
agios_list_add-IsRing h new head xs r apart =
    rw (next-Chain h head xs head r.chain) (add_between-IsRing h new head [] xs r apart)

-- `agios_list_add_tail` puts it at the end.
pub agios_list_add_tail-IsRing :
    (h : Store) (new head : ℕ) (xs : List ℕ)
    → IsRing h head xs
    → has new (head ∷ xs) ≡ false
    → IsRing (agios_list_add_tail new head h) head (xs ++ new ∷ [])
unfolding agios_list_add_tail
agios_list_add_tail-IsRing h new head xs r apart =
    let e = append-nil xs in
    rw (prev-Chain h head xs head r.chain)
      (add_between-IsRing h new head xs [] (rw e r) (rw e apart))
