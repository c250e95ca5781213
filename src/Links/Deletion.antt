-- ===== src/Links/Deletion.antt =====
-- Taking a node out of a ring.
use forwarding_explorer_agio.Prelude.{ℕ, ◌≡◌, refl, false, List, [], ◌∷◌, ◌++◌, arith}
use forwarding_explorer_agio.Links.{
  Store, set_next, set_prev, list_del_between, agios_list_del, agios_list_del_init, list_del_entry,
  init_agios_list_head,
}
use forwarding_explorer_agio.Links.Rings.{
  has, has-append, last_of-ne, first_of-ne, Nodup, Chain, Chain-frame, IsRing, last_of, first_of,
}

-- `agios_list_del` of a node whose neighbours are these.
abbrev unlink : (entry prev next : ℕ) → Store → Store
unlink entry prev next h =
    set_prev entry entry (set_next entry entry (list_del_between prev next h))

del_here :
    (h : Store) (e a : ℕ) (ys : List ℕ) (b : ℕ)
    → Chain h a (e ∷ ys) b
    → has a (e ∷ ys) ≡ false
    → has e ys ≡ false
    → Nodup ys
    → has b (e ∷ ys) ≡ false
    → Chain (unlink e a (first_of ys b) h) a ys b
unfolding list_del_between
del_here h e a [] b c out apart once end = (ground arith, ground arith)
del_here h e a (y ∷ ys) b c out apart once end = (
  ground arith,
  ground arith,
  Chain-frame h (unlink e a y h) y ys b (λ p m. ground arith) (λ p m. ground arith) c.2.2,
)

unlink-Chain :
    (h : Store) (e a : ℕ) (xs ys : List ℕ) (b : ℕ)
    → Chain h a (xs ++ e ∷ ys) b
    → has a (xs ++ e ∷ ys) ≡ false
    → Nodup (xs ++ e ∷ ys)
    → has b (xs ++ e ∷ ys) ≡ false
    → Chain (unlink e (last_of a xs) (first_of ys b) h) a (xs ++ ys) b
unlink-Chain h e a [] ys b c out once end = del_here h e a ys b c out once.0 once.1 end
unlink-Chain h e a (x ∷ xs) ys b c out once end =
    let ax = has-append a xs (e ∷ ys) in
    let xe = has-append x xs (e ∷ ys) in
    let u = last_of-ne a x xs (e ∷ ys) out in
    let v = first_of-ne x b xs ys (ground (arith, has-append x xs ys)) (ground arith) in
    let rest = unlink-Chain h e x xs ys b c.2 once.0 once.1 (ground arith) in
    (unfold list_del_between in ground arith, unfold list_del_between in ground arith, rest)

Nodup-remove :
    (e : ℕ) (xs ys : List ℕ) → Nodup (xs ++ e ∷ ys) → (has e (xs ++ ys) ≡ false) × Nodup (xs ++ ys)
Nodup-remove e [] ys n = n
Nodup-remove e (x ∷ xs) ys n =
    let ih = Nodup-remove e xs ys n.1 in
    let xe = has-append x xs (e ∷ ys) in (ground arith, (ground (arith, has-append x xs ys), ih.1))

pub neighbours :
    (h : Store) (e a : ℕ) (xs ys : List ℕ) (b : ℕ)
    → Chain h a (xs ++ e ∷ ys) b
    → (h.prev e ≡ last_of a xs) × (h.next e ≡ first_of ys b)
neighbours h e a [] [] b c = (c.1, c.2.0)
neighbours h e a [] (y ∷ ys) b c = (c.1, c.2.0)
neighbours h e a (x ∷ xs) ys b c = neighbours h e x xs ys b c.2

-- `agios_list_del` takes a node of a list out of it, and leaves it as a ring of its own.
pub agios_list_del-IsRing :
    (h : Store) (e head : ℕ) (xs ys : List ℕ)
    → IsRing h head (xs ++ e ∷ ys)
    → IsRing (agios_list_del e h) head (xs ++ ys) × IsRing (agios_list_del e h) e []
unfolding agios_list_del
agios_list_del-IsRing h e head xs ys r =
    let n = neighbours h e head xs ys head r.chain in
    let once = Nodup-remove e xs ys r.nodup in
    let outside = has-append head xs (e ∷ ys) in
    (
      rw (n.0, n.1)
          (record {
            chain = unlink-Chain h e head xs ys head r.chain r.outside r.nodup r.outside;
            nodup = once.1;
            outside = ground (arith, has-append head xs ys, r.outside);
          }),
      record { chain = (ground arith, ground arith); nodup = tt; outside = refl },
    )

-- `agios_list_del_init` is the same.
pub agios_list_del_init-agios_list_del :
    (h : Store) (e : ℕ) → agios_list_del_init e h ≡ agios_list_del e h
unfolding agios_list_del agios_list_del_init list_del_entry init_agios_list_head
agios_list_del_init-agios_list_del h e = refl
