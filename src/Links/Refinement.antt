-- ===== src/Links/Refinement.antt =====
-- The operations of mylist.c refine those on sequences of nodes.
use forwarding_explorer_agio.Prelude.{
  ℕ, ◌<◌, ◌≡◌, ◌≢◌, refl, ap, sym, ◌∙◌, inl, inr, true, false, Option, none, some, List, [], ◌∷◌,
  ◌++◌, ◌==◌, if◌then◌else◌, arith, length, Bool-cases, Option-cases,
}
use mathlib.Core.Path.{subst}
use mathlib.Core.Option.{some-injective}
use forwarding_explorer_agio.Links.{
  Store, agios_list_add, agios_list_add_tail, agios_list_del, list_add_between, list_del_between,
  for_each,
}
use forwarding_explorer_agio.Links.Rings.{
  has, has-append, Chain, Chain-frame, IsRing, last_of, first_of, for_each-Chain,
}
use forwarding_explorer_agio.Links.Insertion.{
  agios_list_add-IsRing, agios_list_add_tail-IsRing, next-Chain, prev-Chain,
}
use forwarding_explorer_agio.Links.Deletion.{agios_list_del-IsRing, neighbours}

-- Calls on the list of one head.
pub data Command : Type 0 where
  add add_tail del : ℕ → Command

abbrev pub node_of : Command → ℕ
node_of (add p) = p
node_of (add_tail p) = p
node_of (del p) = p

unfoldable pub call : (head : ℕ) → Command → Store → Store
unfolding agios_list_add agios_list_add_tail agios_list_del
call head (add p) h = agios_list_add p head h
call head (add_tail p) h = agios_list_add_tail p head h
call head (del p) h = agios_list_del p h

abbrev pub remove : ℕ → List ℕ → List ℕ
remove p [] = []
remove p (x ∷ xs) = if p == x then xs else x ∷ remove p xs

-- What a call does to the sequence: `none` for the addition of the head or of a node of the list,
-- and for the removal of a node of another list.
unfoldable pub apply : (head : ℕ) → Command → List ℕ → Option (List ℕ)
apply head (add p) xs = if has p (head ∷ xs) then none else some (p ∷ xs)
apply head (add_tail p) xs = if has p (head ∷ xs) then none else some (xs ++ p ∷ [])
apply head (del p) xs = if has p xs then some (remove p xs) else none

split_at :
    (p : ℕ) (xs : List ℕ)
    → has p xs ≡ true
    → (a b : List ℕ) × (xs ≡ a ++ p ∷ b) × (remove p xs ≡ a ++ b)
split_at p [] h = absurd (cc)
split_at p (x ∷ xs) h = elim (Bool-cases (p == x)) [
  | inl e ↦ ([], xs, ground arith, ground arith)
  | inr ne ↦
      let (a, b, s, r) = split_at p xs (ground arith) in
      (x ∷ a, b, ap (◌∷◌ x) s, rw ne (ap (◌∷◌ x) r))
]

-- One call: the list then holds what the sequence does.
call-IsRing :
    (head : ℕ) (c : Command) (h : Store) (xs ys : List ℕ)
    → IsRing h head xs
    → apply head c xs ≡ some ys
    → IsRing (call head c h) head ys
unfolding call apply
call-IsRing head (add p) h xs ys r e = elim (Bool-cases (has p (head ∷ xs))) [
  | inl inside ↦ absurd (ground (arith, e))
  | inr apart ↦
      subst (λ zs. IsRing (agios_list_add p head h) head zs) (ground (arith, e))
        (agios_list_add-IsRing h p head xs r apart)
]
call-IsRing head (add_tail p) h xs ys r e = elim (Bool-cases (has p (head ∷ xs))) [
  | inl inside ↦ absurd (ground (arith, e))
  | inr apart ↦
      subst (λ zs. IsRing (agios_list_add_tail p head h) head zs) (ground (arith, e))
        (agios_list_add_tail-IsRing h p head xs r apart)
]
call-IsRing head (del p) h xs ys r e = elim (Bool-cases (has p xs)) [
  | inr apart ↦ absurd (ground (arith, e))
  | inl inside ↦
      let (a, b, s, t) = split_at p xs inside in
      subst (λ zs. IsRing (agios_list_del p h) head zs) (ground (arith, e, t))
        (agios_list_del-IsRing h p head a b (subst (IsRing h head) s r)).0
]

last_of-has : (a : ℕ) (xs : List ℕ) → has (last_of a xs) (a ∷ xs) ≡ true
last_of-has a [] = ground arith
last_of-has a (x ∷ xs) = let ih = last_of-has x xs in ground arith

first_of-has : (b : ℕ) (xs : List ℕ) → has (first_of xs b) (b ∷ xs) ≡ true
first_of-has b [] = ground arith
first_of-has b (x ∷ xs) = ground arith

has-ne : (p q : ℕ) (xs : List ℕ) → has p xs ≡ false → has q xs ≡ true → p ≢ q
has-ne p q xs out here e = cc (e, out, here)

-- The links of a node are the same in both stores.
abbrev SameAt : ℕ → Store → Store → Type 0
SameAt p h g = (g.next p ≡ h.next p) × (g.prev p ≡ h.prev p)

call-SameAt :
    (head : ℕ) (c : Command) (h : Store) (xs ys : List ℕ) (p : ℕ)
    → IsRing h head xs
    → apply head c xs ≡ some ys
    → has p (head ∷ xs) ≡ false
    → p ≢ node_of c
    → SameAt p h (call head c h)
unfolding call apply agios_list_add agios_list_add_tail agios_list_del list_add_between
    list_del_between
call-SameAt head (add q) h xs ys p r e out ne =
    let v = has-ne p (h.next head) (head ∷ xs) out (
      subst (λ v. has v (head ∷ xs) ≡ true) (sym (next-Chain h head xs head r.chain))
        (first_of-has head xs)) in
    (ground arith, ground arith)
call-SameAt head (add_tail q) h xs ys p r e out ne =
    let u = has-ne p (h.prev head) (head ∷ xs) out (
      subst (λ v. has v (head ∷ xs) ≡ true) (sym (prev-Chain h head xs head r.chain))
        (last_of-has head xs)) in
    (ground arith, ground arith)
call-SameAt head (del q) h xs ys p r e out ne = elim (Bool-cases (has q xs)) [
  | inr apart ↦ absurd (ground (arith, e))
  | inl inside ↦
      let (a, b, s, t) = split_at q xs inside in
      let n = neighbours h q head a b head (subst (λ zs. Chain h head zs head) s r.chain) in
      let parts = ap (λ zs. has p zs) s ∙ has-append p a (q ∷ b) in
      let u = has-ne p (last_of head a) (head ∷ a) (ground arith) (last_of-has head a) in
      let v = has-ne p (first_of b head) (head ∷ b) (ground arith) (first_of-has head b) in
      (ground arith, ground arith)
]

has-remove : (p q : ℕ) (xs : List ℕ) → has p xs ≡ false → has p (remove q xs) ≡ false
has-remove p q [] h = refl
has-remove p q (x ∷ xs) h = ground (arith, has-remove p q xs)

apply-has :
    (head : ℕ) (c : Command) (xs ys : List ℕ) (p : ℕ)
    → apply head c xs ≡ some ys
    → has p xs ≡ false
    → p ≢ node_of c
    → has p ys ≡ false
unfolding apply
apply-has head (add q) xs ys p e out ne = ground arith
apply-has head (add_tail q) xs ys p e out ne = ground (arith, has-append p xs (q ∷ []))
apply-has head (del q) xs ys p e out ne = ground (arith, has-remove p q xs)

-- No node of the one is in the other.
abbrev pub Apart : List ℕ → List ℕ → Type 0
Apart zs xs = (p : ℕ) → has p zs ≡ true → has p xs ≡ false

abbrev pub nodes_of : List Command → List ℕ
nodes_of [] = []
nodes_of (c ∷ cs) = node_of c ∷ nodes_of cs

unfoldable pub calls : (head : ℕ) → List Command → Store → Store
calls head [] h = h
calls head (c ∷ cs) h = calls head cs (call head c h)

abbrev and_then : Option (List ℕ) → (List ℕ → Option (List ℕ)) → Option (List ℕ)
and_then none k = none
and_then (some xs) k = k xs

unfoldable pub apply_all : (head : ℕ) → List Command → List ℕ → Option (List ℕ)
apply_all head [] xs = some xs
apply_all head (c ∷ cs) xs = and_then (apply head c xs) (apply_all head cs)

-- The list of this head holds `ys` after the calls, a loop over it visits just these, and the lists
-- of other nodes are as they were.
pub record Refines (head : ℕ) (h g : Store) (touched ys : List ℕ) : Type 0 where
  pub ring : IsRing g head ys
  pub visits : (n : ℕ) → length ys < n → for_each n head (g.next head) g ≡ some ys
  pub others : (k : ℕ) (zs : List ℕ) → IsRing h k zs → Apart (k ∷ zs) touched → IsRing g k zs

IsRing-frame :
    (h g : Store) (k : ℕ) (zs : List ℕ)
    → ((p : ℕ) → has p (k ∷ zs) ≡ true → SameAt p h g)
    → IsRing h k zs
    → IsRing g k zs
IsRing-frame h g k zs same r = record {
  chain = Chain-frame h g k zs k (λ p m. (same p m).0) (λ p m. (same p m).1) r.chain;
  nodup = r.nodup;
  outside = r.outside;
}

apart_split :
    (p x : ℕ) (xs : List ℕ) (q : ℕ) (qs : List ℕ)
    → has p (x ∷ (xs ++ q ∷ qs)) ≡ false
    → (has p (x ∷ xs) ≡ false) × (p ≢ q) × (has p qs ≡ false)
apart_split p x xs q qs h =
    let e = has-append p xs (q ∷ qs) in (ground arith, ground arith, ground arith)

-- Any sequence of calls of agios_list_add, agios_list_add_tail and agios_list_del on one list, each
-- of which adds a node that is not in the list or takes out one that is: the links then hold what
-- the same operations on the sequence give, agios_list_for_each_entry visits that sequence, and
-- every list of other nodes is left alone.
pub calls-Refines :
    (head : ℕ) (cs : List Command) (h : Store) (xs ys : List ℕ)
    → IsRing h head xs
    → apply_all head cs xs ≡ some ys
    → Refines head h (calls head cs h) (head ∷ (xs ++ nodes_of cs)) ys
unfolding calls apply_all
calls-Refines head [] h xs ys r e =
    let ring = subst (IsRing h head) (some-injective _ _ e) r in
    record {
      ring = ring;
      visits = λ n fuel. for_each-Chain h head head ys n ring.chain ring.outside fuel;
      others = λ k zs other apart. other;
    }
calls-Refines head (c ∷ cs) h xs ys r e = elim (Option-cases (apply head c xs)) [
  | inl stuck ↦ absurd (cc)
  | inr (zs, one) ↦
      let next = call-IsRing head c h xs zs r one in
      let rest =
        calls-Refines head cs (call head c h) zs ys next
          (ap (λ o. and_then o (apply_all head cs)) (sym one) ∙ e) in
      record {
        ring = rest.ring;
        visits = rest.visits;
        others = λ k ks other apart.
            let spared : (p : ℕ)
                → has p (k ∷ ks) ≡ true
                → (has p (head ∷ xs) ≡ false) × (p ≢ node_of c) × (has p (nodes_of cs) ≡ false) =
              λ p m. apart_split p head xs (node_of c) (nodes_of cs) (apart p m) in
            rest.others k ks
              (IsRing-frame h (call head c h) k ks
                (λ p m. call-SameAt head c h xs zs p r one (spared p m).0 (spared p m).1) other)
              (λ p m.
                let s = spared p m in
                let z = apply-has head c xs zs p one (ground (arith, s.0)) s.1 in
                ground (arith, s.0, s.2, z, has-append p zs (nodes_of cs)));
      }
]
