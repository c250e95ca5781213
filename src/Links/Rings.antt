-- ===== src/Links/Rings.antt =====
-- The rings of mylist.c: a head and the nodes that follow it, linked both ways.
use forwarding_explorer_agio.Prelude.{
  ℕ, zero, suc, ◌<◌, ◌≡◌, ◌≢◌, refl, Bool, true, false, ◌||◌, List, [], ◌∷◌, ◌++◌, ◌==◌, arith,
  some, length,
}
use forwarding_explorer_agio.Links.{Store, for_each, agios_list_empty, init_agios_list_head}

abbrev pub has : ℕ → List ℕ → Bool
has a [] = false
has a (x ∷ xs) = (a == x) || has a xs

abbrev pub Nodup : List ℕ → Type 0
Nodup [] = Unit {0}
Nodup (x ∷ xs) = (has x xs ≡ false) × Nodup xs

-- From `a` the links lead through the nodes `xs` to `b`, and back.
abbrev pub Chain : Store → ℕ → List ℕ → ℕ → Type 0
Chain h a [] b = (h.next a ≡ b) × (h.prev b ≡ a)
Chain h a (x ∷ xs) b = (h.next a ≡ x) × (h.prev x ≡ a) × Chain h x xs b

-- A list with this head holds these nodes.
pub record IsRing (h : Store) (head : ℕ) (xs : List ℕ) : Type 0 where
  pub chain : Chain h head xs head
  pub nodup : Nodup xs
  pub outside : has head xs ≡ false

pub init-IsRing : (head : ℕ) (h : Store) → IsRing (init_agios_list_head head h) head []
unfolding init_agios_list_head
init-IsRing head h = record { chain = (ground arith, ground arith); nodup = tt; outside = refl }

-- A chain survives writes to other links.
pub Chain-frame :
    (h g : Store) (a : ℕ) (xs : List ℕ) (b : ℕ)
    → ((p : ℕ) → has p (a ∷ xs) ≡ true → g.next p ≡ h.next p)
    → ((p : ℕ) → has p (b ∷ xs) ≡ true → g.prev p ≡ h.prev p)
    → Chain h a xs b
    → Chain g a xs b
Chain-frame h g a [] b next prev c = (ground (arith, next a), ground (arith, prev b))
Chain-frame h g a (x ∷ xs) b next prev c = (
  ground (arith, next a),
  ground (arith, prev x),
  Chain-frame h g x xs b (λ p m. next p (ground arith)) (λ p m. prev p (ground arith)) c.2,
)

has-append_right : (a : ℕ) (xs ys : List ℕ) → has a (xs ++ ys) ≡ false → has a ys ≡ false
has-append_right a [] ys h = h
has-append_right a (x ∷ xs) ys h = has-append_right a xs ys (ground arith)

pub for_each-Chain :
    (h : Store) (head a : ℕ) (xs : List ℕ) (n : ℕ)
    → Chain h a xs head
    → has head xs ≡ false
    → length xs < n
    → for_each n head (h.next a) h ≡ some xs
unfolding for_each
for_each-Chain h head a xs zero c out fuel = absurd (omega arith)
for_each-Chain h head a [] (suc n) c out fuel = ground arith
for_each-Chain h head a (x ∷ xs) (suc n) c out fuel =
    let ih = for_each-Chain h head x xs n c.2 (ground arith) (omega arith) in ground arith

abbrev pub is_nil : List ℕ → Bool
is_nil [] = true
is_nil (x ∷ xs) = false

pub agios_list_empty-IsRing :
    (h : Store) (head : ℕ) (xs : List ℕ) → IsRing h head xs → agios_list_empty head h ≡ is_nil xs
unfolding agios_list_empty
agios_list_empty-IsRing h head [] r = ground (arith, r.chain)
agios_list_empty-IsRing h head (x ∷ xs) r = ground (arith, r.chain, r.outside)

-- The node before a place in a chain, and the one after it.
abbrev pub last_of : ℕ → List ℕ → ℕ
last_of a [] = a
last_of a (x ∷ xs) = last_of x xs

abbrev pub first_of : List ℕ → ℕ → ℕ
first_of [] b = b
first_of (x ∷ xs) b = x

pub last_of-ne : (p x : ℕ) (xs ys : List ℕ) → has p (x ∷ (xs ++ ys)) ≡ false → p ≢ last_of x xs
last_of-ne p x [] ys h = ground arith
last_of-ne p x (y ∷ xs) ys h = last_of-ne p y xs ys (ground arith)

pub first_of-ne : (p b : ℕ) (xs ys : List ℕ) → has p (xs ++ ys) ≡ false → p ≢ b → p ≢ first_of ys b
first_of-ne p b [] [] h ne = ne
first_of-ne p b [] (y ∷ ys) h ne = ground arith
first_of-ne p b (x ∷ xs) ys h ne = first_of-ne p b xs ys (ground arith) ne

pub has-append : (p : ℕ) (xs ys : List ℕ) → has p (xs ++ ys) ≡ (has p xs || has p ys)
has-append p [] ys = refl
has-append p (x ∷ xs) ys = ground (arith, has-append p xs ys)
