-- ===== src/Requests.antt =====
-- Lists of requests: mylist.c as operations on sequences, and what a list carries in all.
use forwarding_explorer_agio.Prelude.{
  ℕ, suc, ◌+◌, ◌≡◌, refl, ap, Bool, true, false, arith, Option, none, some, ◌⊎◌, inl, inr, sym, ◌∙◌,
}
use forwarding_explorer_agio.Data.{Fields, Request, request, Requests, nil, cons}

-- `agios_list_add` at the head of a list is `cons`.
abbrev pub append : Requests → Requests → Requests
append nil b = b
append (cons r a) b = cons r (append a b)

-- `agios_list_add_tail`.
abbrev pub snoc : Requests → Request → Requests
snoc nil r = cons r nil
snoc (cons x a) r = cons x (snoc a r)

-- `agios_list_empty`.
abbrev pub is_empty : Requests → Bool
is_empty nil = true
is_empty (cons r a) = false

abbrev pub count : Requests → ℕ
count nil = 0
count (cons r a) = suc (count a)

-- A list cut before its last element, which is where `insertion_place` points.
pub data LastView : Type 0 where
  empty : LastView
  ends : Requests → Request → LastView

abbrev pub push_front : Request → LastView → LastView
push_front x empty = ends nil x
push_front x (ends a r) = ends (cons x a) r

pub last_view : Requests → LastView
last_view nil = empty
last_view (cons x a) = push_front x (last_view a)

-- The sum of `w` over the requests that users added: a request with no sub-requests is one,
-- and a virtual request stands for those in it.
unfoldable mutual
  pub weight : (Fields → ℕ) → Request → ℕ
  weight w (request f nil) = w f
  weight w (request f (cons r a)) = weight w r + total w a

  pub total : (Fields → ℕ) → Requests → ℕ
  total w nil = 0
  total w (cons r a) = weight w r + total w a

pub total-nil : (w : Fields → ℕ) → total w nil ≡ 0
unfolding total
total-nil w = refl

pub total-cons :
    (w : Fields → ℕ) (r : Request) (a : Requests) → total w (cons r a) ≡ weight w r + total w a
unfolding total
total-cons w r a = refl

pub total-append : (w : Fields → ℕ) (a b : Requests) → total w (append a b) ≡ total w a + total w b
unfolding total
total-append w nil b = omega arith
total-append w (cons r a) b = omega (arith, total-append w a b)

pub total-snoc :
    (w : Fields → ℕ) (a : Requests) (r : Request) → total w (snoc a r) ≡ total w a + weight w r
unfolding total
total-snoc w nil r = omega arith
total-snoc w (cons x a) r = omega (arith, total-snoc w a r)

pub ruleset totals = (arith, total-nil, total-cons, total-append, total-snoc)

pub count-snoc : (a : Requests) (r : Request) → count (snoc a r) ≡ suc (count a)
count-snoc nil r = refl
count-snoc (cons x a) r = ap suc (count-snoc a r)

pub count-append : (a b : Requests) → count (append a b) ≡ count a + count b
count-append nil b = omega arith
count-append (cons x a) b = omega (arith, count-append a b)

pub append-snoc :
    (a : Requests) (r : Request) (b : Requests) → append (snoc a r) b ≡ append a (cons r b)
append-snoc nil r b = refl
append-snoc (cons x a) r b = ap (cons x) (append-snoc a r b)

pub append-nil : (a : Requests) → append a nil ≡ a
append-nil nil = refl
append-nil (cons x a) = ap (cons x) (append-nil a)

pub last_view-cases :
    (a : Requests)
    → ((last_view a ≡ empty) × (a ≡ nil))
      ⊎ ((b : Requests) × (r : Request) × (last_view a ≡ ends b r) × (a ≡ snoc b r))
unfolding last_view
last_view-cases nil = inl (refl, refl)
last_view-cases (cons x a) = elim (last_view-cases a) [
  | inl (e, h) ↦ inr (nil, x, ap (push_front x) e, ap (cons x) h)
  | inr (b, r, e, h) ↦ inr (cons x b, r, ap (push_front x) e, ap (cons x) h)
]

pub last_view-ends :
    (b : Requests) (a : Requests) (r : Request) → last_view b ≡ ends a r → b ≡ snoc a r
last_view-ends b a r e = elim (last_view-cases b) [
  | inl (h, _) ↦ cc
  | inr (c, x, h, k) ↦
      let same : ends c x ≡ ends a r = sym h ∙ e in
      k ∙ ap (λ v. elim v [ empty ↦ nil | ends d y ↦ snoc d y ]) same
]
