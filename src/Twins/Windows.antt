-- ===== src/Twins/Windows.antt =====
-- TWINS serves one server in each window of TWINS.c, and all of them in turn.
use forwarding_explorer_agio.Prelude.{
  ℕ, zero, suc, ◌+◌, ◌-◌, ◌%◌, ◌≤◌, ◌<◌, ◌≡◌, refl, ap, sym, true, false, none, some, List, [], ◌∷◌,
  leb, get_or, set, arith, Bool-cases, inl, inr, ◌⊎◌,
}
use native.Mathlib.Nat.{mod-eq_of_lt}
use forwarding_explorer_agio.Data.{Fields, Request, Requests, nil, cons}
use forwarding_explorer_agio.Requests.{total, weight, total-cons}
use forwarding_explorer_agio.Timeline.{timeline_oldest_req}
use forwarding_explorer_agio.Timeline.Conservation.{total_multi}
use forwarding_explorer_agio.Twins.{Twins, set_window, twins_round}

-- The server stays one of the queues; while the window lasts neither the server nor the start of the
-- window changes; when it is over the next server has its turn, after the last one the first.
pub set_window-turn :
    (window size now : ℕ) (t : Twins)
    → t.g_current_twins_server < size
    → t.g_twins_first_req ≡ false
    → let u = set_window window size now t in
      (u.g_current_twins_server < size)
      × (((now - t.g_window_start < window) × (u ≡ t))
          ⊎ ((window ≤ now - t.g_window_start)
              × (u.g_current_twins_server ≡ (t.g_current_twins_server + 1) % size)
              × (u.g_window_start ≡ now)))
unfolding set_window
set_window-turn window size now t h first =
    elim (Bool-cases (leb window (now - t.g_window_start))) [
      | inr lasts ↦ rw (first, lasts) (h, inl (ground arith, refl))
      | inl over ↦ elim (Bool-cases (leb size (t.g_current_twins_server + 1))) [
        | inl last ↦ rw (first, over, last) (omega arith, inr (ground arith, wraps last, refl))
        | inr inside ↦
            rw (first, over, inside)
              (ground arith, inr (ground arith, sym (mod-eq_of_lt (lt inside)), refl))
      ]
    ]
  where
    lt : leb size (t.g_current_twins_server + 1) ≡ false → t.g_current_twins_server + 1 < size
    lt e = ground arith

    same : leb size (t.g_current_twins_server + 1) ≡ true → t.g_current_twins_server + 1 ≡ size
    same e = ground arith

    wraps :
        leb size (t.g_current_twins_server + 1) ≡ true → 0 ≡ (t.g_current_twins_server + 1) % size
    wraps e = grind (arith, same e)

Requests-cases : (a : Requests) → (a ≡ nil) ⊎ ((r : Request) × (q : Requests) × (a ≡ cons r q))
Requests-cases nil = inl refl
Requests-cases (cons r q) = inr (r, q, refl)

total_multi-pop :
    (w : Fields → ℕ) (qs : List Requests) (i : ℕ) (r : Request) (q : Requests)
    → get_or qs i nil ≡ cons r q
    → total_multi w qs ≡ total_multi w (set qs i q) + weight w r
total_multi-pop w [] i r q e = cc
total_multi-pop w (p ∷ qs) zero r q e = omega (arith, ap (total w) e, total-cons w r q)
total_multi-pop w (p ∷ qs) (suc i) r q e = omega (arith, total_multi-pop w qs i r q e)

-- A round takes a request from the queue of the current server only, the one that has waited there
-- longest, and takes exactly that request out of the queues; or that queue is empty.
pub twins_round-taken :
    (window size now : ℕ) (t : Twins) (qs : List Requests)
    → let s = twins_round window size now t qs in
      let i = s.twins.g_current_twins_server in
      ((get_or qs i nil ≡ nil) × (s.taken ≡ none))
      ⊎ ((r : Request) × (q : Requests) × (get_or qs i nil ≡ cons r q)
          × (s.taken ≡ some (r, set qs i q))
          × ((w : Fields → ℕ) → total_multi w qs ≡ total_multi w (set qs i q) + weight w r))
unfolding twins_round timeline_oldest_req
twins_round-taken window size now t qs =
    let i = (set_window window size now t).g_current_twins_server in
    elim (Requests-cases (get_or qs i nil)) [
      | inl e ↦ inl (e, rw e)
      | inr (r, q, e) ↦ inr (r, q, e, rw e, λ w. total_multi-pop w qs i r q e)
    ]
