-- ===== src/Blocking/Offers.antt =====
-- What a waiter is offered: the first of its keys under which there is an element. The store is seen
-- through its flat map, at one reading of the clock.
use zero_frameworks.Base.{
  ℕ, ◌≡◌, refl, sym, ◌∙◌, ap, fun_ext, Bool, ◌&&◌, List, [], ◌∷◌, if◌then◌else◌, Option, none, some,
  ◌==◌, arith, inl, inr, Option-cases,
}
use zero_frameworks.Base.Bytes.{Bytes}
use zero_frameworks.Base.Assoc.{bytes_eq, nat_eq}
use zero_frameworks.Base.Int.{ℤ}
use zero_frameworks.Store.{KvStore, Entry, StdHash, Env, Result, ok, err}
use zero_frameworks.Store.View.{entry_at, live, entry_at_after, answer}
use zero_frameworks.Store.Lists.{list_pop}
use zero_frameworks.Store.Lists.Locals.{after_pop, pop_reply, end_of, rest_of, pop-Local}
use zero_frameworks.Blocking.{try_keys}

abbrev pub View : Type 0
View = ℕ → Bytes → Option Entry

-- The element that a pop answers with.
unfoldable pub offered : Result (Option Bytes) → Option Bytes
offered (ok o) = o
offered (err e) = none

unfoldable pub first_offer : (Bytes → Option Entry) → Bool → List Bytes → Option (Bytes × Bytes)
unfolding offered
first_offer view left [] = none
first_offer view left (key ∷ keys) = elim (offered (pop_reply left (view key))) [
  | none ↦ first_offer view left keys
  | some value ↦ some (key, value)
]

-- What a pop leaves of the view.
unfoldable pub pop_view : ℤ → ℕ → Bool → Bytes → View → View
pop_view now db left key view d j =
    if db == d && bytes_eq.test key j then live now (after_pop left (view db key)) else view d j

unfoldable pub take_view : ℤ → ℕ → Bool → Option (Bytes × Bytes) → View → View
unfolding pop_view
take_view now db left none view = view
take_view now db left (some (key, value)) view = pop_view now db left key view

live_twice : (now : ℤ) (e : Option Entry) → live now (live now e) ≡ live now e
unfolding live
live_twice now none = refl
live_twice now (some e) = ground arith

rest_of_nothing :
    (left : Bool) (e : Entry) (xs : List Bytes)
    → offered (end_of left xs) ≡ none
    → rest_of left e xs ≡ some e
unfolding offered end_of rest_of
rest_of_nothing left e [] nothing = refl
rest_of_nothing left e (x ∷ xs) nothing = cc

-- An entry that offers nothing is left as it is.
pub after_pop_nothing :
    (left : Bool) (e : Option Entry) → offered (pop_reply left e) ≡ none → after_pop left e ≡ e
unfolding pop_reply after_pop
after_pop_nothing left none nothing = refl
after_pop_nothing left (some e) nothing = ground (arith, rest_of_nothing left e e.list)

module _ (view : Bytes → Option Entry) (left : Bool) (key : Bytes) (keys : List Bytes) where
  first_offer_here :
      (v : Bytes)
      → offered (pop_reply left (view key)) ≡ some v
      → first_offer view left (key ∷ keys) ≡ some (key, v)
  unfolding first_offer
  first_offer_here v found = rw (found, first_offer) refl

  first_offer_later :
      offered (pop_reply left (view key)) ≡ none
      → first_offer view left (key ∷ keys) ≡ first_offer view left keys
  unfolding first_offer
  first_offer_later nothing = rw (nothing, first_offer) refl

module _ ⦃h : StdHash⦄ where
  abbrev pub seen : ℤ → KvStore → View
  seen now s db key = live now (entry_at s db key)

  module _ (s : KvStore) (db : ℕ) (key : Bytes) (left : Bool) (env : Env) where
    pub seen-list_pop :
        seen env.now (list_pop s db key left env).0 ≡ pop_view env.now db left key (seen env.now s)
    unfolding list_pop pop_view
    seen-list_pop = fun_ext λ d. fun_ext λ j.
        ap (live env.now) (entry_at_after s db key env.now _ (pop-Local key left) d j)
        ∙ ground arith

    pub list_pop_answer : (list_pop s db key left env).1 ≡ pop_reply left (seen env.now s db key)
    unfolding list_pop
    list_pop_answer = answer s db key env.now _ (pop-Local key left)

    seen_same :
        offered (pop_reply left (seen env.now s db key)) ≡ none
        → seen env.now (list_pop s db key left env).0 ≡ seen env.now s
    unfolding pop_view
    seen_same nothing =
        seen-list_pop
        ∙ fun_ext (λ d. fun_ext λ j. ground (
          arith,
          after_pop_nothing left (seen env.now s db key),
          live_twice env.now (entry_at s db key),
          bytes_eq.test_iff key j,
        ))

    try_keys-cases :
        (keys : List Bytes) (r : Result (Option Bytes))
        → (list_pop s db key left env).1 ≡ r
        → try_keys s db left (key ∷ keys) env ≡ (elim (offered r) [
          | none ↦ try_keys (list_pop s db key left env).0 db left keys env
          | some v ↦ ((list_pop s db key left env).0, some (key, v))
        ])
    unfolding try_keys offered
    try_keys-cases keys (ok none) answered = rw (answered, try_keys) refl
    try_keys-cases keys (ok (some v)) answered = rw (answered, try_keys) refl
    try_keys-cases keys (err e) answered = rw (answered, try_keys) refl

  -- `tryFulfill` takes what its waiter is offered, and no other entry changes.
  pub try_keys_takes :
      (s : KvStore) (db : ℕ) (left : Bool) (keys : List Bytes) (env : Env)
      → let taken = first_offer (seen env.now s db) left keys in
        ((try_keys s db left keys env).1 ≡ taken)
        × (seen env.now (try_keys s db left keys env).0
            ≡ take_view env.now db left taken (seen env.now s))
  try_keys_takes s db left [] env = unfold try_keys first_offer take_view in (refl, refl)
  try_keys_takes s db left (key ∷ keys) env =
      elim (Option-cases (offered (pop_reply left (seen env.now s db key)))) [
        | inl nothing ↦
            rw
              (
                try_keys-cases s db key left env keys _ (list_pop_answer s db key left env),
                nothing,
                first_offer_later (seen env.now s db) left key keys nothing,
                sym (seen_same s db key left env nothing),
              )
              (try_keys_takes (list_pop s db key left env).0 db left keys env)
        | inr (v, found) ↦
            rw
              (
                try_keys-cases s db key left env keys _ (list_pop_answer s db key left env),
                found,
                first_offer_here (seen env.now s db) left key keys v found,
              )
              (refl, unfold take_view in seen-list_pop s db key left env)
      ]
