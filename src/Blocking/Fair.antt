-- ===== src/Blocking/Fair.antt =====
-- Whom a push serves: the first waiter in the queue that watches the key and for which there is an
-- element, and nobody else.
use zero_frameworks.Base.{
  ℕ, ◌≡◌, refl, subst, ◌∙◌, ap, not, ◌&&◌, List, [], ◌∷◌, ◌++◌, if◌then◌else◌, Option, none, some,
  ◌==◌, inl, inr, ◌⊎◌, Option-cases, Bool-cases, All,
}
use zero_frameworks.Base.Bytes.{Bytes}
use zero_frameworks.Store.{KvStore, StdHash, Env}
use zero_frameworks.Blocking.{
  ListWaiter, BlockingListHub, put_waiter, fulfilled, served_with, watches, try_fulfill, consider,
  serve, finish, on_push,
}
use zero_frameworks.Blocking.Offers.{View, seen, first_offer, pop_view, take_view, try_keys_takes}

abbrev pub offer_to : View → ListWaiter → Option (Bytes × Bytes)
offer_to view w = first_offer (view w.db) (not w.pop_right) w.keys

-- What a push on a key of a database gives a waiter the chance to take.
unfoldable pub chance : View → ℕ → Bytes → ListWaiter → Option (Bytes × Bytes)
unfolding watches
chance view db key w = if w.db == db && watches key w.keys then offer_to view w else none

abbrev pub Passed : View → ℕ → Bytes → (ℕ → ListWaiter) → List ℕ → Type 0
Passed view db key at q = All (λ a. chance view db key (at a) ≡ none) q

-- Whose turn it is in a queue: nobody before it has a chance.
pub record Turn (view : View) (db : ℕ) (key : Bytes) (at : ℕ → ListWaiter) (q : List ℕ)
    : Type 0 where
  pub before : List ℕ
  pub waiter : ℕ
  pub after : List ℕ
  pub from_key : Bytes
  pub value : Bytes
  pub split : q ≡ before ++ waiter ∷ after
  pub passed : Passed view db key at before
  pub chosen : chance view db key (at waiter) ≡ some (from_key, value)

module _ ⦃h : StdHash⦄ (db : ℕ) (key : Bytes) (env : Env) where
  try_fulfill_takes :
      (s : KvStore) (w : ListWaiter)
      → let o = offer_to (seen env.now s) w in
        ((try_fulfill s w env).1 ≡ served_with w o)
        × (seen env.now (try_fulfill s w env).0
            ≡ take_view env.now w.db (not w.pop_right) o (seen env.now s))
  unfolding try_fulfill
  try_fulfill_takes s w =
      let tried = try_keys_takes s w.db (not w.pop_right) w.keys env in
      (ap (served_with w) tried.0, tried.1)

  consider-chance :
      (s : KvStore) (w : ListWaiter)
      → let o = chance (seen env.now s) db key w in
        ((consider s w db key env).1 ≡ served_with w o)
        × (seen env.now (consider s w db key env).0
            ≡ take_view env.now w.db (not w.pop_right) o (seen env.now s))
  unfolding consider chance served_with take_view
  consider-chance s w = elim (Bool-cases (w.db == db && watches key w.keys)) [
    | inl asked ↦ rw asked (try_fulfill_takes s w)
    | inr not_asked ↦ rw not_asked (refl, refl)
  ]

  module _ (at : ℕ → ListWaiter) where
    abbrev Outcome : View → List ℕ → KvStore × List ℕ × Option (ℕ × ListWaiter) → Type 0
    Outcome view q (s', q', served) =
        (Passed view db key at q × (q' ≡ q) × (served ≡ none) × (seen env.now s' ≡ view))
        ⊎ ((t : Turn view db key at q) × (q' ≡ t.before ++ t.after)
            × (served ≡ some (t.waiter, fulfilled (at t.waiter) t.from_key t.value))
            × (seen env.now s'
                ≡ pop_view env.now (at t.waiter).db (not (at t.waiter).pop_right) t.from_key view))

    module _ (s : KvStore) (a : ℕ) (q : List ℕ) where
      tried : KvStore × Option ListWaiter
      tried = consider s (at a) db key env

      serve_on :
          tried.1 ≡ none
          → let r = serve tried.0 at db key q env in
            serve s at db key (a ∷ q) env ≡ (r.0, a ∷ r.1, r.2)
      unfolding serve tried
      serve_on nothing = rw (nothing, serve) refl

      serve_here :
          (w : ListWaiter)
          → tried.1 ≡ some w
          → serve s at db key (a ∷ q) env ≡ (tried.0, q, some (a, w))
      unfolding serve tried
      serve_here w found = rw (found, serve) refl

      pass :
          (view : View) (r : KvStore × List ℕ × Option (ℕ × ListWaiter))
          → chance view db key (at a) ≡ none
          → Outcome view q r
          → Outcome view (a ∷ q) (r.0, a ∷ r.1, r.2)
      pass view r nothing (inl (passed, same, idle, view_same)) =
          inl ((nothing, passed), ap (◌∷◌ a) same, idle, view_same)
      pass view r nothing (inr (t, left, served, after)) = inr (
        record {
          before = a ∷ t.before;
          waiter = t.waiter;
          after = t.after;
          from_key = t.from_key;
          value = t.value;
          split = ap (◌∷◌ a) t.split;
          passed = (nothing, t.passed);
          chosen = t.chosen;
        },
        ap (◌∷◌ a) left,
        served,
        after,
      )

      serve_takes :
          (k v : Bytes)
          → chance (seen env.now s) db key (at a) ≡ some (k, v)
          → Outcome (seen env.now s) (a ∷ q) (serve s at db key (a ∷ q) env)
      unfolding tried served_with take_view
      serve_takes k v found =
          let c = consider-chance s (at a) in
          rw (serve_here (fulfilled (at a) k v) (c.0 ∙ ap (served_with (at a)) found)) (
            inr (
              record {
                before = [];
                waiter = a;
                after = q;
                from_key = k;
                value = v;
                split = refl;
                passed = tt;
                chosen = found;
              },
              refl,
              refl,
              c.1 ∙ rw found refl,
            ))

    serve_fair : (s : KvStore) (q : List ℕ) → Outcome (seen env.now s) q (serve s at db key q env)
    unfolding tried served_with take_view
    serve_fair s [] = unfold serve in inl (tt, refl, refl, refl)
    serve_fair s (a ∷ q) = elim (Option-cases (chance (seen env.now s) db key (at a))) [
      | inl nothing ↦
          let c = consider-chance s (at a) in
          let r = serve (tried s a q).0 at db key q env in
          let same : seen env.now (tried s a q).0 ≡ seen env.now s = c.1 ∙ rw nothing refl in
          rw (serve_on s a q (c.0 ∙ ap (served_with (at a)) nothing)) (
            pass s a q (seen env.now s) r nothing
              (subst (λ view. Outcome view q r) same (serve_fair (tried s a q).0 q)))
      | inr ((k, v), found) ↦ serve_takes s a q k v found
    ]

  -- What a push may do to a hub and to what is seen of a store.
  abbrev pub Fair : KvStore → BlockingListHub → KvStore × BlockingListHub → Type 0
  Fair s hub (s', hub') =
      let at = hub.waiter_at in
      let view = seen env.now s in
      (Passed view db key at hub.waiters × (hub' ≡ hub) × (seen env.now s' ≡ view))
      ⊎ ((t : Turn view db key at hub.waiters) × (hub' ≡ record {
        waiters = t.before ++ t.after;
        waiter_at = put_waiter t.waiter (fulfilled (at t.waiter) t.from_key t.value) at;
        scheduled = hub.scheduled ++ t.waiter ∷ [];
      })
          × (seen env.now s'
              ≡ pop_view env.now (at t.waiter).db (not (at t.waiter).pop_right) t.from_key view))

  -- A push serves the first waiter in the queue that is in its database, watches its key and has
  -- an element under one of its keys: this waiter gets the element of the first such key, from the end
  -- that it asked for, leaves the queue and is scheduled. No other waiter, no other place of the
  -- queue and no other entry changes. Without such a waiter nothing changes at all.
  pub on_push-Fair : (s : KvStore) (hub : BlockingListHub) → Fair s hub (on_push db key s hub env)
  unfolding on_push finish
  on_push-Fair s hub = elim (serve_fair hub.waiter_at s hub.waiters) [
    | inl (passed, same, idle, view_same) ↦ inl (passed, rw (same, idle) refl, view_same)
    | inr (t, left, served, after) ↦ inr (t, rw (left, served) refl, after)
  ]
