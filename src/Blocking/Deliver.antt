-- ===== src/Blocking/Deliver.antt =====
-- What LPUSH and RPUSH bring to the client that waits for their key.
use zero_frameworks.Base.{
  ℕ, ◌≡◌, ◌≢◌, refl, sym, subst, ◌∙◌, ap, fun_ext, Bool, true, false, not, ◌&&◌, List, [], ◌∷◌,
  ◌++◌, if◌then◌else◌, length, Option, none, some, ◌==◌, arith, inl, inr, All,
}
use zero_frameworks.Base.Bytes.{Bytes, beq_iff}
use zero_frameworks.Base.Assoc.{bytes_eq, test_refl}
use zero_frameworks.Store.{KvStore, Entry, ObjType, StdHash, Env, ok, new_entry}
use zero_frameworks.Store.View.{live, entry_at_after, answer}
use zero_frameworks.Store.Lists.{
  list_push, pushed, push_front_all, push_back_all, popped, split_last,
}
use zero_frameworks.Store.Lists.Locals.{
  after_push, push_reply, after_pop, pop_reply, end_of, rest_of, kept_list, push-Local,
}
use zero_frameworks.Blocking.{
  ListWaiter, BlockingListHub, put_waiter, fulfilled, watches, on_push, push_command,
}
use zero_frameworks.Blocking.Offers.{View, seen, offered, first_offer, pop_view}
use zero_frameworks.Blocking.Fair.{Turn, Passed, chance, on_push-Fair}

cons_parts : {A : Type 0} (x y : A) (xs ys : List A) → x ∷ xs ≡ y ∷ ys → (x ≡ y) × (xs ≡ ys)
cons_parts x y xs ys same = (cc, cc)

-- The first element on which `f` has a value stands at one place only.
first_unique :
    {A B : Type 0} (f : A → Option B) (b b' c c' : List A) (x x' : A) (v v' : B)
    → b ++ x ∷ c ≡ b' ++ x' ∷ c'
    → All (λ a. f a ≡ none) b
    → All (λ a. f a ≡ none) b'
    → f x ≡ some v
    → f x' ≡ some v'
    → (b ≡ b') × (x ≡ x') × (c ≡ c')
first_unique f [] [] c c' x x' v v' same n n' s s' =
    let (heads, tails) = cons_parts x x' c c' same in (refl, heads, tails)
first_unique f [] (y' ∷ b') c c' x x' v v' same n n' s s' =
    let (h, t) = cons_parts x y' c (b' ++ x' ∷ c') same in let (m, ms) = n' in absurd cc
first_unique f (y ∷ b) [] c c' x x' v v' same n n' s s' =
    let (h, t) = cons_parts y x' (b ++ x ∷ c) c' same in let (m, ms) = n in absurd cc
first_unique f (y ∷ b) (y' ∷ b') c c' x x' v v' same n n' s s' =
    let (h, t) = cons_parts y y' (b ++ x ∷ c) (b' ++ x' ∷ c') same in
    let (front, waiter, rest) = first_unique f b b' c c' x x' v v' t n.1 n'.1 s s' in
    (cc, waiter, rest)

first_offer_key :
    (view : Bytes → Option Entry) (left : Bool) (key v : Bytes) (ks ks' : List Bytes)
    → All (λ k. offered (pop_reply left (view k)) ≡ none) ks
    → offered (pop_reply left (view key)) ≡ some v
    → first_offer view left (ks ++ key ∷ ks') ≡ some (key, v)
unfolding first_offer
first_offer_key view left key v [] ks' none_before found = rw (found, first_offer) refl
first_offer_key view left key v (k ∷ ks) ks' none_before found =
    rw (none_before.0, first_offer) (first_offer_key view left key v ks ks' none_before.1 found)

watches_append : (key : Bytes) (ks ks' : List Bytes) → watches key (ks ++ key ∷ ks') ≡ true
unfolding watches
watches_append key [] ks' = ground (arith, beq_iff key key)
watches_append key (k ∷ ks) ks' = ground (arith, watches_append key ks ks')

abbrev single : Bytes → Entry
single v = record new_entry { type = ObjType.list; list = v ∷ [] }

pushed_one : (left : Bool) (v : Bytes) → pushed left (v ∷ []) [] ≡ v ∷ []
unfolding pushed push_front_all push_back_all
pushed_one true v = refl
pushed_one false v = refl

offered-single : (end : Bool) (v : Bytes) → offered (pop_reply end (some (single v))) ≡ some v
unfolding offered pop_reply end_of popped split_last
offered-single true v = refl
offered-single false v = refl

after_pop-single : (end : Bool) (v : Bytes) → after_pop end (some (single v)) ≡ none
unfolding after_pop rest_of kept_list popped split_last
after_pop-single true v = refl
after_pop-single false v = refl

-- The first waiter in the queue that watches a key of a database, where its keys before this one are
-- other keys without an element.
pub record WaitsFor (view : View) (db : ℕ) (key : Bytes) (at : ℕ → ListWaiter) (q : List ℕ)
    (waiter : ℕ) : Type 0 where
  pub before : List ℕ
  pub after : List ℕ
  pub split : q ≡ before ++ waiter ∷ after
  pub others : All (λ b. ((at b).db == db && watches key (at b).keys) ≡ false) before
  pub database : (at waiter).db ≡ db
  pub ahead : List Bytes
  pub behind : List Bytes
  pub keys : (at waiter).keys ≡ ahead ++ key ∷ behind
  pub nothing_ahead :
      All
        (λ k. (key ≢ k) × (offered (pop_reply (not (at waiter).pop_right) (view db k)) ≡ none))
        ahead

unasked-Passed :
    (view : View) (db : ℕ) (key : Bytes) (at : ℕ → ListWaiter) (q : List ℕ)
    → All (λ b. ((at b).db == db && watches key (at b).keys) ≡ false) q
    → Passed view db key at q
unfolding chance
unasked-Passed view db key at [] u = tt
unasked-Passed view db key at (a ∷ q) (u, us) = (rw u refl, unasked-Passed view db key at q us)

some_pair :
    {A B : Type 0} (a a' : A) (b b' : B)
    → ◌≡◌ {A = Option (A × B)} (some (a, b)) (some (a', b'))
    → (a ≡ a') × (b ≡ b')
some_pair a a' b b' same = (cc, cc)

nothing_given : {A : Type 0} {a : A} → none ≢ some a
nothing_given same = cc

Passed-at :
    (view : View) (db : ℕ) (key : Bytes) (at : ℕ → ListWaiter) (before : List ℕ) (a : ℕ)
    (after : List ℕ)
    → Passed view db key at (before ++ a ∷ after)
    → chance view db key (at a) ≡ none
Passed-at view db key at [] a after (p, ps) = p
Passed-at view db key at (b ∷ before) a after (p, ps) = Passed-at view db key at before a after ps

module _ ⦃h : StdHash⦄ (s : KvStore) (db : ℕ) (key v : Bytes) (left : Bool) (env : Env) where
  pushed_view : View
  pushed_view = seen env.now (list_push s db key (v ∷ []) left env).0

  seen-list_push :
      (d : ℕ) (j : Bytes)
      → pushed_view d j ≡ (
          if db == d && bytes_eq.test key j
          then live env.now (after_push (v ∷ []) left (seen env.now s db key))
          else seen env.now s d j)
  unfolding pushed_view list_push
  seen-list_push d j =
      ap (live env.now) (entry_at_after s db key env.now _ (push-Local key (v ∷ []) left) d j)
      ∙ ground arith

  module _ (absent : seen env.now s db key ≡ none) where
    push_command-list_push :
        (hub : BlockingListHub) (n : ℕ)
        → (list_push s db key (v ∷ []) left env).1 ≡ ok n
        → push_command left db key (v ∷ []) s hub env ≡ (
            let r = on_push db key (list_push s db key (v ∷ []) left env).0 hub env in
            (r.0, r.1, ok n))
    unfolding push_command
    push_command-list_push hub n answered = rw (answered, push_command) refl

    other_key : (k : Bytes) → key ≢ k → pushed_view db k ≡ seen env.now s db k
    other_key k other = seen-list_push db k ∙ ground (arith, bytes_eq.test_iff key k)

    push_answer : (list_push s db key (v ∷ []) left env).1 ≡ ok 1
    unfolding list_push push_reply
    push_answer =
        answer s db key env.now _ (push-Local key (v ∷ []) left)
        ∙ rw absent (ap (λ xs. ok (length xs)) (pushed_one left v))

    pushed_there : pushed_view db key ≡ some (single v)
    unfolding after_push live
    pushed_there =
        seen-list_push db key ∙ rw absent (ground (arith, test_refl key, pushed_one left v))

    offered_pushed : (end : Bool) → offered (pop_reply end (pushed_view db key)) ≡ some v
    offered_pushed end = rw pushed_there (offered-single end v)

    -- The pop of the one element takes the list away again.
    pop_view_pushed : (end : Bool) → pop_view env.now db end key pushed_view ≡ seen env.now s
    unfolding pop_view live
    pop_view_pushed end = fun_ext λ d. fun_ext λ j.
        rw (pushed_there, after_pop-single end v)
          (ground (arith, seen-list_push d j, absent, bytes_eq.test_iff key j))

    nothing_pushed :
        (end : Bool) (ks : List Bytes)
        → All (λ k. (key ≢ k) × (offered (pop_reply end (seen env.now s db k)) ≡ none)) ks
        → All (λ k. offered (pop_reply end (pushed_view db k)) ≡ none) ks
    nothing_pushed end [] n = tt
    nothing_pushed end (k ∷ ks) ((other, nothing), ns) =
        (rw (other_key k other) nothing, nothing_pushed end ks ns)

    module _ (hub : BlockingListHub) (a : ℕ)
        (w : WaitsFor (seen env.now s) db key hub.waiter_at hub.waiters a) where
      chance_pushed : chance pushed_view db key (hub.waiter_at a) ≡ some (key, v)
      unfolding chance
      chance_pushed =
          rw (w.database, w.keys, watches_append key w.ahead w.behind)
            (ground (
              arith,
              first_offer_key (pushed_view db) (not (hub.waiter_at a).pop_right) key v w.ahead
                  w.behind (nothing_pushed _ w.ahead w.nothing_ahead) (offered_pushed _),
            ))

      only_one_served :
          (t : Turn pushed_view db key hub.waiter_at hub.waiters)
          → (t.before ≡ w.before)
            × (t.waiter ≡ a)
            × (t.after ≡ w.after)
            × (t.from_key ≡ key)
            × (t.value ≡ v)
      only_one_served t =
          let (front, same, back) =
            first_unique (λ b. chance pushed_view db key (hub.waiter_at b)) t.before w.before
              t.after w.after t.waiter a (t.from_key, t.value) (key, v) (sym t.split ∙ w.split)
              t.passed (unasked-Passed pushed_view db key hub.waiter_at w.before w.others) t.chosen
              chance_pushed in
          let there =
            sym t.chosen
            ∙ ap (λ b. chance pushed_view db key (hub.waiter_at b)) same
            ∙ chance_pushed in
          let (from, what) = some_pair _ _ _ _ there in (front, same, back, from, what)

      -- A push of one element under a key that is not there, where the first client in the queue
      -- that watches the key has only other keys without an element before it: this client gets the
      -- element and is scheduled, the other clients go on waiting, and every key is as before.
      pub push_delivers :
          let r = push_command left db key (v ∷ []) s hub env in
          (r.1 ≡ record {
            waiters = w.before ++ w.after;
            waiter_at = put_waiter a (fulfilled (hub.waiter_at a) key v) hub.waiter_at;
            scheduled = hub.scheduled ++ a ∷ [];
          })
          × (r.2 ≡ ok 1)
          × (seen env.now r.0 ≡ seen env.now s)
      unfolding pushed_view
      push_delivers = elim (on_push-Fair db key env (list_push s db key (v ∷ []) left env).0 hub) [
        | inl (passed, _, _) ↦ absurd (
            nothing_given (
              sym (
                Passed-at pushed_view db key hub.waiter_at w.before a w.after
                  (subst (Passed pushed_view db key hub.waiter_at) w.split passed))
              ∙ chance_pushed))
        | inr (t, hub', view') ↦
            let (front, same, back, from, what) = only_one_served t in
            rw (push_command-list_push hub 1 push_answer) (
              hub' ∙ rw (front, same, back, from, what) refl,
              refl,
              view' ∙ rw (same, from, w.database) (pop_view_pushed _),
            )
      ]
