-- ===== src/Store/Lists/Laws.antt =====
-- What a client sees of the lists.
use zero_frameworks.Base.{
  ℕ, ◌-◌, ◌≡◌, ◌≢◌, refl, sym, ◌∙◌, ap, Bool, true, false, not, ◌&&◌, List, [], ◌∷◌, if◌then◌else◌,
  Option, none, some, ◌==◌, length, take, drop, arith, inr,
}
use zero_frameworks.Base.Bytes.{Bytes}
use zero_frameworks.Base.Assoc.{bytes_eq, nat_eq, test_refl}
use zero_frameworks.Base.Int.{ℤ}
use zero_frameworks.Store.{KvStore, Entry, ObjType, Env, StdHash, wrong_type, Result, ok, err}
use zero_frameworks.Store.View.{
  Apart, Apart-test, entry_at, live, entry_at_after, answer, answer_by,
}
use zero_frameworks.Store.Strings.{has_type}
use zero_frameworks.Store.Lists.{
  popped, range_body, range_of, list_push, list_pop, list_range, list_rpop_lpush,
}
use zero_frameworks.Store.Lists.Locals.{
  Holds, after_push, push_reply, after_pop, pop_reply, end_of, rest_of, kept_list, push-Local,
  pop-Local, pop_reply-after_push,
}
use zero_frameworks.Store.Lists.Range.{first, past, range_of-take}

range_reply : ℤ → ℤ → Option Entry → Result (Option (List Bytes))
range_reply start stop none = ok none
range_reply start stop (some e) =
    if not (has_type ObjType.list e) then err wrong_type else ok (some (range_of e.list start stop))

pop_reply_last :
    (e : Entry) (x : Bytes) (xs : List Bytes)
    → has_type ObjType.list e ≡ true
    → e.list ≡ x ∷ xs
    → pop_reply false (some e) ≡ ok (some (popped false x xs).1)
unfolding pop_reply end_of
pop_reply_last e x xs is_list elements = rw (is_list, elements) refl

after_pop_last :
    (e : Entry) (x : Bytes) (xs : List Bytes)
    → has_type ObjType.list e ≡ true
    → e.list ≡ x ∷ xs
    → after_pop false (some e) ≡ kept_list e (popped false x xs).0
unfolding after_pop rest_of
after_pop_last e x xs is_list elements = rw (is_list, elements) refl

push_reply_wrong :
    (v : Bytes) (f : Entry)
    → has_type ObjType.list f ≡ false
    → push_reply (v ∷ []) true (some f) ≡ err wrong_type
unfolding push_reply
push_reply_wrong v f not_list = rw not_list refl

after_push_wrong :
    (v : Bytes) (f : Entry)
    → has_type ObjType.list f ≡ false
    → after_push (v ∷ []) true (some f) ≡ some f
unfolding after_push
after_push_wrong v f not_list = rw not_list refl

module _ ⦃h : StdHash⦄ where
  same_place : (db : ℕ) (key : Bytes) → (db == db && bytes_eq.test key key) ≡ true
  same_place db key = ground (arith, test_refl key)

  -- A pop takes the element that a push has put in at the same end, if the key held a list or nothing.
  -- Both happen at one reading of the clock.
  pop-push :
      (s : KvStore) (db : ℕ) (key v : Bytes) (xs : List Bytes) (left : Bool) (env : Env)
      → Holds (live env.now (entry_at s db key)) xs
      → (list_pop (list_push s db key (v ∷ []) left env).0 db key left env).1 ≡ ok (some v)
  unfolding list_pop list_push
  pop-push s db key v xs left env holds =
      answer _ db key env.now _ (pop-Local key left)
      ∙ rw (entry_at_after s db key env.now _ (push-Local key (v ∷ []) left) db key) (
          rw (same_place db key) (pop_reply-after_push left env.now v xs (entry_at s db key) holds))

  -- LRANGE on a list answers with its elements from `start` up to and with `stop`, where a negative
  -- index counts from the end and both are cut to the list.
  pub list_range_elements :
      (s : KvStore) (db : ℕ) (key : Bytes) (e : Entry) (start stop : ℤ) (env : Env)
      → live env.now (entry_at s db key) ≡ some e
      → has_type ObjType.list e ≡ true
      → (list_range s db key start stop env).1
        ≡ ok (
            some (
              take
                (past (length e.list) stop - first (length e.list) start)
                (drop (first (length e.list) start) e.list)))
  unfolding list_range
  list_range_elements s db key e start stop env seen is_list =
      answer_by s db key env.now (range_body start stop) (range_reply start stop)
        (λ m x. unfold range_body range_reply in ground arith)
      ∙ rw seen (
          unfold range_reply in
          rw is_list (ap (λ ys. ok (some ys)) (range_of-take e.list start stop)))

  pop_answer :
      (s : KvStore) (db : ℕ) (key : Bytes) (env : Env)
      → (list_pop s db key false env).1 ≡ pop_reply false (live env.now (entry_at s db key))
  unfolding list_pop
  pop_answer s db key env = answer s db key env.now _ (pop-Local key false)

  after_pop_at :
      (s : KvStore) (db : ℕ) (key : Bytes) (env : Env)
      → entry_at (list_pop s db key false env).0 db key
        ≡ after_pop false (live env.now (entry_at s db key))
  unfolding list_pop
  after_pop_at s db key env =
      entry_at_after s db key env.now _ (pop-Local key false) db key ∙ rw (same_place db key) refl

  pop_leaves :
      (s : KvStore) (db : ℕ) (key : Bytes) (d : ℕ) (j : Bytes) (env : Env)
      → Apart db key d j
      → entry_at (list_pop s db key false env).0 d j ≡ entry_at s d j
  unfolding list_pop
  pop_leaves s db key d j env apart =
      entry_at_after s db key env.now _ (pop-Local key false) d j
      ∙ rw (Apart-test db d key j apart) refl

  push_answer :
      (s : KvStore) (db : ℕ) (key v : Bytes) (env : Env)
      → (list_push s db key (v ∷ []) true env).1
        ≡ push_reply (v ∷ []) true (live env.now (entry_at s db key))
  unfolding list_push
  push_answer s db key v env = answer s db key env.now _ (push-Local key (v ∷ []) true)

  after_push_at :
      (s : KvStore) (db : ℕ) (key v : Bytes) (env : Env)
      → entry_at (list_push s db key (v ∷ []) true env).0 db key
        ≡ after_push (v ∷ []) true (live env.now (entry_at s db key))
  unfolding list_push
  after_push_at s db key v env =
      entry_at_after s db key env.now _ (push-Local key (v ∷ []) true) db key
      ∙ rw (same_place db key) refl

  push_leaves :
      (s : KvStore) (db : ℕ) (key : Bytes) (d : ℕ) (j v : Bytes) (env : Env)
      → Apart db key d j
      → entry_at (list_push s db key (v ∷ []) true env).0 d j ≡ entry_at s d j
  unfolding list_push
  push_leaves s db key d j v env apart =
      entry_at_after s db key env.now _ (push-Local key (v ∷ []) true) d j
      ∙ rw (Apart-test db d key j apart) refl

  moves :
      (s : KvStore) (db : ℕ) (src dst v : Bytes) (env env' : Env)
      → (list_pop s db src false env).1 ≡ ok (some v)
      → (list_push (list_pop s db src false env).0 db dst (v ∷ []) true env').1 ≡ err wrong_type
      → list_rpop_lpush s db src dst env env'
        ≡ ((list_push (list_pop s db src false env).0 db dst (v ∷ []) true env').0, false, some v)
  unfolding list_rpop_lpush
  moves s db src dst v env env' taken refused = rw (taken, list_rpop_lpush) (rw (refused) refl)

  -- RPOPLPUSH onto a key of another type reports the error, but the element has left the source: the
  -- source holds what a pop leaves of it, and the destination what it held.
  pub list_rpop_lpush_loses :
      (s : KvStore) (db : ℕ) (src dst : Bytes) (e f : Entry) (x : Bytes) (xs : List Bytes)
      (env env' : Env)
      → src ≢ dst
      → live env.now (entry_at s db src) ≡ some e
      → has_type ObjType.list e ≡ true
      → e.list ≡ x ∷ xs
      → live env'.now (entry_at s db dst) ≡ some f
      → has_type ObjType.list f ≡ false
      → let r = list_rpop_lpush s db src dst env env' in
        (r.1 ≡ false)
        × (entry_at r.0 db src ≡ kept_list e (popped false x xs).0)
        × (entry_at r.0 db dst ≡ some f)
  unfolding list_rpop_lpush
  list_rpop_lpush_loses s db src dst e f x xs env env' apart seen is_list elements other not_list =
      let s' = (list_pop s db src false env).0 in
      let v = (popped false x xs).1 in
      let s'' = (list_push s' db dst (v ∷ []) true env').0 in
      let there = ap (live env'.now) (pop_leaves s db src db dst env (inr apart)) ∙ other in
      let run =
        moves s db src dst v env env'
          (pop_answer s db src env ∙ rw seen (pop_reply_last e x xs is_list elements))
          (push_answer s' db dst v env' ∙ rw there (push_reply_wrong v f not_list)) in
      (
        ap (λ r. r.1) run,
        ap (λ r. entry_at r.0 db src) run
            ∙ push_leaves s' db dst db src v env' (inr (λ e. apart (sym e)))
            ∙ after_pop_at s db src env
            ∙ rw seen (after_pop_last e x xs is_list elements),
        ap (λ r. entry_at r.0 db dst) run
            ∙ after_push_at s' db dst v env'
            ∙ rw there (after_push_wrong v f not_list),
      )
