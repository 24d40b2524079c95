-- ===== src/Store/Strings/Laws.antt =====
-- What a client sees of the operations on strings and keys.
use zero_frameworks.Base.{
  ℕ, ◌+◌, ◌*◌, ◌^◌, ◌<◌, ◌≡◌, refl, ◌∙◌, ap, Bool, true, false, not, ◌&&◌, ◌||◌, if◌then◌else◌, [],
  Option, none, some, ◌==◌, leb, arith, Bool-cases, inl, inr,
}
use zero_frameworks.Base.Bytes.{Bytes}
use zero_frameworks.Base.Assoc.{bytes_eq, nat_eq, test_refl}
use zero_frameworks.Base.Int.{ℤ, pos, negsuc, ◌≤ℤ◌, wrap64_id}
use zero_frameworks.Store.{KvStore, Entry, ObjType, Env, StdHash, ok, new_entry}
use zero_frameworks.Store.View.{Apart, Apart-test, entry_at, live, entry_at_after, answer}
use zero_frameworks.Store.Evict.{evict_if_needed}
use zero_frameworks.Store.Evict.Laws.{KeptOrGone, evict_if_needed_kept, evict_unlimited}
use zero_frameworks.Store.Strings.{
  type_code, is_some, has_type, deadline, cleared, overwritten, get, set_opt, set, setex,
}
use zero_frameworks.Store.Strings.Locals.{shown, after_set, get-Local, set-Local}

module _ ⦃h : StdHash⦄ (s : KvStore) (db : ℕ) (key : Bytes) where
  pub get_answer : (env : Env) → (get s db key env).1 ≡ shown (live env.now (entry_at s db key))
  unfolding get
  get_answer env = answer s db key env.now _ (get-Local key)

  module _ (value : Bytes) (nx xx : Bool) (ex px : ℤ) (env : Env) where
    pub entry_at-set_opt :
        (d : ℕ) (j : Bytes)
        → let t = evict_if_needed env s in
          entry_at (set_opt s db key value nx xx ex px env).0 d j ≡ (
            if db == d && bytes_eq.test key j
            then after_set env.now value nx xx ex px (live env.now (entry_at t db key))
            else entry_at t d j)
    unfolding set_opt
    entry_at-set_opt d j =
        entry_at_after (evict_if_needed env s) db key env.now _
          (set-Local key env.now value nx xx ex px) d j

    pub set_opt_answer :
        let e = live env.now (entry_at (evict_if_needed env s) db key) in
        (set_opt s db key value nx xx ex px env).1
        ≡ not ((nx && is_some e) || (xx && not (is_some e)))
    unfolding set_opt
    set_opt_answer =
        answer (evict_if_needed env s) db key env.now _ (set-Local key env.now value nx xx ex px)

-- How long a value lives, in ms: EX counts seconds and goes before PX, and below 0 neither is given.
abbrev pub lifetime : ℤ → ℤ → Option ℕ
lifetime (pos n) px = some (1000 * n)
lifetime (negsuc k) (pos n) = some n
lifetime (negsuc k) (negsuc j) = none

-- The deadline of a value that is set at time `t`; 0 is none.
abbrev pub ends_at : ℕ → Option ℕ → ℕ
ends_at t none = 0
ends_at t (some ms) = t + ms

-- An entry with a new value and its deadline.
abbrev pub renewed : ℕ → Bytes → Option ℕ → Entry → Entry
renewed t value life e = record e { value = value; expire_at_ms = pos (ends_at t life) }

-- The entry that SET leaves under a key that held `seen`.
pub record Written (t : ℕ) (value : Bytes) (life : Option ℕ) (seen : Option Entry) (w : Entry)
    : Type 0 where
  pub text : w.type ≡ ObjType.string
  pub content : w.value ≡ value
  pub end : w.expire_at_ms ≡ pos (ends_at t life)
  pub absent : seen ≡ none → w ≡ renewed t value life new_entry
  pub same_type :
      (e : Entry) → seen ≡ some e → has_type ObjType.string e ≡ true → w ≡ renewed t value life e
  pub other_type :
      (e : Entry)
      → seen ≡ some e
      → has_type ObjType.string e ≡ false
      → (w.hash ≡ []) × (w.list ≡ []) × (w.set ≡ []) × (w.zset ≡ []) × (w.stream ≡ [])

deadline-ends_at :
    (t : ℕ) (ex px : ℤ)
    → ends_at t (lifetime ex px) < 2 ^ 63
    → deadline (pos t) ex px ≡ pos (ends_at t (lifetime ex px))
unfolding deadline
deadline-ends_at t (pos n) px h =
    ground (arith, wrap64_id (pos (1000 * n)) (omega arith), wrap64_id (pos (t + 1000 * n)) h)
deadline-ends_at t (negsuc k) (pos n) h = ground (arith, wrap64_id (pos (t + n)) h)
deadline-ends_at t (negsuc k) (negsuc j) h = ground arith

string_type : (e : Entry) → has_type ObjType.string e ≡ true → e.type ≡ ObjType.string
string_type e h = of_code e.type h
  where
    of_code : (x : ObjType) → (type_code x == type_code ObjType.string) ≡ true → x ≡ ObjType.string
    of_code ObjType.string h = refl
    of_code _ h = cc

of_some : {e e' : Entry} → ◌≡◌ {A = Option Entry} (some e) (some e') → e ≡ e'
of_some found = cc

overwritten-Written :
    (t : ℕ) (value : Bytes) (ex px : ℤ) (seen : Option Entry)
    → ends_at t (lifetime ex px) < 2 ^ 63
    → Written t value (lifetime ex px) seen (overwritten (pos t) value ex px seen)
unfolding overwritten cleared
overwritten-Written t value ex px none h = rw (deadline-ends_at t ex px h) (record {
  text = refl;
  content = refl;
  end = refl;
  absent = λ _. refl;
  same_type = λ e found string. cc;
  other_type = λ e found other. cc;
})
overwritten-Written t value ex px (some e) h = elim (Bool-cases (has_type ObjType.string e)) [
  | inl string ↦
      rw (string, deadline-ends_at t ex px h)
        (record {
          text = string_type e string;
          content = refl;
          end = refl;
          absent = λ missing. cc;
          same_type = λ e' found string. ap (renewed t value (lifetime ex px)) (of_some found);
          other_type =
              λ e' found other. cc (string, other, ap (has_type ObjType.string) (of_some found));
        })
  | inr other ↦
      rw (deadline-ends_at t ex px h, other)
        (record {
          text = refl;
          content = refl;
          end = refl;
          absent = λ missing. cc;
          same_type =
              λ e' found string. cc (string, other, ap (has_type ObjType.string) (of_some found));
          other_type = λ e' found _. (refl, refl, refl, refl, refl);
        })
]

-- An entry that `set` wrote is a string that never expires.
shown_written :
    (now now' : ℤ) (value : Bytes) (e : Option Entry)
    → shown (live now' (some (overwritten now value (negsuc 0) (negsuc 0) e))) ≡ ok (some value)
unfolding live overwritten
shown_written now now' value none = ground arith
shown_written now now' value (some e) = ground arith

-- With a deadline that fits, it is shown until that is reached.
shown_until :
    (t t' ttl : ℕ) (value : Bytes) (e : Option Entry)
    → 0 < t
    → t + 1000 * ttl < 2 ^ 63
    → shown (live (pos t') (some (overwritten (pos t) value (pos ttl) (negsuc 0) e)))
      ≡ (if leb (t + 1000 * ttl) t' then ok none else ok (some value))
unfolding live overwritten
shown_until t t' ttl value none h fits = ground (
  arith,
  wrap64_id (pos (1000 * ttl)) (omega arith),
  wrap64_id (pos (t + 1000 * ttl)) (omega arith),
)
shown_until t t' ttl value (some e) h fits = ground (
  arith,
  wrap64_id (pos (1000 * ttl)) (omega arith),
  wrap64_id (pos (t + 1000 * ttl)) (omega arith),
)

module _ ⦃h : StdHash⦄ where
  entry_at_written :
      (s : KvStore) (db : ℕ) (key value : Bytes) (ex : ℤ) (env : Env)
      → entry_at (set_opt s db key value false false ex (negsuc 0) env).0 db key
        ≡ some (
            overwritten env.now value ex
              (negsuc 0)
              (live env.now (entry_at (evict_if_needed env s) db key)))
  entry_at_written s db key value ex env =
      entry_at-set_opt s db key value false false ex (negsuc 0) env db key
      ∙ unfold after_set in ground (arith, test_refl key)

  -- GET after SET answers with the value that was set, at any later reading of the clock, whatever
  -- the key held before and whatever was evicted on the way.
  get-set :
      (s : KvStore) (db : ℕ) (key value : Bytes) (env env' : Env)
      → (get (set s db key value env) db key env').1 ≡ ok (some value)
  unfolding set
  get-set s db key value env env' =
      get_answer _ db key env'
      ∙ rw (entry_at_written s db key value (negsuc 0) env) (shown_written env.now env'.now value _)

  -- After SETEX with a lifetime of `ttl` seconds at time t, GET at time t' answers with the value
  -- exactly while t' lies before t + 1000 * ttl. The deadline fits `int64_t`, and the clock is past 0.
  pub get-setex :
      (s : KvStore) (db : ℕ) (key value : Bytes) (t t' ttl : ℕ) (draw draw' : ℕ → ℕ)
      → 0 < t
      → t + 1000 * ttl < 2 ^ 63
      → (get
          (setex s db key value (pos ttl) (record { now = pos t; draw = draw }))
          db
          key
          (record { now = pos t'; draw = draw' })).1
        ≡ (if leb (t + 1000 * ttl) t' then ok none else ok (some value))
  unfolding setex
  get-setex s db key value t t' ttl draw draw' past fits =
      get_answer _ db key _
      ∙ rw (entry_at_written s db key value (pos ttl) (record { now = pos t; draw = draw }))
          (shown_until t t' ttl value _ past fits)

  -- SET of one key leaves the entry of every other key and database as it is, if no memory limit is
  -- set; under a limit such an entry is as before or has been evicted.
  set_frame :
      (s : KvStore) (db d : ℕ) (key j value : Bytes) (nx xx : Bool) (ex px : ℤ) (env : Env)
      → Apart db key d j
      → KeptOrGone s (set_opt s db key value nx xx ex px env).0 d j
        × (s.maxmemory ≤ℤ pos 0
            → entry_at (set_opt s db key value nx xx ex px env).0 d j ≡ entry_at s d j)
  set_frame s db d key j value nx xx ex px env apart =
      let e = entry_at-set_opt s db key value nx xx ex px env d j in
      let other = Apart-test db d key j apart in
      (
        rw (e, other) (evict_if_needed_kept env s d j),
        λ unlimited. rw (e, other) (ap (λ t. entry_at t d j) (evict_unlimited env s unlimited)),
      )

  written_if :
      (s : KvStore) (db : ℕ) (key value : Bytes) (nx xx : Bool) (ex px : ℤ) (env : Env)
      → s.maxmemory ≤ℤ pos 0
      → let seen = live env.now (entry_at s db key) in
        let r = set_opt s db key value nx xx ex px env in
        entry_at r.0 db key ≡ (if r.1 then some (overwritten env.now value ex px seen) else seen)
  written_if s db key value nx xx ex px env unlimited =
      entry_at-set_opt s db key value nx xx ex px env db key
      ∙ rw (set_opt_answer s db key value nx xx ex px env, evict_unlimited env s unlimited)
          (unfold after_set in ground (arith, test_refl key))

  -- SET NX writes only if there is no live entry, SET XX only if there is one. A SET that writes
  -- leaves a string with the value and the deadline that its lifetime asks for, and a value of
  -- another type has lost its elements; one that is refused leaves the entry that it saw in place. No other key changes.
  -- No memory limit is set, and the deadline fits `int64_t`.
  pub set_opt_conditions :
      (s : KvStore) (db : ℕ) (key value : Bytes) (nx xx : Bool) (ex px : ℤ) (t : ℕ) (draw : ℕ → ℕ)
      → s.maxmemory ≤ℤ pos 0
      → ends_at t (lifetime ex px) < 2 ^ 63
      → let seen = live (pos t) (entry_at s db key) in
        let r = set_opt s db key value nx xx ex px (record { now = pos t; draw = draw }) in
        (r.1 ≡ not ((nx && is_some seen) || (xx && not (is_some seen))))
        × (r.1 ≡ true
            → (w : Entry) × (entry_at r.0 db key ≡ some w)
              × Written t value (lifetime ex px) seen w)
        × (r.1 ≡ false → entry_at r.0 db key ≡ seen)
        × ((d : ℕ) (j : Bytes) → Apart db key d j → entry_at r.0 d j ≡ entry_at s d j)
  set_opt_conditions s db key value nx xx ex px t draw unlimited fits =
      let env : Env = record { now = pos t; draw = draw } in
      let seen = live (pos t) (entry_at s db key) in
      let answered =
        set_opt_answer s db key value nx xx ex px env ∙ rw (evict_unlimited env s unlimited) in
      let entry = written_if s db key value nx xx ex px env unlimited in
      (
        answered,
        λ wrote. (
          overwritten (pos t) value ex px seen,
          entry ∙ rw wrote refl,
          overwritten-Written t value ex px seen fits,
        ),
        λ refused. entry ∙ rw refused refl,
        λ d j apart. (set_frame s db d key j value nx xx ex px env apart).1 unlimited,
      )
