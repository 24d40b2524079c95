-- ===== src/Store/Scan/Pages.antt =====
-- A whole SCAN: the calls that a client makes until the cursor is 0 again.
use zero_frameworks.Base.{
  ℕ, zero, suc, ◌+◌, ◌-◌, ◌≤◌, ◌<◌, ◌≡◌, ◌∙◌, sym, refl, ap, fun_ext, List, [], ◌∷◌, ◌++◌,
  if◌then◌else◌, Option, none, some, ◌==◌, leb, length, take, drop, arith, Bool-cases, Option-cases,
  inl, inr, append-nil, ◌⊎◌,
}
use zero_frameworks.Base.Bytes.{Bytes}
use zero_frameworks.Base.Assoc.{lookup, nat_eq, lookup-insert}
use zero_frameworks.Base.Int.{ℤ}
use zero_frameworks.Store.{KvStore, DbMap, Env, put_db, set_shard}
use zero_frameworks.Store.Evict.{shard_ids}
use zero_frameworks.Store.Scan.{
  sort, purge_expired_db, collect_keys, collect_shards, keys, ScanResult, page, count_or_10, scan,
}
use zero_frameworks.Store.Scan.Purge.{purge_again}

abbrev purged_map : ℤ → Option DbMap → Option DbMap
purged_map now none = none
purged_map now (some m) = some (purge_expired_db now m)

-- What a loop over the shards sees of a database.
unfoldable view : ℤ → ℕ → KvStore → ℕ → Option DbMap
view now db s i = purged_map now (lookup db (s.shards i).dbs)

view-purged :
    (now : ℤ) (db i : ℕ) (m : DbMap) (s : KvStore)
    → lookup db (s.shards i).dbs ≡ some m
    → (j : ℕ)
    → view now db (set_shard i (put_db db (purge_expired_db now m) (s.shards i)) s) j
      ≡ view now db s j
unfolding view set_shard put_db
view-purged now db i m s found j = ground (
  arith,
  found,
  ap s.shards {x = i} {y = j},
  lookup-insert db db (purge_expired_db now m) (s.shards i).dbs,
  purge_again now m,
)

view-collect_shards :
    (now : ℤ) (db : ℕ) (pattern : Bytes) (is : List ℕ) (s : KvStore) (out : List Bytes)
    → view now db (collect_shards now db pattern is s out).0 ≡ view now db s
unfolding collect_shards
view-collect_shards now db pattern [] s out = refl
view-collect_shards now db pattern (i ∷ is) s out =
    elim (Option-cases (lookup db (s.shards i).dbs)) [
      | inl missing ↦ rw (missing, collect_shards) (view-collect_shards now db pattern is s out)
      | inr (m, found) ↦
          rw (found, collect_shards)
            (view-collect_shards now db pattern is
                (set_shard i (put_db db (purge_expired_db now m) (s.shards i)) s)
                (collect_keys (purge_expired_db now m) now pattern out)
              ∙ fun_ext (view-purged now db i m s found))
    ]

-- What is collected depends on the view alone.
collected : ℤ → Bytes → Option DbMap → List Bytes → List Bytes
collected now pattern none out = out
collected now pattern (some m) out = collect_keys m now pattern out

collect_view : ℤ → Bytes → List ℕ → (ℕ → Option DbMap) → List Bytes → List Bytes
unfolding collected
collect_view now pattern [] v out = out
collect_view now pattern (i ∷ is) v out =
    collect_view now pattern is v (collected now pattern (v i) out)

collect_shards-view :
    (now : ℤ) (db : ℕ) (pattern : Bytes) (is : List ℕ) (s : KvStore) (out : List Bytes)
    → (collect_shards now db pattern is s out).1 ≡ collect_view now pattern is (view now db s) out
unfolding collect_shards collect_view view collected
collect_shards-view now db pattern [] s out = refl
collect_shards-view now db pattern (i ∷ is) s out =
    elim (Option-cases (lookup db (s.shards i).dbs)) [
      | inl missing ↦ rw (missing, collect_shards) (collect_shards-view now db pattern is s out)
      | inr (m, found) ↦
          let s' = set_shard i (put_db db (purge_expired_db now m) (s.shards i)) s in
          let out' = collect_keys (purge_expired_db now m) now pattern out in
          rw (found, collect_shards)
            (collect_shards-view now db pattern is s' out'
              ∙ ap (λ v. collect_view now pattern is v out')
                  (fun_ext (view-purged now db i m s found)))
    ]

-- The keys that a scan pages through are the same after it.
keys_again :
    (s : KvStore) (db : ℕ) (pattern : Bytes) (env : Env)
    → (keys (keys s db pattern env).0 db pattern env).1 ≡ (keys s db pattern env).1
unfolding keys
keys_again s db pattern env =
    let s' = (collect_shards env.now db pattern shard_ids s []).0 in
    ap sort (
      collect_shards-view env.now db pattern shard_ids s' []
      ∙ ap (λ v. collect_view env.now pattern shard_ids v [])
          (view-collect_shards env.now db pattern shard_ids s [])
      ∙ sym (collect_shards-view env.now db pattern shard_ids s []))

abbrev joined : List Bytes → Option (List Bytes) → Option (List Bytes)
joined page none = none
joined page (some rest) = some (page ++ rest)

-- A client that calls `scan` until the cursor is 0, and puts the pages together.
unfoldable pub scan_all : ℕ → KvStore → ℕ → ℕ → Bytes → ℤ → Env → Option (List Bytes)
unfolding scan
scan_all zero s db cursor pattern count env = none
scan_all (suc calls) s db cursor pattern count env =
    let (s', r) = scan s db cursor pattern count env in
    let later = scan_all calls s' db r.cursor pattern count env in
    if r.cursor == 0 then some r.keys else joined r.keys later

scan_all-page :
    (calls : ℕ) (s : KvStore) (db cursor : ℕ) (pattern : Bytes) (count : ℤ) (env : Env)
    → let r = page (keys s db pattern env).1 cursor (count_or_10 count) in
      scan_all (suc calls) s db cursor pattern count env ≡ (
        if r.cursor == 0
        then some r.keys
        else joined r.keys (scan_all calls (keys s db pattern env).0 db r.cursor pattern count env))
unfolding scan_all scan keys
scan_all-page calls s db cursor pattern count env = refl

count_positive : (count : ℤ) → 0 < count_or_10 count
count_positive (ℤ.pos zero) = omega arith
count_positive (ℤ.pos (suc n)) = omega arith
count_positive (ℤ.negsuc n) = omega arith

drop-nil : (n : ℕ) → drop {A = Bytes} n [] ≡ []
drop-nil zero = refl
drop-nil (suc n) = refl

take-nil : (n : ℕ) → take {A = Bytes} n [] ≡ []
take-nil zero = refl
take-nil (suc n) = refl

drop_beyond : (n : ℕ) (all : List Bytes) → length all ≤ n → drop n all ≡ []
drop_beyond n [] h = drop-nil n
drop_beyond zero (x ∷ all) h = absurd (omega arith)
drop_beyond (suc n) (x ∷ all) h = drop_beyond n all (omega arith)

take-drop-start : (n : ℕ) (all : List Bytes) → take n all ++ drop n all ≡ all
take-drop-start zero all = refl
take-drop-start (suc n) [] = refl
take-drop-start (suc n) (x ∷ all) = ap (λ xs. x ∷ xs) (take-drop-start n all)

take-drop :
    (n cursor end : ℕ) (all : List Bytes)
    → end ≡ cursor + n
    → take n (drop cursor all) ++ drop end all ≡ drop cursor all
take-drop n zero end all h =
    ap (λ k. take n all ++ drop k all) (omega (arith, h)) ∙ take-drop-start n all
take-drop n (suc cursor) end [] h = rw (take-nil n, drop-nil end) refl
take-drop n (suc cursor) zero (x ∷ all) h = absurd (omega (arith, h))
take-drop n (suc cursor) (suc end) (x ∷ all) h = take-drop n cursor end all (omega (arith, h))

-- A page is the last one, with all that is left, or leaves the rest behind its cursor.
abbrev Turned : List Bytes → ℕ → ℕ → ScanResult → Type 0
Turned all cursor n r =
    ((r.cursor ≡ 0) × (r.keys ≡ drop cursor all))
    ⊎ ((r.cursor ≡ cursor + n)
        × (cursor + n < length all)
        × (r.keys ++ drop (cursor + n) all ≡ drop cursor all))

page-cases : (all : List Bytes) (cursor n : ℕ) → 0 < n → Turned all cursor n (page all cursor n)
unfolding page
page-cases all cursor n h = elim (Bool-cases (leb (length all) cursor)) [
  | inl past ↦ inl (ground (arith, past), ground (arith, past, drop_beyond cursor all))
  | inr inside ↦ elim (Bool-cases (leb (length all) (cursor + n))) [
    | inl last ↦
        let left = length all - cursor in
        let shown : (page all cursor n).keys ≡ take left (drop cursor all) =
          ground (arith, inside, last) in
        let none_behind : drop (length all) all ≡ [] = drop_beyond (length all) all (omega arith) in
        inl (
          ground (arith, inside, last),
          shown
              ∙ sym (append-nil (take left (drop cursor all)))
              ∙ ap (λ rest. take left (drop cursor all) ++ rest) (sym none_behind)
              ∙ take-drop left cursor (length all) all (ground (arith, inside)),
        )
    | inr more ↦
        let shown : (page all cursor n).keys ≡ take n (drop cursor all) =
          ground (arith, inside, more) in
        inr (
          ground (arith, inside, more),
          ground (arith, more),
          ap (λ keys. keys ++ drop (cursor + n) all) shown
              ∙ take-drop n cursor (cursor + n) all refl,
        )
  ]
]

scan_all-from :
    (calls : ℕ) (s : KvStore) (db cursor : ℕ) (pattern : Bytes) (count : ℤ) (env : Env)
    → cursor ≤ length (keys s db pattern env).1
    → length (keys s db pattern env).1 < cursor + calls
    → scan_all calls s db cursor pattern count env ≡ some (drop cursor (keys s db pattern env).1)
scan_all-from zero s db cursor pattern count env within h = absurd (omega (arith, within, h))
scan_all-from (suc calls) s db cursor pattern count env within h =
    let all = (keys s db pattern env).1 in
    let s' = (keys s db pattern env).0 in
    let n = count_or_10 count in
    let r = page all cursor n in
    let again = keys_again s db pattern env in
    scan_all-page calls s db cursor pattern count env
    ∙ elim (page-cases all cursor n (count_positive count)) [
      | inl (ended, rest) ↦ ground (arith, ended, rest)
      | inr (onward, inside, rest) ↦
          let later : scan_all calls s' db r.cursor pattern count env
              ≡ some (drop r.cursor (keys s' db pattern env).1) =
            scan_all-from calls s' db r.cursor pattern count env
              (ground (arith, onward, inside, again))
              (ground (arith, onward, inside, again, h, count_positive count)) in
          ground (arith, onward, inside, rest, later, again, count_positive count)
    ]

-- A client that keeps its pattern and calls SCAN until the cursor is 0 again is shown the keys that
-- KEYS lists, all of them once and in order, in at most one call more than there are keys. The store
-- is not written to between the calls, and the clock reads the same.
pub scan_all-keys :
    (s : KvStore) (db : ℕ) (pattern : Bytes) (count : ℤ) (env : Env)
    → scan_all (suc (length (keys s db pattern env).1)) s db 0 pattern count env
      ≡ some (keys s db pattern env).1
scan_all-keys s db pattern count env =
    scan_all-from (suc (length (keys s db pattern env).1)) s db 0 pattern count env (omega arith)
      (omega arith)
