-- ===== src/DbCache/History.antt =====
-- The cache against a history that forgets nothing: what was set last under a key, when and for how
-- long, if it was not removed since.
use zero_frameworks.Base.{
  ℕ, zero, suc, ◌+◌, ◌*◌, ◌≤◌, ◌≡◌, refl, ◌∙◌, ap, Bool, true, not, List, [], ◌∷◌, leb,
  if◌then◌else◌, Option, none, some, arith, Option-cases, inl, inr, All,
}
use zero_frameworks.Base.Bytes.{Bytes}
use zero_frameworks.Base.Assoc.{lookup, bytes_eq, lookup-insert, lookup-erase}
use zero_frameworks.Base.Int.{ℤ, pos, negsuc, ◌≤ℤ◌}
use zero_frameworks.DbCache.{Item, MemoryDbCache, is_over, get, new_item, set, remove, clear}

pub data Call : Type 0 where
  get_it : Bytes → Call
  set_it : Bytes → Bytes → ℤ → Call
  remove_it : Bytes → Call
  clear_it : Call

-- What a call at a time does to the cache.
unfoldable pub call : ℕ → Call → MemoryDbCache → MemoryDbCache
call now (Call.get_it key) m = (get key (pos now) m).0
call now (Call.set_it key value ttl_sec) m = set key value ttl_sec (pos now) m
call now (Call.remove_it key) m = remove key m
call now Call.clear_it m = clear m

unfoldable pub run : List (ℕ × Call) → MemoryDbCache → MemoryDbCache
unfolding call
run [] m = m
run ((now, c) ∷ calls) m = run calls (call now c m)

-- What was set, when, and for how many seconds.
pub record Setting : Type 0 where
  pub value : Bytes
  pub ttl_sec : ℤ
  pub at : ℕ

-- What a call means for one key: only `get` does not change it.
unfoldable pub note : Bytes → ℕ → Call → Option Setting → Option Setting
note key now (Call.get_it j) last = last
note key now (Call.set_it j value ttl_sec) last =
    if bytes_eq.test j key
    then some (record { value = value; ttl_sec = ttl_sec; at = now })
    else last
note key now (Call.remove_it j) last = if bytes_eq.test j key then none else last
note key now Call.clear_it last = none

unfoldable pub latest : Bytes → List (ℕ × Call) → Option Setting → Option Setting
unfolding note
latest key [] last = last
latest key ((now, c) ∷ calls) last = latest key calls (note key now c last)

-- A setting lasts for ever if it has no positive number of seconds, and else up to and at the time
-- that it was made at plus that many seconds.
abbrev pub lasts : ℕ → Setting → Bool
lasts end last = elim last.ttl_sec [
  | pos zero ↦ true
  | pos (suc n) ↦ leb end (last.at + 1000000000 * suc n)
  | negsuc _ ↦ true
]

abbrev pub seen : ℕ → Option Setting → Option Bytes
seen end none = none
seen end (some last) = if lasts end last then some last.value else none

-- The item that the cache makes of a setting.
item_of : Setting → Item
item_of last = new_item last.value last.ttl_sec (pos last.at)

items_of : Option Setting → Option Item
items_of none = none
items_of (some last) = some (item_of last)

-- What is seen of an item at a time.
fresh : ℤ → Option Item → Option Item
unfolding is_over
fresh now none = none
fresh now (some item) = if is_over now item then none else some item

value_of : Option Item → Option Bytes
value_of none = none
value_of (some item) = some item.value

new_item-is_over :
    (end at : ℕ) (value : Bytes) (n : ℤ)
    → is_over (pos end) (new_item value n (pos at))
      ≡ not (lasts end (record { value = value; ttl_sec = n; at = at }))
unfolding is_over new_item
new_item-is_over end at value (pos zero) = ground arith
new_item-is_over end at value (pos (suc n)) = ground arith
new_item-is_over end at value (negsuc k) = ground arith

seen_item :
    (end : ℕ) (last : Option Setting) → value_of (fresh (pos end) (items_of last)) ≡ seen end last
unfolding value_of fresh items_of item_of new_item
seen_item end none = refl
seen_item end (some last) = ground (arith, new_item-is_over end last.at last.value last.ttl_sec)

lookup-get :
    (j key : Bytes) (now : ℤ) (m : MemoryDbCache)
    → lookup key (get j now m).0
      ≡ (if bytes_eq.test j key then fresh now (lookup j m) else lookup key m)
unfolding get fresh
lookup-get j key now m = elim (Option-cases (lookup j m)) [
  | inl missing ↦ rw (missing, get) (ground (arith, bytes_eq.test_iff j key, missing))
  | inr (item, there) ↦
      rw (there, get) (ground (arith, bytes_eq.test_iff j key, there, lookup-erase j key m))
]

get_answer :
    (key : Bytes) (now : ℤ) (m : MemoryDbCache)
    → (get key now m).1 ≡ value_of (fresh now (lookup key m))
unfolding get fresh value_of
get_answer key now m = elim (Option-cases (lookup key m)) [
  | inl missing ↦ rw (missing, get) refl
  | inr (item, there) ↦ rw (there, get) (ground arith)
]

-- A `get` drops an item only when it is over, and then it stays over.
fresh_twice : (now end : ℤ) (o : Option Item) → now ≤ℤ end → fresh end (fresh now o) ≡ fresh end o
unfolding fresh is_over
fresh_twice now end none before = refl
fresh_twice now end (some item) before = ground (arith, before)

module _ (key : Bytes) (end : ℕ) where
  fresh-get :
      (now : ℕ) (j : Bytes) (m : MemoryDbCache)
      → now ≤ end
      → fresh (pos end) (lookup key (get j (pos now) m).0) ≡ fresh (pos end) (lookup key m)
  fresh-get now j m before =
      ap (fresh (pos end)) (lookup-get j key (pos now) m)
      ∙ ground (
        arith,
        bytes_eq.test_iff j key,
        fresh_twice (pos now) (pos end) (lookup j m) (omega arith),
      )

  -- The cache and the history show the same under the key at the end.
  Agree : MemoryDbCache → Option Setting → Type 0
  Agree m last = fresh (pos end) (lookup key m) ≡ fresh (pos end) (items_of last)

  call-Agree :
      (now : ℕ) (c : Call) (m : MemoryDbCache) (last : Option Setting)
      → now ≤ end
      → Agree m last
      → Agree (call now c m) (note key now c last)
  unfolding Agree call note set remove clear items_of item_of
  call-Agree now (Call.get_it j) m last before agree = fresh-get now j m before ∙ agree
  call-Agree now (Call.set_it j value ttl_sec) m last before agree =
      ap (fresh (pos end)) (lookup-insert j key (new_item value ttl_sec (pos now)) m)
      ∙ ground (arith, agree)
  call-Agree now (Call.remove_it j) m last before agree =
      ap (fresh (pos end)) (lookup-erase j key m) ∙ ground (arith, agree)
  call-Agree now Call.clear_it m last before agree = unfold lookup in refl

  run-Agree :
      (calls : List (ℕ × Call)) (m : MemoryDbCache) (last : Option Setting)
      → All (λ c. c.0 ≤ end) calls
      → Agree m last
      → Agree (run calls m) (latest key calls last)
  unfolding run latest
  run-Agree [] m last before agree = agree
  run-Agree ((now, c) ∷ calls) m last (before, all) agree =
      run-Agree calls (call now c m) (note key now c last) all
        (call-Agree now c m last before agree)

  agreed :
      (calls : List (ℕ × Call))
      → All (λ c. c.0 ≤ end) calls
      → fresh (pos end) (lookup key (run calls []))
        ≡ fresh (pos end) (items_of (latest key calls none))
  unfolding Agree lookup items_of
  agreed calls before = run-Agree calls [] none before refl

-- From the empty cache on, after every history, `get` answers with the value that was set last under
-- the key, unless it was removed since, or it was set for a positive number of seconds and these are
-- over, whatever items the reads in between dropped. No call came later than the `get`.
pub get-latest :
    (key : Bytes) (end : ℕ) (calls : List (ℕ × Call))
    → All (λ c. c.0 ≤ end) calls
    → (get key (pos end) (run calls [])).1 ≡ seen end (latest key calls none)
get-latest key end calls before =
    get_answer key (pos end) (run calls [])
    ∙ ap value_of (agreed key end calls before)
    ∙ seen_item end (latest key calls none)
