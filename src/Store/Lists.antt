-- ===== src/Store/Lists.antt =====
-- zero/kv/store/kv_store.cc: the operations on lists that are in that file; `listRem` is in Store.Lists.Remove.
pub mod Remove
pub mod Locals
pub mod Range
pub mod Laws
use zero_frameworks.Base.{
  ℕ, zero, suc, ◌+◌, ◌-◌, Bool, true, false, not, ◌&&◌, ◌||◌, List, [], ◌∷◌, ◌++◌, if◌then◌else◌,
  Option, none, some, ◌==◌, ltb, length, get_or,
}
use zero_frameworks.Base.Bytes.{Bytes, beq}
use zero_frameworks.Base.Assoc.{insert, erase, bytes_eq}
use zero_frameworks.Base.Int.{ℤ, pos, negsuc, pos_part, ltb_ℤ, leb_ℤ, ◌+ℤ◌}
use zero_frameworks.Store.{
  KvStore, Entry, ObjType, DbMap, Env, Body, StdHash, new_entry, Error, wrong_type, no_such_key,
  index_out_of_range, Result, ok, err, with_entry,
}
use zero_frameworks.Store.Strings.{has_type}

-- `normalizeListRange` on a list that is not empty: the new `start`, and the new `stop`.
unfoldable pub range_start : ℕ → ℤ → ℤ
range_start len start =
    let start' = if ltb_ℤ start (pos 0) then pos len +ℤ start else start in
    if ltb_ℤ start' (pos 0) then pos 0 else start'

unfoldable pub range_stop : ℕ → ℤ → ℤ
range_stop len stop =
    let stop' = if ltb_ℤ stop (pos 0) then pos len +ℤ stop else stop in
    if leb_ℤ (pos len) stop' then pos (len - 1) else stop'

unfoldable pub normalize_list_range : ℕ → ℤ → ℤ → ℤ × ℤ
unfolding range_start range_stop
normalize_list_range len start stop =
    if len == 0 then (pos 0, negsuc 0) else (range_start len start, range_stop len stop)

-- `for(i = start; i <= stop; ++i)`: the elements from an index on, by the number of rounds.
unfoldable pub copy_range : List Bytes → ℕ → ℕ → List Bytes
copy_range xs i zero = []
copy_range xs i (suc rounds) = get_or xs i [] ∷ copy_range xs (suc i) rounds

-- The elements that `listRange` answers with and `listTrim` keeps.
unfoldable pub between : List Bytes → ℤ → ℤ → List Bytes
unfolding copy_range
between xs a b =
    if ltb_ℤ b a || length xs == 0
    then []
    else copy_range xs (pos_part a) (pos_part b - pos_part a + 1)

unfoldable pub range_of : List Bytes → ℤ → ℤ → List Bytes
unfolding normalize_list_range between
range_of xs start stop = let (a, b) = normalize_list_range (length xs) start stop in between xs a b

unfoldable pub push_front_all : List Bytes → List Bytes → List Bytes
push_front_all [] xs = xs
push_front_all (v ∷ vs) xs = push_front_all vs (v ∷ xs)

unfoldable pub push_back_all : List Bytes → List Bytes → List Bytes
push_back_all [] xs = xs
push_back_all (v ∷ vs) xs = push_back_all vs (xs ++ v ∷ [])

unfoldable pub pushed : Bool → List Bytes → List Bytes → List Bytes
unfolding push_front_all push_back_all
pushed left values xs = if left then push_front_all values xs else push_back_all values xs

unfoldable pub push_body : Bytes → List Bytes → Bool → Body (Result ℕ)
unfolding pushed
push_body key values left m none =
    let xs = pushed left values [] in
    (insert key (record new_entry { type = ObjType.list; list = xs }) m, true, ok (length xs))
push_body key values left m (some e) =
    let xs = pushed left values e.list in
    if not (has_type ObjType.list e)
    then (m, false, err wrong_type)
    else (insert key (record e { list = xs }) m, true, ok (length xs))

-- `back` and `pop_back` of a list that begins with the given element.
unfoldable pub split_last : Bytes → List Bytes → List Bytes × Bytes
split_last x [] = ([], x)
split_last x (y ∷ ys) = let (front, last) = split_last y ys in (x ∷ front, last)

unfoldable pub popped : Bool → Bytes → List Bytes → List Bytes × Bytes
unfolding split_last
popped true x xs = (xs, x)
popped false x xs = split_last x xs

-- A list that has become empty goes with its key.
unfoldable pub keep_list : Bytes → Entry → List Bytes → DbMap → DbMap
keep_list key e [] m = erase key m
keep_list key e (x ∷ xs) m = insert key (record e { list = x ∷ xs }) m

unfoldable pub pop_list :
    Bytes → Bool → DbMap → Entry → List Bytes → DbMap × Bool × Result (Option Bytes)
unfolding popped keep_list
pop_list key left m e [] = (m, false, ok none)
pop_list key left m e (x ∷ xs) =
    let (rest, value) = popped left x xs in (keep_list key e rest m, true, ok (some value))

unfoldable pub pop_body : Bytes → Bool → Body (Result (Option Bytes))
unfolding pop_list
pop_body key left m none = (m, false, ok none)
pop_body key left m (some e) =
    if not (has_type ObjType.list e)
    then (m, false, err wrong_type)
    else pop_list key left m e e.list

unfoldable pub len_body : Body (Result (Option ℕ))
len_body m none = (m, false, ok none)
len_body m (some e) =
    if not (has_type ObjType.list e)
    then (m, false, err wrong_type)
    else (m, false, ok (some (length e.list)))

unfoldable pub range_body : ℤ → ℤ → Body (Result (Option (List Bytes)))
unfolding range_of
range_body start stop m none = (m, false, ok none)
range_body start stop m (some e) =
    if not (has_type ObjType.list e)
    then (m, false, err wrong_type)
    else (m, false, ok (some (range_of e.list start stop)))

-- An index from either end, as `listIndex` and `listSet` read it.
unfoldable pub resolve_index : ℕ → ℤ → Option ℕ
resolve_index len index =
    let i = if ltb_ℤ index (pos 0) then pos len +ℤ index else index in
    if ltb_ℤ i (pos 0) || leb_ℤ (pos len) i then none else some (pos_part i)

abbrev element : List Bytes → Option ℕ → Option Bytes
element xs none = none
element xs (some i) = some (get_or xs i [])

unfoldable pub index_body : ℤ → Bytes → ℤ → Body (Result (Option Bytes))
unfolding resolve_index
index_body now key index m none = (m, false, ok none)
index_body now key index m (some e) =
    if not (has_type ObjType.list e) then (m, false, err wrong_type) else (
      insert key (record e { lru_ms = now }) m,
      false,
      ok (element e.list (resolve_index (length e.list) index)),
    )

-- `listTrim`: 1 when the list is there, 0 when it is not.
unfoldable pub trim_body : ℤ → Bytes → ℤ → ℤ → Body (Result ℕ)
unfolding range_of keep_list
trim_body now key start stop m none = (m, false, ok 0)
trim_body now key start stop m (some e) =
    if not (has_type ObjType.list e)
    then (m, false, err wrong_type)
    else (keep_list key (record e { lru_ms = now }) (range_of e.list start stop) m, true, ok 1)

pub replace_at : ℕ → Bytes → List Bytes → List Bytes
replace_at i value [] = []
replace_at zero value (x ∷ xs) = value ∷ xs
replace_at (suc i) value (x ∷ xs) = x ∷ replace_at i value xs

set_element : ℤ → Bytes → Bytes → DbMap → Entry → Option ℕ → DbMap × Bool × Result Bool
unfolding replace_at
set_element now key value m e none = (m, false, err index_out_of_range)
set_element now key value m e (some i) =
    (insert key (record e { list = replace_at i value e.list; lru_ms = now }) m, true, ok true)

unfoldable pub list_set_body : ℤ → Bytes → ℤ → Bytes → Body (Result Bool)
unfolding set_element resolve_index
list_set_body now key index value m none = (m, false, err no_such_key)
list_set_body now key index value m (some e) =
    if not (has_type ObjType.list e)
    then (m, false, err wrong_type)
    else set_element now key value m e (resolve_index (length e.list) index)

module _ ⦃h : StdHash⦄ where
  unfoldable pub list_push : KvStore → ℕ → Bytes → List Bytes → Bool → Env → KvStore × Result ℕ
  list_push s db key [] left env = (s, ok 0)
  list_push s db key (v ∷ vs) left env = with_entry s db key env.now (push_body key (v ∷ vs) left)

  unfoldable pub list_pop : KvStore → ℕ → Bytes → Bool → Env → KvStore × Result (Option Bytes)
  list_pop s db key left env = with_entry s db key env.now (pop_body key left)

  unfoldable pub list_len : KvStore → ℕ → Bytes → Env → KvStore × Result (Option ℕ)
  list_len s db key env = with_entry s db key env.now len_body

  unfoldable pub list_range :
      KvStore → ℕ → Bytes → ℤ → ℤ → Env → KvStore × Result (Option (List Bytes))
  list_range s db key start stop env = with_entry s db key env.now (range_body start stop)

  unfoldable pub list_index : KvStore → ℕ → Bytes → ℤ → Env → KvStore × Result (Option Bytes)
  list_index s db key index env = with_entry s db key env.now (index_body env.now key index)

  unfoldable pub list_trim : KvStore → ℕ → Bytes → ℤ → ℤ → Env → KvStore × Result ℕ
  list_trim s db key start stop env = with_entry s db key env.now (trim_body env.now key start stop)

  unfoldable pub list_set : KvStore → ℕ → Bytes → ℤ → Bytes → Env → KvStore × Result Bool
  list_set s db key index value env =
      with_entry s db key env.now (list_set_body env.now key index value)

  -- `listRPopLPush`: what it returns, and the element in `value_out`. Each half reads the clock.
  unfoldable pub list_rpop_lpush :
      KvStore → ℕ → Bytes → Bytes → Env → Env → KvStore × Bool × Option Bytes
  unfolding list_pop list_push
  list_rpop_lpush s db src dst env env' =
      let (s', r) = list_pop s db src false env in
      elim r [
        | err e ↦ (s', true, none)
        | ok none ↦ (s', true, none)
        | ok (some value) ↦
            let (s'', n) = list_push s' db dst (value ∷ []) true env' in
            elim n [ err e ↦ (s'', false, some value) | ok k ↦ (s'', true, some value) ]
      ]
