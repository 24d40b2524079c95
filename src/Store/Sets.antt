-- ===== src/Store/Sets.antt =====
-- zero/kv/store/kv_store.cc: the operations on sets, `setAdd` to `setIsMember`.
pub mod Laws
use zero_frameworks.Base.{
  ℕ, zero, suc, ◌+◌, Bool, true, false, not, List, [], ◌∷◌, map, if◌then◌else◌, Option, none, some,
  length,
}
use zero_frameworks.Base.Bytes.{Bytes}
use zero_frameworks.Base.Assoc.{Assoc, lookup, insert, erase, bytes_eq}
use zero_frameworks.Store.{
  KvStore, Entry, ObjType, DbMap, Env, Body, StdHash, new_entry, Error, wrong_type, Result, ok, err,
  with_entry,
}
use zero_frameworks.Store.Strings.{has_type, is_some}

abbrev pub StringSet : Type 0
StringSet = Assoc Bytes (Unit {0})

-- The loop of `setAdd`: the set afterwards, and how many members were new.
unfoldable pub add_members : List Bytes → StringSet → StringSet × ℕ
add_members [] set = (set, 0)
add_members (x ∷ members) set =
    let (set', added) = add_members members (insert x tt set) in
    (set', if is_some (lookup x set) then added else added + 1)

-- The loop of `setRem`: the set afterwards, and how many members were there.
unfoldable pub remove_members : List Bytes → StringSet → StringSet × ℕ
remove_members [] set = (set, 0)
remove_members (x ∷ members) set =
    let (set', removed) = remove_members members (erase x set) in
    (set', if is_some (lookup x set) then removed + 1 else removed)

unfoldable pub add_body : Bytes → List Bytes → Body (Result ℕ)
unfolding add_members
add_body key members m none =
    let (set, added) = add_members members [] in
    (insert key (record new_entry { type = ObjType.set; set = set }) m, true, ok added)
add_body key members m (some e) =
    let (set, added) = add_members members e.set in
    if not (has_type ObjType.set e)
    then (m, false, err wrong_type)
    else (insert key (record e { set = set }) m, true, ok added)

-- A set that has become empty goes with its key.
unfoldable pub keep_set : Bytes → Entry → StringSet → DbMap → DbMap
keep_set key e [] m = erase key m
keep_set key e (x ∷ xs) m = insert key (record e { set = x ∷ xs }) m

unfoldable pub remove_body : Bytes → List Bytes → Body (Result ℕ)
unfolding remove_members keep_set
remove_body key members m none = (m, false, ok 0)
remove_body key members m (some e) =
    let (set, removed) = remove_members members e.set in
    if not (has_type ObjType.set e)
    then (m, false, err wrong_type)
    else (keep_set key e set m, true, ok removed)

unfoldable pub members_body : Body (Result (Option (List Bytes)))
members_body m none = (m, false, ok none)
members_body m (some e) =
    if not (has_type ObjType.set e)
    then (m, false, err wrong_type)
    else (m, false, ok (some (map (λ x. x.0) e.set)))

unfoldable pub card_body : Body (Result (Option ℕ))
card_body m none = (m, false, ok none)
card_body m (some e) =
    if not (has_type ObjType.set e)
    then (m, false, err wrong_type)
    else (m, false, ok (some (length e.set)))

-- `setIsMember`: `none` is `found = false`.
unfoldable pub is_member_body : Bytes → Body (Result (Option Bool))
is_member_body member m none = (m, false, ok none)
is_member_body member m (some e) =
    if not (has_type ObjType.set e)
    then (m, false, err wrong_type)
    else (m, false, ok (some (is_some (lookup member e.set))))

module _ ⦃h : StdHash⦄ where
  unfoldable pub set_add : KvStore → ℕ → Bytes → List Bytes → Env → KvStore × Result ℕ
  set_add s db key [] env = (s, ok 0)
  set_add s db key (x ∷ members) env = with_entry s db key env.now (add_body key (x ∷ members))

  unfoldable pub set_rem : KvStore → ℕ → Bytes → List Bytes → Env → KvStore × Result ℕ
  set_rem s db key [] env = (s, ok 0)
  set_rem s db key (x ∷ members) env = with_entry s db key env.now (remove_body key (x ∷ members))

  unfoldable pub set_members : KvStore → ℕ → Bytes → Env → KvStore × Result (Option (List Bytes))
  set_members s db key env = with_entry s db key env.now members_body

  unfoldable pub set_card : KvStore → ℕ → Bytes → Env → KvStore × Result (Option ℕ)
  set_card s db key env = with_entry s db key env.now card_body

  unfoldable pub set_is_member : KvStore → ℕ → Bytes → Bytes → Env → KvStore × Result (Option Bool)
  set_is_member s db key member env = with_entry s db key env.now (is_member_body member)
