-- ===== src/Store/Placed/Bodies.antt =====
-- The bodies of the commands keep the keys of a map apart.
use zero_frameworks.Base.{Bool, List, [], ◌∷◌, ◌++◌, Option, none, some, arith}
use zero_frameworks.Base.Bytes.{Bytes}
use zero_frameworks.Base.Assoc.{Assoc, insert, erase, bytes_eq, Unique, insert-Unique, erase-Unique}
use zero_frameworks.Base.Int.{ℤ, pos, ◌+ℤ◌, wrap64}
use zero_frameworks.Base.Decimal.{to_string}
use zero_frameworks.Store.{Entry, DbMap, ObjType, new_entry}
use zero_frameworks.Store.Strings.{
  get_body, exists_body, type_body, set_body, overwritten, persist_body, incr_string, incr_body,
  append_body, strlen_body, parse_integer_value,
}
use zero_frameworks.Store.Expiry.{expire_body}
use zero_frameworks.Store.Lists.{pushed, push_body, keep_list, popped, pop_list, pop_body}
use zero_frameworks.Store.Hashes.{hset_body, hget_body, keep_hash, hdel_body}
use zero_frameworks.Store.Sets.{add_members, add_body, is_member_body}
use zero_frameworks.Store.Placed.{Tidy}

pub get-Tidy : Tidy get_body
unfolding get_body
get-Tidy m none u = u
get-Tidy m (some e) u = ground (arith, u)

pub exists-Tidy : Tidy exists_body
unfolding exists_body
exists-Tidy m e u = u

pub type-Tidy : Tidy type_body
unfolding type_body
type-Tidy m none u = u
type-Tidy m (some e) u = u

pub hget-Tidy : (field : Bytes) → Tidy (hget_body field)
unfolding hget_body
hget-Tidy field m none u = u
hget-Tidy field m (some e) u = ground (arith, u)

pub is_member-Tidy : (x : Bytes) → Tidy (is_member_body x)
unfolding is_member_body
is_member-Tidy x m none u = u
is_member-Tidy x m (some e) u = ground (arith, u)

module _ (key : Bytes) where
  pub strlen-Tidy : (now : ℤ) → Tidy (strlen_body now key)
  unfolding strlen_body
  strlen-Tidy now m none u = u
  strlen-Tidy now m (some e) u =
      ground (arith, u, insert-Unique key (record e { lru_ms = now }) m u)

  pub persist-Tidy : Tidy (persist_body key)
  unfolding persist_body
  persist-Tidy m none u = u
  persist-Tidy m (some e) u = insert-Unique key (record e { expire_at_ms = pos 0 }) m u

  pub set-Tidy :
      (now : ℤ) (value : Bytes) (nx xx : Bool) (ex px : ℤ)
      → Tidy (set_body now key value nx xx ex px)
  unfolding set_body
  set-Tidy now value nx xx ex px m e u =
      ground (arith, u, insert-Unique key (overwritten now value ex px e) m u)

  incr_string-Tidy :
      (delta : ℤ) (m : DbMap) (e : Entry) (n : Option ℤ)
      → Unique m
      → Unique (incr_string key delta m e n).0
  unfolding incr_string
  incr_string-Tidy delta m e none u = u
  incr_string-Tidy delta m e (some n) u =
      insert-Unique key (record e { value = to_string (wrap64 (n +ℤ delta)) }) m u

  pub incr-Tidy : (delta : ℤ) → Tidy (incr_body key delta)
  unfolding incr_body
  incr-Tidy delta m none u = insert-Unique key (record new_entry { value = to_string delta }) m u
  incr-Tidy delta m (some e) u =
      ground (arith, u, incr_string-Tidy delta m e (parse_integer_value e.value) u)

  pub append-Tidy : (now : ℤ) (value : Bytes) → Tidy (append_body now key value)
  unfolding append_body
  append-Tidy now value m none u =
      insert-Unique key (record new_entry { value = value; lru_ms = now }) m u
  append-Tidy now value m (some e) u =
      ground (arith, u, insert-Unique key (record e { value = e.value ++ value; lru_ms = now }) m u)

  pub expire-Tidy : (amount at : ℤ) → Tidy (expire_body key amount at)
  unfolding expire_body
  expire-Tidy amount at m none u = u
  expire-Tidy amount at m (some e) u =
      ground
        (arith, u, erase-Unique key m u, insert-Unique key (record e { expire_at_ms = at }) m u)

  pub push-Tidy : (values : List Bytes) (left : Bool) → Tidy (push_body key values left)
  unfolding push_body
  push-Tidy values left m none u =
      insert-Unique key (record new_entry { type = ObjType.list; list = pushed left values [] }) m u
  push-Tidy values left m (some e) u =
      ground (arith, u, insert-Unique key (record e { list = pushed left values e.list }) m u)

  keep_list-Unique :
      (e : Entry) (xs : List Bytes) (m : DbMap) → Unique m → Unique (keep_list key e xs m)
  unfolding keep_list
  keep_list-Unique e [] m u = erase-Unique key m u
  keep_list-Unique e (x ∷ xs) m u = insert-Unique key (record e { list = x ∷ xs }) m u

  pop_list-Unique :
      (left : Bool) (m : DbMap) (e : Entry) (xs : List Bytes)
      → Unique m
      → Unique (pop_list key left m e xs).0
  unfolding pop_list
  pop_list-Unique left m e [] u = u
  pop_list-Unique left m e (x ∷ xs) u = keep_list-Unique e (popped left x xs).0 m u

  pub pop-Tidy : (left : Bool) → Tidy (pop_body key left)
  unfolding pop_body
  pop-Tidy left m none u = u
  pop-Tidy left m (some e) u = ground (arith, u, pop_list-Unique left m e e.list u)

  pub hset-Tidy : (field value : Bytes) → Tidy (hset_body key field value)
  unfolding hset_body
  hset-Tidy field value m none u =
      insert-Unique key (record new_entry { type = ObjType.hash; hash = (field, value) ∷ [] }) m u
  hset-Tidy field value m (some e) u =
      ground (arith, u, insert-Unique key (record e { hash = insert field value e.hash }) m u)

  keep_hash-Unique :
      (e : Entry) (fs : Assoc Bytes Bytes) (m : DbMap) → Unique m → Unique (keep_hash key e fs m)
  unfolding keep_hash
  keep_hash-Unique e [] m u = erase-Unique key m u
  keep_hash-Unique e (f ∷ fs) m u = insert-Unique key (record e { hash = f ∷ fs }) m u

  pub hdel-Tidy : (field : Bytes) → Tidy (hdel_body key field)
  unfolding hdel_body
  hdel-Tidy field m none u = u
  hdel-Tidy field m (some e) u = ground (arith, u, keep_hash-Unique e (erase field e.hash) m u)

  pub add-Tidy : (members : List Bytes) → Tidy (add_body key members)
  unfolding add_body
  add-Tidy members m none u =
      insert-Unique key (record new_entry { type = ObjType.set; set = (add_members members []).0 })
        m u
  add-Tidy members m (some e) u =
      ground (arith, u, insert-Unique key (record e { set = (add_members members e.set).0 }) m u)
