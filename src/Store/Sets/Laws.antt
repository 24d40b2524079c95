-- ===== src/Store/Sets/Laws.antt =====
-- What a client sees of the sets.
use zero_frameworks.Base.{
  ℕ, ◌≡◌, refl, ◌∙◌, Bool, true, false, not, ◌&&◌, ◌||◌, List, [], ◌∷◌, if◌then◌else◌, Option, none,
  some, ◌==◌, arith,
}
use zero_frameworks.Base.Bytes.{Bytes}
use zero_frameworks.Base.Assoc.{lookup, insert, bytes_eq, nat_eq, test_refl, lookup-insert}
use zero_frameworks.Base.Int.{ℤ}
use zero_frameworks.Store.{
  KvStore, Entry, ObjType, DbMap, Env, StdHash, new_entry, wrong_type, Result, ok, err,
}
use zero_frameworks.Store.View.{Local, entry_at, live, entry_at_after, answer_by}
use zero_frameworks.Store.Strings.{has_type, is_some}
use zero_frameworks.Store.Strings.Deletion.{mem}
use zero_frameworks.Store.Strings.Locals.{untouched}
use zero_frameworks.Store.Sets.{
  StringSet, add_members, add_body, is_member_body, set_add, set_is_member,
}

-- Whether a key's set has a member, where the key holds a set or nothing.
unfoldable pub has_member : Bytes → Option Entry → Bool
has_member x none = false
has_member x (some e) = is_some (lookup x e.set)

abbrev pub IsStringSet : Option Entry → Type 0
IsStringSet none = Unit {0}
IsStringSet (some e) = has_type ObjType.set e ≡ true

unfoldable pub after_add : List Bytes → Option Entry → Option Entry
after_add members none =
    some (record new_entry { type = ObjType.set; set = (add_members members []).0 })
after_add members (some e) =
    if not (has_type ObjType.set e)
    then some e
    else some (record e { set = (add_members members e.set).0 })

unfoldable pub add_reply : List Bytes → Option Entry → Result ℕ
add_reply members none = ok (add_members members []).1
add_reply members (some e) =
    if not (has_type ObjType.set e) then err wrong_type else ok (add_members members e.set).1

unfoldable pub member_reply : Bytes → Option Entry → Result (Option Bool)
member_reply x none = ok none
member_reply x (some e) =
    if not (has_type ObjType.set e) then err wrong_type else ok (some (is_some (lookup x e.set)))

lookup-add_members :
    (members : List Bytes) (set : StringSet) (x : Bytes)
    → is_some (lookup x (add_members members set).0) ≡ (mem x members || is_some (lookup x set))
unfolding add_members mem
lookup-add_members [] set x = refl
lookup-add_members (y ∷ members) set x =
    lookup-add_members members (insert y tt set) x ∙ ground (arith, lookup-insert y x tt set)

abbrev no_members : StringSet
no_members = []

empty_set : (x : Bytes) → is_some (lookup x no_members) ≡ false
unfolding lookup
empty_set x = refl

module _ ⦃h : StdHash⦄ (key : Bytes) where
  add-stores :
      (members : List Bytes) (m : DbMap) (e : Option Entry) (j : Bytes)
      → lookup key m ≡ e
      → lookup j (add_body key members m e).0
        ≡ (if bytes_eq.test key j then after_add members e else lookup j m)
  unfolding add_body after_add
  add-stores members m none j found = lookup-insert key j _ m
  add-stores members m (some e) j found = ground (
    arith,
    untouched key j m (some e) found,
    lookup-insert key j (record e { set = (add_members members e.set).0 }) m,
  )

  pub add-Local :
      (members : List Bytes)
      → Local key (add_body key members) (after_add members) (add_reply members)
  add-Local members = record {
    stores = add-stores members;
    replies = λ m e. unfold add_body add_reply in ground arith;
  }

member_after_add :
    (now : ℤ) (members : List Bytes) (x : Bytes) (e : Option Entry)
    → IsStringSet (live now e)
    → member_reply x (live now (after_add members (live now e)))
      ≡ ok (some (mem x members || has_member x (live now e)))
unfolding member_reply after_add has_member live
member_after_add now members x none is_set =
    ground (arith, lookup-add_members members [] x, empty_set x)
member_after_add now members x (some e) is_set =
    ground (arith, lookup-add_members members e.set x, lookup-add_members members [] x, empty_set x)

module _ ⦃h : StdHash⦄ where
  same_place : (db : ℕ) (key : Bytes) → (db == db && bytes_eq.test key key) ≡ true
  same_place db key = ground (arith, test_refl key)

  -- SISMEMBER after SADD of at least one member: the text asked for is in the set if it was added or
  -- was there before. The key held a set or nothing, and the clock reads the same in both.
  set_is_member-set_add :
      (s : KvStore) (db : ℕ) (key first x : Bytes) (members : List Bytes) (env : Env)
      → IsStringSet (live env.now (entry_at s db key))
      → (set_is_member (set_add s db key (first ∷ members) env).0 db key x env).1
        ≡ ok (some (mem x (first ∷ members) || has_member x (live env.now (entry_at s db key))))
  unfolding set_is_member set_add
  set_is_member-set_add s db key first x members env is_set =
      answer_by _ db key env.now (is_member_body x) (member_reply x)
        (λ m e. unfold is_member_body member_reply in ground arith)
      ∙ rw (entry_at_after s db key env.now _ (add-Local key (first ∷ members)) db key) (
          rw (same_place db key)
            (member_after_add env.now (first ∷ members) x (entry_at s db key) is_set))
