-- ===== src/Store/Lists/Locals.antt =====
-- What a push and a pop leave under their key, and what they answer.
use zero_frameworks.Base.{
  ℕ, ◌≡◌, refl, Bool, true, false, not, List, [], ◌∷◌, ◌++◌, if◌then◌else◌, Option, none, some,
  length, arith,
}
use zero_frameworks.Base.Bytes.{Bytes}
use zero_frameworks.Base.Assoc.{lookup, bytes_eq, lookup-insert, lookup-erase}
use zero_frameworks.Base.Int.{ℤ}
use zero_frameworks.Store.{Entry, ObjType, DbMap, StdHash, new_entry, wrong_type, Result, ok, err}
use zero_frameworks.Store.View.{Local, live}
use zero_frameworks.Store.Strings.{has_type}
use zero_frameworks.Store.Strings.Locals.{untouched}
use zero_frameworks.Store.Lists.{
  pushed, push_front_all, push_back_all, push_body, split_last, popped, keep_list, pop_list,
  pop_body,
}

-- The elements under a key, where it holds a list or nothing.
abbrev pub Holds : Option Entry → List Bytes → Type 0
Holds none xs = xs ≡ []
Holds (some e) xs = (has_type ObjType.list e ≡ true) × (e.list ≡ xs)

unfoldable pub after_push : List Bytes → Bool → Option Entry → Option Entry
after_push values left none =
    some (record new_entry { type = ObjType.list; list = pushed left values [] })
after_push values left (some e) =
    if not (has_type ObjType.list e)
    then some e
    else some (record e { list = pushed left values e.list })

unfoldable pub push_reply : List Bytes → Bool → Option Entry → Result ℕ
push_reply values left none = ok (length (pushed left values []))
push_reply values left (some e) =
    if not (has_type ObjType.list e)
    then err wrong_type
    else ok (length (pushed left values e.list))

unfoldable pub kept_list : Entry → List Bytes → Option Entry
kept_list e [] = none
kept_list e (x ∷ xs) = some (record e { list = x ∷ xs })

unfoldable pub rest_of : Bool → Entry → List Bytes → Option Entry
unfolding kept_list
rest_of left e [] = some e
rest_of left e (x ∷ xs) = kept_list e (popped left x xs).0

unfoldable pub end_of : Bool → List Bytes → Result (Option Bytes)
end_of left [] = ok none
end_of left (x ∷ xs) = ok (some (popped left x xs).1)

unfoldable pub after_pop : Bool → Option Entry → Option Entry
unfolding rest_of
after_pop left none = none
after_pop left (some e) = if not (has_type ObjType.list e) then some e else rest_of left e e.list

unfoldable pub pop_reply : Bool → Option Entry → Result (Option Bytes)
unfolding end_of
pop_reply left none = ok none
pop_reply left (some e) =
    if not (has_type ObjType.list e) then err wrong_type else end_of left e.list

lookup-keep_list :
    (key j : Bytes) (e : Entry) (xs : List Bytes) (m : DbMap)
    → lookup j (keep_list key e xs m) ≡ (if bytes_eq.test key j then kept_list e xs else lookup j m)
unfolding keep_list kept_list
lookup-keep_list key j e [] m = lookup-erase key j m
lookup-keep_list key j e (x ∷ xs) m = lookup-insert key j _ m

module _ ⦃h : StdHash⦄ (key : Bytes) where
  push-stores :
      (values : List Bytes) (left : Bool) (m : DbMap) (e : Option Entry) (j : Bytes)
      → lookup key m ≡ e
      → lookup j (push_body key values left m e).0
        ≡ (if bytes_eq.test key j then after_push values left e else lookup j m)
  unfolding push_body after_push
  push-stores values left m none j found = lookup-insert key j _ m
  push-stores values left m (some e) j found = ground (
    arith,
    untouched key j m (some e) found,
    lookup-insert key j (record e { list = pushed left values e.list }) m,
  )

  pub push-Local :
      (values : List Bytes) (left : Bool)
      → Local key (push_body key values left) (after_push values left) (push_reply values left)
  push-Local values left = record {
    stores = push-stores values left;
    replies = λ m e. unfold push_body push_reply in ground arith;
  }

  pop_list-stores :
      (left : Bool) (m : DbMap) (e : Entry) (xs : List Bytes) (j : Bytes)
      → lookup key m ≡ some e
      → lookup j (pop_list key left m e xs).0
        ≡ (if bytes_eq.test key j then rest_of left e xs else lookup j m)
  unfolding pop_list rest_of
  pop_list-stores left m e [] j found = untouched key j m (some e) found
  pop_list-stores left m e (x ∷ xs) j found = lookup-keep_list key j e (popped left x xs).0 m

  pop-stores :
      (left : Bool) (m : DbMap) (e : Option Entry) (j : Bytes)
      → lookup key m ≡ e
      → lookup j (pop_body key left m e).0
        ≡ (if bytes_eq.test key j then after_pop left e else lookup j m)
  unfolding pop_body after_pop
  pop-stores left m none j found = untouched key j m none found
  pop-stores left m (some e) j found =
      ground (arith, untouched key j m (some e) found, pop_list-stores left m e e.list j found)

  pop_list-replies :
      (left : Bool) (m : DbMap) (e : Entry) (xs : List Bytes)
      → (pop_list key left m e xs).2 ≡ end_of left xs
  unfolding pop_list end_of
  pop_list-replies left m e [] = refl
  pop_list-replies left m e (x ∷ xs) = refl

  pop-replies :
      (left : Bool) (m : DbMap) (e : Option Entry) → (pop_body key left m e).2 ≡ pop_reply left e
  unfolding pop_body pop_reply
  pop-replies left m none = refl
  pop-replies left m (some e) = ground (arith, pop_list-replies left m e e.list)

  pub pop-Local : (left : Bool) → Local key (pop_body key left) (after_pop left) (pop_reply left)
  pop-Local left = record { stores = pop-stores left; replies = pop-replies left }

split_last-append : (x v : Bytes) (xs : List Bytes) → split_last x (xs ++ v ∷ []) ≡ (x ∷ xs, v)
unfolding split_last
split_last-append x v [] = refl
split_last-append x v (y ∷ ys) = rw (split_last-append y v ys) refl

end_of-pushed :
    (left : Bool) (v : Bytes) (xs : List Bytes)
    → end_of left (pushed left (v ∷ []) xs) ≡ ok (some v)
unfolding end_of pushed push_front_all push_back_all popped split_last
end_of-pushed true v xs = refl
end_of-pushed false v [] = refl
end_of-pushed false v (x ∷ xs) = rw (split_last-append x v xs) refl

pub pop_reply-after_push :
    (left : Bool) (now : ℤ) (v : Bytes) (xs : List Bytes) (e : Option Entry)
    → Holds (live now e) xs
    → pop_reply left (live now (after_push (v ∷ []) left (live now e))) ≡ ok (some v)
unfolding pop_reply after_push live
pop_reply-after_push left now v xs none holds = ground (arith, end_of-pushed left v [])
pop_reply-after_push left now v xs (some e) holds =
    ground (arith, end_of-pushed left v [], end_of-pushed left v e.list)
