-- ===== src/Store/Strings/Locals.antt =====
-- Each body reads and writes the entry of its key alone: what it leaves there, and its answer.
use zero_frameworks.Base.{
  ℕ, ◌≡◌, refl, Bool, not, ◌&&◌, ◌||◌, ◌++◌, if◌then◌else◌, Option, none, some, length, arith,
  Option-cases, inl, inr,
}
use zero_frameworks.Base.Bytes.{Bytes, codes}
use zero_frameworks.Base.Assoc.{lookup, bytes_eq, lookup-insert}
use zero_frameworks.Base.Int.{ℤ, pos, ◌+ℤ◌, wrap64}
use zero_frameworks.Base.Decimal.{to_string}
use zero_frameworks.Store.{
  Entry, ObjType, DbMap, StdHash, new_entry, wrong_type, not_integer, Result, ok, err,
}
use zero_frameworks.Store.View.{Local}
use zero_frameworks.Store.Strings.{
  has_type, is_some, get_body, exists_body, type_body, type_name, set_body, overwritten,
  persist_body, incr_body, parse_integer_value, append_body, strlen_body,
}

-- A string entry as `get` answers it.
abbrev pub shown : Option Entry → Result (Option Bytes)
shown none = ok none
shown (some e) = if not (has_type ObjType.string e) then err wrong_type else ok (some e.value)

-- What `lookup` finds in a map that was left alone, and in one with the key's entry replaced.
pub untouched :
    (key j : Bytes) (m : DbMap) (e : Option Entry)
    → lookup key m ≡ e
    → lookup j m ≡ (if bytes_eq.test key j then e else lookup j m)
untouched key j m e h = ground (arith, bytes_eq.test_iff key j)

unfoldable pub after_persist : Option Entry → Option Entry
after_persist none = none
after_persist (some e) = some (record e { expire_at_ms = pos 0 })

unfoldable pub after_set : ℤ → Bytes → Bool → Bool → ℤ → ℤ → Option Entry → Option Entry
after_set now value nx xx ex px e =
    if (nx && is_some e) || (xx && not (is_some e)) then e else some (overwritten now value ex px e)

incremented : ℤ → Entry → Option ℤ → Entry
incremented delta e none = e
incremented delta e (some cur) = record e { value = to_string (wrap64 (cur +ℤ delta)) }

unfoldable pub after_incr : ℤ → Option Entry → Option Entry
unfolding incremented
after_incr delta none = some (record new_entry { value = to_string delta })
after_incr delta (some e) =
    if not (has_type ObjType.string e)
    then some e
    else some (incremented delta e (parse_integer_value e.value))

sum_reply : ℤ → Option ℤ → Result ℤ
sum_reply delta none = err not_integer
sum_reply delta (some cur) = ok (wrap64 (cur +ℤ delta))

unfoldable pub incr_reply : ℤ → Option Entry → Result ℤ
unfolding sum_reply
incr_reply delta none = ok delta
incr_reply delta (some e) =
    if not (has_type ObjType.string e)
    then err wrong_type
    else sum_reply delta (parse_integer_value e.value)

unfoldable pub after_append : ℤ → Bytes → Option Entry → Option Entry
after_append now value none = some (record new_entry { value = value; lru_ms = now })
after_append now value (some e) =
    if not (has_type ObjType.string e)
    then some e
    else some (record e { value = e.value ++ value; lru_ms = now })

unfoldable pub append_reply : Bytes → Option Entry → Result ℕ
append_reply value none = ok (length value)
append_reply value (some e) =
    if not (has_type ObjType.string e) then err wrong_type else ok (length (e.value ++ value))

unfoldable pub after_strlen : ℤ → Option Entry → Option Entry
after_strlen now none = none
after_strlen now (some e) =
    if not (has_type ObjType.string e) then some e else some (record e { lru_ms = now })

unfoldable pub strlen_reply : Option Entry → Result (Option ℕ)
strlen_reply none = ok none
strlen_reply (some e) =
    if not (has_type ObjType.string e) then err wrong_type else ok (some (length e.value))

module _ ⦃h : StdHash⦄ (key : Bytes) where
  pub get-Local : Local key get_body (λ e. e) shown
  get-Local = record {
    stores = λ m e j found. unfold get_body in ground (arith, untouched key j m e found);
    replies = λ m e. unfold get_body in ground arith;
  }

  pub exists-Local : Local key exists_body (λ e. e) is_some
  exists-Local = record {
    stores = λ m e j found. unfold exists_body in untouched key j m e found;
    replies = λ m e. unfold exists_body in refl;
  }

  pub set-Local :
      (now : ℤ) (value : Bytes) (nx xx : Bool) (ex px : ℤ)
      → Local key
          (set_body now key value nx xx ex px)
          (after_set now value nx xx ex px)
          (λ e. not ((nx && is_some e) || (xx && not (is_some e))))
  set-Local now value nx xx ex px = record {
    stores = λ m e j found.
        unfold set_body after_set in
        ground
          (arith, untouched key j m e found, lookup-insert key j (overwritten now value ex px e) m);
    replies = λ m e. unfold set_body in ground arith;
  }

  pub type-Local :
      Local key type_body (λ e. e) (λ e. elim e [ none ↦ codes "none" | some x ↦ type_name x.type ])
  type-Local = record {
    stores = λ m e j found. unfold type_body in ground (arith, untouched key j m e found);
    replies = λ m e. unfold type_body in ground arith;
  }

  persist-stores :
      (m : DbMap) (e : Option Entry) (j : Bytes)
      → lookup key m ≡ e
      → lookup j (persist_body key m e).0
        ≡ (if bytes_eq.test key j then after_persist e else lookup j m)
  unfolding persist_body after_persist
  persist-stores m none j found = untouched key j m none found
  persist-stores m (some e) j found = lookup-insert key j _ m

  pub persist-Local :
      Local key (persist_body key) after_persist (λ e. if is_some e then pos 1 else pos 0)
  persist-Local = record {
    stores = persist-stores;
    replies = λ m e. unfold persist_body in ground arith;
  }

  incr-stores :
      (delta : ℤ) (m : DbMap) (e : Option Entry) (j : Bytes)
      → lookup key m ≡ e
      → lookup j (incr_body key delta m e).0
        ≡ (if bytes_eq.test key j then after_incr delta e else lookup j m)
  unfolding incr_body after_incr
  incr-stores delta m none j found = lookup-insert key j _ m
  incr-stores delta m (some e) j found = elim (Option-cases (parse_integer_value e.value)) [
    | inl bad ↦ rw (bad, incr_body, after_incr) (ground (arith, untouched key j m (some e) found))
    | inr (cur, good) ↦
        rw (good, incr_body, after_incr)
          (ground (
            arith,
            untouched key j m (some e) found,
            lookup-insert key j (record e { value = to_string (wrap64 (cur +ℤ delta)) }) m,
          ))
  ]

  pub incr-Local :
      (delta : ℤ) → Local key (incr_body key delta) (after_incr delta) (incr_reply delta)
  incr-Local delta = record {
    stores = incr-stores delta;
    replies = λ m e. unfold incr_body incr_reply in ground arith;
  }

  append-stores :
      (now : ℤ) (value : Bytes) (m : DbMap) (e : Option Entry) (j : Bytes)
      → lookup key m ≡ e
      → lookup j (append_body now key value m e).0
        ≡ (if bytes_eq.test key j then after_append now value e else lookup j m)
  unfolding append_body after_append
  append-stores now value m none j found = lookup-insert key j _ m
  append-stores now value m (some e) j found = ground (
    arith,
    untouched key j m (some e) found,
    lookup-insert key j (record e { value = e.value ++ value; lru_ms = now }) m,
  )

  pub append-Local :
      (now : ℤ) (value : Bytes)
      → Local key (append_body now key value) (after_append now value) (append_reply value)
  append-Local now value = record {
    stores = append-stores now value;
    replies = λ m e. unfold append_body append_reply in ground arith;
  }

  strlen-stores :
      (now : ℤ) (m : DbMap) (e : Option Entry) (j : Bytes)
      → lookup key m ≡ e
      → lookup j (strlen_body now key m e).0
        ≡ (if bytes_eq.test key j then after_strlen now e else lookup j m)
  unfolding strlen_body after_strlen
  strlen-stores now m none j found = untouched key j m none found
  strlen-stores now m (some e) j found =
      ground
        (arith, untouched key j m (some e) found, lookup-insert key j (record e { lru_ms = now }) m)

  pub strlen-Local : (now : ℤ) → Local key (strlen_body now key) (after_strlen now) strlen_reply
  strlen-Local now = record {
    stores = strlen-stores now;
    replies = λ m e. unfold strlen_body strlen_reply in ground arith;
  }
