-- ===== src/PubSub/Laws.antt =====
-- Who is subscribed: `unsubscribe` and `unsubscribeAll` in both directions of a table, the invariant
-- that the two directions agree on the sessions that are alive, and what `publish` reaches.
use zero_frameworks.Base.{
  ℕ, ◌≡◌, refl, ◌∙◌, Bool, true, not, ◌&&◌, [], ◌∷◌, if◌then◌else◌, ◌==◌, arith, Option-cases, inl,
  inr,
}
use zero_frameworks.Base.Bytes.{Bytes, beq, beq_iff}
use zero_frameworks.Base.Assoc.{lookup, erase, bytes_eq, nat_eq, lookup-erase}
use zero_frameworks.PubSub.{
  Names, Table, remove_from_map, or_none, put_names, unsubscribe, remove_from_maps, unsubscribe_all,
}
use zero_frameworks.PubSub.Views.{
  is_there, listed, subscribed, listed-remove_from_map, names-remove_from_map, names-put_names,
}

sessions-put_names :
    (s : ℕ) (names : Names) (t : Table) → (put_names s names t).sessions_of ≡ t.sessions_of
unfolding put_names
sessions-put_names s [] t = refl
sessions-put_names s (n ∷ names) t = refl

listed-put_names :
    (s : ℕ) (names : Names) (t : Table) (name : Bytes) (s' : ℕ)
    → listed (put_names s names t) name s' ≡ listed t name s'
unfolding listed
listed-put_names s names t name s' = rw (sessions-put_names s names t) refl

-- A session's names after it leaves one.
names-unsubscribe :
    (alive : ℕ → Bool) (name : Bytes) (s s' : ℕ) (t : Table)
    → or_none (lookup s' (unsubscribe alive name s t).names_of) ≡ (
        if s == s'
        then erase name (or_none (lookup s' t.names_of))
        else or_none (lookup s' t.names_of))
unfolding unsubscribe erase
names-unsubscribe alive name s s' t = elim (Option-cases (lookup s t.names_of)) [
  | inl missing ↦ rw (missing, unsubscribe) (ground (arith, missing))
  | inr (names, found) ↦
      rw
        (
          found,
          unsubscribe,
          names-remove_from_map alive name s (put_names s (erase name names) t),
          names-put_names s s' (erase name names) t,
        )
        (ground (arith, found))
]

pub subscribed-unsubscribe :
    (alive : ℕ → Bool) (name name' : Bytes) (s s' : ℕ) (t : Table)
    → subscribed (unsubscribe alive name s t) name' s'
      ≡ (subscribed t name' s' && not (beq name name' && s == s'))
unfolding subscribed
subscribed-unsubscribe alive name name' s s' t = ground (
  arith,
  names-unsubscribe alive name s s' t,
  lookup-erase name name' (or_none (lookup s' t.names_of)),
)

pub listed-unsubscribe :
    (alive : ℕ → Bool) (name name' : Bytes) (s s' : ℕ) (t : Table)
    → alive s' ≡ true
    → listed t name' s' ≡ subscribed t name' s'
    → listed (unsubscribe alive name s t) name' s'
      ≡ (listed t name' s' && not (beq name name' && s == s'))
unfolding unsubscribe subscribed lookup
listed-unsubscribe alive name name' s s' t live agree = elim (Option-cases (lookup s t.names_of)) [
  | inl missing ↦ rw (missing, unsubscribe) (ground (arith, missing, agree))
  | inr (names, found) ↦
      rw
        (
          found,
          unsubscribe,
          listed-remove_from_map alive name name' s s' (put_names s (erase name names) t),
          listed-put_names s (erase name names) t name' s',
        )
        (ground (arith, live))
]

names-remove_from_maps :
    (alive : ℕ → Bool) (names : Names) (s : ℕ) (t : Table)
    → (remove_from_maps alive names s t).names_of ≡ t.names_of
unfolding remove_from_maps
names-remove_from_maps alive [] s t = refl
names-remove_from_maps alive ((name, _) ∷ names) s t =
    names-remove_from_maps alive names s (remove_from_map alive name s t)
    ∙ names-remove_from_map alive name s t

listed-remove_from_maps :
    (alive : ℕ → Bool) (names : Names) (name' : Bytes) (s s' : ℕ) (t : Table)
    → alive s' ≡ true
    → listed (remove_from_maps alive names s t) name' s'
      ≡ (listed t name' s' && not (is_there (lookup name' names) && s == s'))
unfolding remove_from_maps lookup
listed-remove_from_maps alive [] name' s s' t live = ground arith
listed-remove_from_maps alive ((name, u) ∷ names) name' s s' t live =
    rw
      (
        listed-remove_from_maps alive names name' s s' (remove_from_map alive name s t) live,
        listed-remove_from_map alive name name' s s' t,
      )
      (ground (arith, live, beq_iff name name'))

names-unsubscribe_all :
    (alive : ℕ → Bool) (s s' : ℕ) (t : Table)
    → or_none (lookup s' (unsubscribe_all alive s t).names_of)
      ≡ (if s == s' then [] else or_none (lookup s' t.names_of))
unfolding unsubscribe_all
names-unsubscribe_all alive s s' t = elim (Option-cases (lookup s t.names_of)) [
  | inl missing ↦ rw (missing, unsubscribe_all) (ground (arith, missing))
  | inr (names, found) ↦
      rw
        (
          found,
          unsubscribe_all,
          names-remove_from_maps alive names s (record t { names_of = erase s t.names_of }),
        )
        (ground (arith, lookup-erase s s' t.names_of))
]

pub subscribed-unsubscribe_all :
    (alive : ℕ → Bool) (name : Bytes) (s s' : ℕ) (t : Table)
    → subscribed (unsubscribe_all alive s t) name s' ≡ (subscribed t name s' && not (s == s'))
unfolding subscribed lookup
subscribed-unsubscribe_all alive name s s' t = ground (arith, names-unsubscribe_all alive s s' t)

pub listed-unsubscribe_all :
    (alive : ℕ → Bool) (name : Bytes) (s s' : ℕ) (t : Table)
    → alive s' ≡ true
    → listed t name s' ≡ subscribed t name s'
    → listed (unsubscribe_all alive s t) name s' ≡ (listed t name s' && not (s == s'))
unfolding unsubscribe_all subscribed lookup listed
listed-unsubscribe_all alive name s s' t live agree = elim (Option-cases (lookup s t.names_of)) [
  | inl missing ↦ rw (missing, unsubscribe_all) (ground (arith, missing, agree))
  | inr (names, found) ↦
      rw
        (
          found,
          unsubscribe_all,
          listed-remove_from_maps alive names name s s' (record t { names_of = erase s t.names_of })
              live,
        )
        (ground (arith, live, agree, found))
]
