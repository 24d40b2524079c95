-- ===== src/PubSub/Views.antt =====
-- The two directions of a table, and how each operation changes them.
use zero_frameworks.Base.{
  ℕ, ◌≡◌, refl, ap, Bool, true, false, not, ◌&&◌, ◌||◌, List, [], ◌∷◌, ◌++◌, if◌then◌else◌, Option,
  none, some, ◌==◌, arith, Option-cases, inl, inr,
}
use zero_frameworks.Base.Bytes.{Bytes, beq, beq_iff}
use zero_frameworks.Base.Assoc.{lookup, insert, bytes_eq, nat_eq, lookup-insert, lookup-erase}
use zero_frameworks.PubSub.{
  Names, Table, others, put_sessions, remove_from_map, or_none, subscribe, put_names, locked,
}

unfoldable pub holds : ℕ → List ℕ → Bool
holds s [] = false
holds s (x ∷ xs) = s == x || holds s xs

abbrev pub is_there {ℓ} : {A : Type ℓ} → Option A → Bool
is_there none = false
is_there (some a) = true

-- Whether a name's list has a session, and whether a session's set has a name.
unfoldable pub listed : Table → Bytes → ℕ → Bool
listed t name s = holds s (or_none (lookup name t.sessions_of))

unfoldable pub subscribed : Table → Bytes → ℕ → Bool
subscribed t name s = is_there (lookup name (or_none (lookup s t.names_of)))

holds-append : (s : ℕ) (xs ys : List ℕ) → holds s (xs ++ ys) ≡ (holds s xs || holds s ys)
unfolding holds
holds-append s [] ys = refl
holds-append s (x ∷ xs) ys = ground (arith, holds-append s xs ys)

holds-others :
    (alive : ℕ → Bool) (session s : ℕ) (xs : List ℕ)
    → holds s (others alive session xs) ≡ (holds s xs && alive s && not (session == s))
unfolding holds others
holds-others alive session s [] = refl
holds-others alive session s (x ∷ xs) =
    ground (arith, holds-others alive session s xs, ap alive {x = s} {y = x})

pub holds-locked :
    (alive : ℕ → Bool) (s : ℕ) (xs : List ℕ) → holds s (locked alive xs) ≡ (holds s xs && alive s)
unfolding holds locked
holds-locked alive s [] = refl
holds-locked alive s (x ∷ xs) = ground (arith, holds-locked alive s xs, ap alive {x = s} {y = x})

pub listed-subscribe :
    (name name' : Bytes) (s s' : ℕ) (t : Table)
    → listed (subscribe name s t) name' s' ≡ ((beq name name' && s == s') || listed t name' s')
unfolding listed subscribe holds
listed-subscribe name name' s s' t = ground (
  arith,
  lookup-insert name name' (or_none (lookup name t.sessions_of) ++ s ∷ []) t.sessions_of,
  holds-append s' (or_none (lookup name t.sessions_of)) (s ∷ []),
  beq_iff name name',
)

pub subscribed-subscribe :
    (name name' : Bytes) (s s' : ℕ) (t : Table)
    → subscribed (subscribe name s t) name' s'
      ≡ ((beq name name' && s == s') || subscribed t name' s')
unfolding subscribed subscribe
subscribed-subscribe name name' s s' t =
    let names = or_none (lookup s t.names_of) in
    ground (
      arith,
      lookup-insert s s' (insert name tt names) t.names_of,
      lookup-insert name name' tt names,
    )

sessions-put_sessions :
    (name name' : Bytes) (xs : List ℕ) (t : Table)
    → or_none (lookup name' (put_sessions name xs t).sessions_of)
      ≡ (if beq name name' then xs else or_none (lookup name' t.sessions_of))
unfolding put_sessions
sessions-put_sessions name name' [] t = ground (arith, lookup-erase name name' t.sessions_of)
sessions-put_sessions name name' (x ∷ xs) t =
    ground (arith, lookup-insert name name' (x ∷ xs) t.sessions_of)

pub listed-remove_from_map :
    (alive : ℕ → Bool) (name name' : Bytes) (s s' : ℕ) (t : Table)
    → listed (remove_from_map alive name s t) name' s'
      ≡ (listed t name' s' && (not (beq name name') || (alive s' && not (s == s'))))
unfolding listed remove_from_map holds
listed-remove_from_map alive name name' s s' t = elim (Option-cases (lookup name t.sessions_of)) [
  | inl missing ↦ rw (missing, remove_from_map) (ground (arith, missing, beq_iff name name'))
  | inr (xs, found) ↦
      rw (found, remove_from_map)
        (ground (
          arith,
          found,
          sessions-put_sessions name name' (others alive s xs) t,
          holds-others alive s s' xs,
          beq_iff name name',
        ))
]

pub names-remove_from_map :
    (alive : ℕ → Bool) (name : Bytes) (s : ℕ) (t : Table)
    → (remove_from_map alive name s t).names_of ≡ t.names_of
unfolding remove_from_map put_sessions
names-remove_from_map alive name s t = ground arith

pub names-put_names :
    (s s' : ℕ) (names : Names) (t : Table)
    → or_none (lookup s' (put_names s names t).names_of)
      ≡ (if s == s' then names else or_none (lookup s' t.names_of))
unfolding put_names
names-put_names s s' [] t = ground (arith, lookup-erase s s' t.names_of)
names-put_names s s' (n ∷ names) t = ground (arith, lookup-insert s s' (n ∷ names) t.names_of)
