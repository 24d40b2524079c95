-- ===== src/PubSub/Reach.antt =====
-- What every history of a `PubSubHub` keeps: the two directions of its tables agree on the sessions
-- that are alive. Sessions may expire between any two calls; a number is never used again.
use zero_frameworks.Base.{ℕ, ◌≡◌, refl, Bool, true, List, [], ◌∷◌, ◌++◌, Option-cases, inl, inr}
use zero_frameworks.Base.Bytes.{Bytes}
use zero_frameworks.Base.Assoc.{
  Unique, lookup, erase, bytes_eq, nat_eq, insert-Unique, erase-Unique,
}
use zero_frameworks.PubSub.{
  Names, Table, PubSubHub, others, put_sessions, remove_from_map, or_none, subscribe, put_names,
  unsubscribe, remove_from_maps, unsubscribe_all, remove_session,
}
use zero_frameworks.PubSub.Views.{holds, listed, subscribed, listed-subscribe, subscribed-subscribe}
use zero_frameworks.PubSub.Laws.{
  listed-unsubscribe, subscribed-unsubscribe, listed-unsubscribe_all, subscribed-unsubscribe_all,
}

abbrev pub empty_hub : PubSubHub
empty_hub = record {
  channels = record { sessions_of = []; names_of = [] };
  patterns = record { sessions_of = []; names_of = [] };
}

-- The hubs that calls lead to, with the sessions that are alive.
pub data Reachable : (ℕ → Bool) → PubSubHub → Type 0 where
  start : (alive : ℕ → Bool) → Reachable alive empty_hub
  after_subscribe :
      {alive : ℕ → Bool} {hub : PubSubHub} (name : Bytes) (s : ℕ)
      → Reachable alive hub
      → Reachable alive (record hub { channels = subscribe name s hub.channels })
  after_psubscribe :
      {alive : ℕ → Bool} {hub : PubSubHub} (name : Bytes) (s : ℕ)
      → Reachable alive hub
      → Reachable alive (record hub { patterns = subscribe name s hub.patterns })
  after_unsubscribe :
      {alive : ℕ → Bool} {hub : PubSubHub} (name : Bytes) (s : ℕ)
      → Reachable alive hub
      → Reachable alive (record hub { channels = unsubscribe alive name s hub.channels })
  after_punsubscribe :
      {alive : ℕ → Bool} {hub : PubSubHub} (name : Bytes) (s : ℕ)
      → Reachable alive hub
      → Reachable alive (record hub { patterns = unsubscribe alive name s hub.patterns })
  after_unsubscribe_all :
      {alive : ℕ → Bool} {hub : PubSubHub} (s : ℕ)
      → Reachable alive hub
      → Reachable alive (record hub { channels = unsubscribe_all alive s hub.channels })
  after_punsubscribe_all :
      {alive : ℕ → Bool} {hub : PubSubHub} (s : ℕ)
      → Reachable alive hub
      → Reachable alive (record hub { patterns = unsubscribe_all alive s hub.patterns })
  after_remove_session :
      {alive : ℕ → Bool} {hub : PubSubHub} (s : ℕ)
      → Reachable alive hub
      → Reachable alive (remove_session alive s hub)
  expired :
      {alive : ℕ → Bool} {hub : PubSubHub} (alive' : ℕ → Bool)
      → ((s : ℕ) → alive' s ≡ true → alive s ≡ true)
      → Reachable alive hub
      → Reachable alive' hub

pub record Sound (alive : ℕ → Bool) (t : Table) : Type 0 where
  pub agree : (name : Bytes) (s : ℕ) → alive s ≡ true → listed t name s ≡ subscribed t name s
  pub unique : Unique t.sessions_of

put_sessions-Unique :
    (name : Bytes) (xs : List ℕ) (t : Table)
    → Unique t.sessions_of
    → Unique (put_sessions name xs t).sessions_of
unfolding put_sessions
put_sessions-Unique name [] t u = erase-Unique name t.sessions_of u
put_sessions-Unique name (x ∷ xs) t u = insert-Unique name (x ∷ xs) t.sessions_of u

remove_from_map-Unique :
    (alive : ℕ → Bool) (name : Bytes) (s : ℕ) (t : Table)
    → Unique t.sessions_of
    → Unique (remove_from_map alive name s t).sessions_of
unfolding remove_from_map
remove_from_map-Unique alive name s t u = elim (Option-cases (lookup name t.sessions_of)) [
  | inl missing ↦ rw (missing, remove_from_map) u
  | inr (xs, found) ↦ rw (found, remove_from_map) (put_sessions-Unique name (others alive s xs) t u)
]

remove_from_maps-Unique :
    (alive : ℕ → Bool) (names : Names) (s : ℕ) (t : Table)
    → Unique t.sessions_of
    → Unique (remove_from_maps alive names s t).sessions_of
unfolding remove_from_maps
remove_from_maps-Unique alive [] s t u = u
remove_from_maps-Unique alive ((name, _) ∷ names) s t u =
    remove_from_maps-Unique alive names s (remove_from_map alive name s t)
      (remove_from_map-Unique alive name s t u)

put_names-Unique :
    (s : ℕ) (names : Names) (t : Table)
    → Unique t.sessions_of
    → Unique (put_names s names t).sessions_of
unfolding put_names
put_names-Unique s [] t u = u
put_names-Unique s (n ∷ names) t u = u

subscribe-Sound :
    (alive : ℕ → Bool) (name : Bytes) (s : ℕ) (t : Table)
    → Sound alive t
    → Sound alive (subscribe name s t)
unfolding subscribe
subscribe-Sound alive name s t sound = record {
  agree = λ name' s' live.
      rw
        (
          listed-subscribe name name' s s' t,
          subscribed-subscribe name name' s s' t,
          sound.agree name' s' live,
        )
        refl;
  unique =
      insert-Unique name (or_none (lookup name t.sessions_of) ++ s ∷ []) t.sessions_of sound.unique;
}

unsubscribe-Unique :
    (alive : ℕ → Bool) (name : Bytes) (s : ℕ) (t : Table)
    → Unique t.sessions_of
    → Unique (unsubscribe alive name s t).sessions_of
unfolding unsubscribe
unsubscribe-Unique alive name s t u = elim (Option-cases (lookup s t.names_of)) [
  | inl missing ↦ rw (missing, unsubscribe) u
  | inr (names, found) ↦
      rw (found, unsubscribe)
        (remove_from_map-Unique alive name s (put_names s (erase name names) t)
          (put_names-Unique s (erase name names) t u))
]

unsubscribe_all-Unique :
    (alive : ℕ → Bool) (s : ℕ) (t : Table)
    → Unique t.sessions_of
    → Unique (unsubscribe_all alive s t).sessions_of
unfolding unsubscribe_all
unsubscribe_all-Unique alive s t u = elim (Option-cases (lookup s t.names_of)) [
  | inl missing ↦ rw (missing, unsubscribe_all) u
  | inr (names, found) ↦
      rw (found, unsubscribe_all)
        (remove_from_maps-Unique alive names s (record t { names_of = erase s t.names_of }) u)
]

unsubscribe-Sound :
    (alive : ℕ → Bool) (name : Bytes) (s : ℕ) (t : Table)
    → Sound alive t
    → Sound alive (unsubscribe alive name s t)
unsubscribe-Sound alive name s t sound = record {
  agree = λ name' s' live.
      rw
        (
          listed-unsubscribe alive name name' s s' t live (sound.agree name' s' live),
          subscribed-unsubscribe alive name name' s s' t,
          sound.agree name' s' live,
        )
        refl;
  unique = unsubscribe-Unique alive name s t sound.unique;
}

unsubscribe_all-Sound :
    (alive : ℕ → Bool) (s : ℕ) (t : Table) → Sound alive t → Sound alive (unsubscribe_all alive s t)
unsubscribe_all-Sound alive s t sound = record {
  agree = λ name' s' live.
      rw
        (
          listed-unsubscribe_all alive name' s s' t live (sound.agree name' s' live),
          subscribed-unsubscribe_all alive name' s s' t,
          sound.agree name' s' live,
        )
        refl;
  unique = unsubscribe_all-Unique alive s t sound.unique;
}

expired-Sound :
    (alive alive' : ℕ → Bool) (t : Table)
    → ((s : ℕ) → alive' s ≡ true → alive s ≡ true)
    → Sound alive t
    → Sound alive' t
expired-Sound alive alive' t before sound = record {
  agree = λ name s live. sound.agree name s (before s live);
  unique = sound.unique;
}

empty-Sound : (alive : ℕ → Bool) → Sound alive (record { sessions_of = []; names_of = [] })
unfolding listed subscribed holds lookup
empty-Sound alive = record { agree = λ name s live. refl; unique = tt }

-- In every hub that calls lead to, the lists of each table and the names of its sessions agree on
-- the sessions that are alive, and no name has two lists.
pub Reachable-Sound :
    {alive : ℕ → Bool} {hub : PubSubHub}
    → Reachable alive hub
    → Sound alive hub.channels × Sound alive hub.patterns
unfolding remove_session
Reachable-Sound (start alive) = (empty-Sound alive, empty-Sound alive)
Reachable-Sound (after_subscribe {alive} {hub} name s r) =
    let ih = Reachable-Sound r in (subscribe-Sound alive name s hub.channels ih.0, ih.1)
Reachable-Sound (after_psubscribe {alive} {hub} name s r) =
    let ih = Reachable-Sound r in (ih.0, subscribe-Sound alive name s hub.patterns ih.1)
Reachable-Sound (after_unsubscribe {alive} {hub} name s r) =
    let ih = Reachable-Sound r in (unsubscribe-Sound alive name s hub.channels ih.0, ih.1)
Reachable-Sound (after_punsubscribe {alive} {hub} name s r) =
    let ih = Reachable-Sound r in (ih.0, unsubscribe-Sound alive name s hub.patterns ih.1)
Reachable-Sound (after_unsubscribe_all {alive} {hub} s r) =
    let ih = Reachable-Sound r in (unsubscribe_all-Sound alive s hub.channels ih.0, ih.1)
Reachable-Sound (after_punsubscribe_all {alive} {hub} s r) =
    let ih = Reachable-Sound r in (ih.0, unsubscribe_all-Sound alive s hub.patterns ih.1)
Reachable-Sound (after_remove_session {alive} {hub} s r) =
    let ih = Reachable-Sound r in
    (
      unsubscribe_all-Sound alive s hub.channels ih.0,
      unsubscribe_all-Sound alive s hub.patterns ih.1,
    )
Reachable-Sound (expired {alive} {hub} alive' before r) =
    let ih = Reachable-Sound r in
    (
      expired-Sound alive alive' hub.channels before ih.0,
      expired-Sound alive alive' hub.patterns before ih.1,
    )
