-- ===== src/PubSub.antt =====
-- zero/kv/pubsub/pubsub_hub.h and .cc: `PubSubHub`. A session is a number; `alive` says which
-- sessions' weak pointers still lock. The maps for channels and for patterns are two tables of one
-- kind, and the methods for them the same ones.
pub mod Views
pub mod Laws
pub mod Reach
pub mod Publish
use zero_frameworks.Base.{
  ℕ, zero, suc, ◌+◌, Bool, true, false, not, ◌&&◌, ◌||◌, List, [], ◌∷◌, ◌++◌, map, if◌then◌else◌,
  Option, none, some, ◌==◌, length,
}
use zero_frameworks.Base.Bytes.{Bytes}
use zero_frameworks.Base.Assoc.{Assoc, lookup, insert, erase, bytes_eq, nat_eq}
use zero_frameworks.Glob.{match_glob}

abbrev pub Names : Type 0
Names = Assoc Bytes (Unit {0})

-- `m_channels` with `m_sessionChannels`, or `m_patterns` with `m_sessionPatterns`.
pub record Table : Type 0 where
  pub sessions_of : Assoc Bytes (List ℕ)
  pub names_of : Assoc ℕ Names

pub record PubSubHub : Type 0 where
  pub channels : Table
  pub patterns : Table

-- The loop of `removeFromChannelMap`, which drops expired sessions too.
unfoldable pub others : (ℕ → Bool) → ℕ → List ℕ → List ℕ
others alive session [] = []
others alive session (s ∷ sessions) =
    let rest = others alive session sessions in
    if not (alive s) || s == session then rest else s ∷ rest

unfoldable pub put_sessions : Bytes → List ℕ → Table → Table
put_sessions name [] t = record t { sessions_of = erase name t.sessions_of }
put_sessions name (s ∷ sessions) t = record t {
  sessions_of = insert name (s ∷ sessions) t.sessions_of;
}

-- `removeFromChannelMap`, `removeFromPatternMap`
unfoldable pub remove_from_map : (ℕ → Bool) → Bytes → ℕ → Table → Table
unfolding others put_sessions
remove_from_map alive name session t = elim (lookup name t.sessions_of) [
  | none ↦ t
  | some sessions ↦ put_sessions name (others alive session sessions) t
]

abbrev pub or_none {ℓ} : {A : Type ℓ} → Option (List A) → List A
or_none none = []
or_none (some xs) = xs

-- `subscribe`, `psubscribe`
unfoldable pub subscribe : Bytes → ℕ → Table → Table
subscribe name session t = record t {
  sessions_of = insert name (or_none (lookup name t.sessions_of) ++ session ∷ []) t.sessions_of;
  names_of = insert session (insert name tt (or_none (lookup session t.names_of))) t.names_of;
}

unfoldable pub put_names : ℕ → Names → Table → Table
put_names session [] t = record t { names_of = erase session t.names_of }
put_names session (n ∷ names) t = record t { names_of = insert session (n ∷ names) t.names_of }

-- `unsubscribe`, `punsubscribe`
unfoldable pub unsubscribe : (ℕ → Bool) → Bytes → ℕ → Table → Table
unfolding put_names remove_from_map
unsubscribe alive name session t = elim (lookup session t.names_of) [
  | none ↦ t
  | some names ↦ remove_from_map alive name session (put_names session (erase name names) t)
]

-- The loop of `unsubscribeAll` over the names that were copied.
unfoldable pub remove_from_maps : (ℕ → Bool) → Names → ℕ → Table → Table
unfolding remove_from_map
remove_from_maps alive [] session t = t
remove_from_maps alive ((name, _) ∷ names) session t =
    remove_from_maps alive names session (remove_from_map alive name session t)

-- `unsubscribeAll`, `punsubscribeAll`
unfoldable pub unsubscribe_all : (ℕ → Bool) → ℕ → Table → Table
unfolding remove_from_maps
unsubscribe_all alive session t = elim (lookup session t.names_of) [
  | none ↦ t
  | some names ↦
      remove_from_maps alive names session (record t { names_of = erase session t.names_of })
]

-- `removeSession`
unfoldable pub remove_session : (ℕ → Bool) → ℕ → PubSubHub → PubSubHub
remove_session alive session hub = record {
  channels = unsubscribe_all alive session hub.channels;
  patterns = unsubscribe_all alive session hub.patterns;
}

-- The weak pointers of a list that lock.
unfoldable pub locked : (ℕ → Bool) → List ℕ → List ℕ
locked alive [] = []
locked alive (s ∷ sessions) = let rest = locked alive sessions in if alive s then s ∷ rest else rest

unfoldable pub channel_targets : (ℕ → Bool) → Bytes → Table → List ℕ
unfolding locked
channel_targets alive channel t = locked alive (or_none (lookup channel t.sessions_of))

unfoldable pub with_pattern : Bytes → List ℕ → List (Bytes × ℕ)
with_pattern pattern [] = []
with_pattern pattern (s ∷ sessions) = (pattern, s) ∷ with_pattern pattern sessions

-- The loop over `m_patterns`.
unfoldable pub pattern_targets : (ℕ → Bool) → Bytes → Assoc Bytes (List ℕ) → List (Bytes × ℕ)
unfolding locked with_pattern
pattern_targets alive channel [] = []
pattern_targets alive channel ((pattern, sessions) ∷ patterns) =
    let rest = pattern_targets alive channel patterns in
    if match_glob pattern channel
    then with_pattern pattern (locked alive sessions) ++ rest
    else rest

-- What a subscriber is sent.
pub data Message : Type 0 where
  message : Bytes → Bytes → Message
  pmessage : Bytes → Bytes → Bytes → Message

-- `publish`: the messages in the order they are pushed, each to its session.
unfoldable pub publish : (ℕ → Bool) → Bytes → Bytes → PubSubHub → List (ℕ × Message)
unfolding channel_targets pattern_targets
publish alive channel text hub =
    map (λ s. (s, message channel text)) (channel_targets alive channel hub.channels)
    ++ map (λ p. (p.1, pmessage p.0 channel text))
        (pattern_targets alive channel hub.patterns.sessions_of)

-- `publish` counts the pushes that the sessions answer with a number above 0.
unfoldable pub delivered : (ℕ → Message → Bool) → List (ℕ × Message) → ℕ
delivered push [] = 0
delivered push ((s, m) ∷ messages) =
    let rest = delivered push messages in if push s m then rest + 1 else rest

-- `subscriptionCount`
unfoldable pub subscription_count : ℕ → PubSubHub → ℕ
subscription_count session hub =
    length (or_none (lookup session hub.channels.names_of))
    + length (or_none (lookup session hub.patterns.names_of))
