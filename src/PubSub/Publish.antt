-- ===== src/PubSub/Publish.antt =====
-- Whom `publish` reaches.
use zero_frameworks.Base.{
  ℕ, ◌≡◌, refl, Bool, true, false, ◌&&◌, ◌||◌, List, [], ◌∷◌, ◌++◌, map, ◌==◌, arith,
}
use zero_frameworks.Base.Bytes.{Bytes, beq, beq_iff}
use zero_frameworks.Base.Assoc.{Assoc, Unique, lookup, insert, bytes_eq, nat_eq, lookup-insert}
use zero_frameworks.Glob.{match_glob}
use zero_frameworks.PubSub.{
  Names, Table, PubSubHub, or_none, subscribe, locked, channel_targets, with_pattern,
  pattern_targets, publish, Message, message, pmessage,
}
use zero_frameworks.PubSub.Views.{holds, listed, subscribed, holds-locked}
use zero_frameworks.PubSub.Reach.{Reachable, Reachable-Sound}

-- Whether a session is sent a message of a channel, and one of a pattern.
abbrev pub is_message : Bytes → Bytes → Message → Bool
is_message channel text (message c t) = beq channel c && beq text t
is_message channel text (pmessage p c t) = false

abbrev pub is_pmessage : Bytes → Bytes → Bytes → Message → Bool
is_pmessage pattern channel text (message c t) = false
is_pmessage pattern channel text (pmessage p c t) = beq pattern p && (beq channel c && beq text t)

unfoldable pub sends : ℕ → (Message → Bool) → List (ℕ × Message) → Bool
sends s is [] = false
sends s is ((x, m) ∷ sent) = (s == x && is m) || sends s is sent

sends-append :
    (s : ℕ) (is : Message → Bool) (xs ys : List (ℕ × Message))
    → sends s is (xs ++ ys) ≡ (sends s is xs || sends s is ys)
unfolding sends
sends-append s is [] ys = refl
sends-append s is (x ∷ xs) ys = ground (arith, sends-append s is xs ys)

sends-channel :
    (s : ℕ) (is : Message → Bool) (m : Message) (xs : List ℕ)
    → sends s is (map (λ x. (x, m)) xs) ≡ (holds s xs && is m)
unfolding sends holds
sends-channel s is m [] = refl
sends-channel s is m (x ∷ xs) = ground (arith, sends-channel s is m xs)

abbrev by_pattern : Bytes → Bytes → Bytes × ℕ → ℕ × Message
by_pattern channel text p = (p.1, pmessage p.0 channel text)

abbrev by_channel : Bytes → Bytes → ℕ → ℕ × Message
by_channel channel text s = (s, message channel text)

-- The messages of some pattern's list.
sends-with_pattern :
    (s : ℕ) (is : Message → Bool) (channel text pattern : Bytes) (xs : List ℕ)
    (rest : List (Bytes × ℕ))
    → sends s is (map (by_pattern channel text) (with_pattern pattern xs ++ rest)) ≡ (
        (holds s xs && is (pmessage pattern channel text))
        || sends s is (map (by_pattern channel text) rest))
unfolding sends holds with_pattern
sends-with_pattern s is channel text pattern [] rest = refl
sends-with_pattern s is channel text pattern (x ∷ xs) rest =
    ground (arith, sends-with_pattern s is channel text pattern xs rest)

sends-pattern_targets :
    (alive : ℕ → Bool) (s : ℕ) (pattern channel text : Bytes) (patterns : Assoc Bytes (List ℕ))
    → Unique patterns
    → sends s
        (is_pmessage pattern channel text)
        (map (by_pattern channel text) (pattern_targets alive channel patterns))
      ≡ (match_glob pattern channel && (holds s (or_none (lookup pattern patterns)) && alive s))
unfolding sends pattern_targets lookup holds
sends-pattern_targets alive s pattern channel text [] u = ground arith
sends-pattern_targets alive s pattern channel text ((p, xs) ∷ patterns) u =
    let ih = sends-pattern_targets alive s pattern channel text patterns u.1 in
    let first =
      sends-with_pattern s (is_pmessage pattern channel text) channel text p (locked alive xs)
        (pattern_targets alive channel patterns) in
    ground (
      arith,
      ih,
      first,
      holds-locked alive s xs,
      beq_iff pattern p,
      beq_iff p pattern,
      beq_iff channel channel,
      beq_iff text text,
    )

sends-none :
    (s : ℕ) (channel text : Bytes) (targets : List (Bytes × ℕ))
    → sends s (is_message channel text) (map (by_pattern channel text) targets) ≡ false
unfolding sends
sends-none s channel text [] = refl
sends-none s channel text (p ∷ targets) = ground (arith, sends-none s channel text targets)

-- After any history of calls, PUBLISH sends its message to a session that is alive exactly if the
-- session is subscribed to the channel, and the message under a pattern exactly if the session is
-- subscribed to that pattern and it matches the channel.
pub publish_reaches :
    (alive : ℕ → Bool) (hub : PubSubHub) (s : ℕ) (pattern channel text : Bytes)
    → Reachable alive hub
    → alive s ≡ true
    → (sends s (is_message channel text) (publish alive channel text hub)
        ≡ subscribed hub.channels channel s)
      × (sends s (is_pmessage pattern channel text) (publish alive channel text hub)
          ≡ (match_glob pattern channel && subscribed hub.patterns pattern s))
unfolding publish channel_targets listed
publish_reaches alive hub s pattern channel text r live =
    let sound = Reachable-Sound r in
    let targets = locked alive (or_none (lookup channel hub.channels.sessions_of)) in
    let agree = sound.0.agree channel s live in
    let agree' = sound.1.agree pattern s live in
    (
      rw
          (
            sends-append s (is_message channel text) (map (by_channel channel text) targets) (
                map (by_pattern channel text)
                  (pattern_targets alive channel hub.patterns.sessions_of)),
            sends-none s channel text (pattern_targets alive channel hub.patterns.sessions_of),
            sends-channel s (is_message channel text) (message channel text) targets,
            holds-locked alive s (or_none (lookup channel hub.channels.sessions_of)),
          )
          (ground (arith, agree, live, beq_iff channel channel, beq_iff text text)),
      rw
          (
            sends-append s (is_pmessage pattern channel text)
                (map (by_channel channel text) targets)
                (map (by_pattern channel text)
                  (pattern_targets alive channel hub.patterns.sessions_of)),
            sends-pattern_targets alive s pattern channel text hub.patterns.sessions_of
                sound.1.unique,
            sends-channel s (is_pmessage pattern channel text) (message channel text) targets,
          )
          (ground (arith, agree', live)),
    )

locked-append :
    (alive : ℕ → Bool) (xs ys : List ℕ)
    → locked alive (xs ++ ys) ≡ locked alive xs ++ locked alive ys
unfolding locked
locked-append alive [] ys = refl
locked-append alive (x ∷ xs) ys = ground (arith, locked-append alive xs ys)

targets-subscribe :
    (alive : ℕ → Bool) (name : Bytes) (s : ℕ) (t : Table)
    → alive s ≡ true
    → channel_targets alive name (subscribe name s t) ≡ channel_targets alive name t ++ s ∷ []
unfolding channel_targets subscribe locked
targets-subscribe alive name s t live = ground (
  arith,
  live,
  lookup-insert name name (or_none (lookup name t.sessions_of) ++ s ∷ []) t.sessions_of,
  locked-append alive (or_none (lookup name t.sessions_of)) (s ∷ []),
  beq_iff name name,
)

insert_again :
    (name : Bytes) (names : Names) → insert name tt (insert name tt names) ≡ insert name tt names
unfolding insert
insert_again name [] = ground (arith, beq_iff name name)
insert_again name ((n, u) ∷ names) = ground (arith, insert_again name names, beq_iff n name)

-- A session that is alive and subscribes twice to one channel is sent every message of it once more
-- than if it had subscribed once, while its own set of channels stays as it is.
subscribe_twice :
    (alive : ℕ → Bool) (name : Bytes) (s : ℕ) (t : Table)
    → alive s ≡ true
    → (channel_targets alive name (subscribe name s (subscribe name s t))
        ≡ channel_targets alive name (subscribe name s t) ++ s ∷ [])
      × (or_none (lookup s (subscribe name s (subscribe name s t)).names_of)
          ≡ or_none (lookup s (subscribe name s t).names_of))
unfolding subscribe
subscribe_twice alive name s t live =
    let once = insert name tt (or_none (lookup s t.names_of)) in
    let once_of = insert s once t.names_of in
    (
      targets-subscribe alive name s (subscribe name s t) live,
      ground (
        arith,
        lookup-insert s s once t.names_of,
        lookup-insert s s (insert name tt (or_none (lookup s once_of))) once_of,
        insert_again name (or_none (lookup s t.names_of)),
      ),
    )
