-- ===== src/Examples/PubSub.antt =====
-- The theorems on publishing at concrete inputs: session 1 reads the channel "news" and what matches
-- "n*", session 2 has left.
use zero_frameworks.Base.{ℕ, ◌≡◌, refl, Bool, true, ◌&&◌}
use zero_frameworks.Base.Bytes.{Bytes, codes}
use zero_frameworks.Base.Assoc.{bytes_eq, nat_eq}
use zero_frameworks.Glob.{match_glob}
use zero_frameworks.PubSub.{PubSubHub, subscribe, remove_session, publish}
use zero_frameworks.PubSub.Views.{subscribed}
use zero_frameworks.PubSub.Reach.{
  Reachable, Reachable-Sound, Sound, empty_hub, start, after_subscribe, after_psubscribe,
  after_remove_session,
}
use zero_frameworks.PubSub.Publish.{sends, is_message, is_pmessage, publish_reaches}

abbrev all_alive : ℕ → Bool
all_alive s = true

abbrev news : Bytes
news = codes "news"

abbrev hub_2 : PubSubHub
hub_2 = record empty_hub { channels = subscribe news 2 empty_hub.channels }

abbrev hub_12 : PubSubHub
hub_12 = record hub_2 { channels = subscribe news 1 hub_2.channels }

abbrev hub_patterns : PubSubHub
hub_patterns = record hub_12 { patterns = subscribe (codes "n*") 1 hub_12.patterns }

abbrev hub_1 : PubSubHub
hub_1 = remove_session all_alive 2 hub_patterns

abbrev reached : Reachable all_alive hub_1
reached = after_remove_session 2 (
    after_psubscribe (codes "n*") 1
      (after_subscribe news 1 (after_subscribe news 2 (start all_alive))))

Reachable-Sound_example : Sound all_alive hub_1.channels × Sound all_alive hub_1.patterns
Reachable-Sound_example = Reachable-Sound reached

publish_reaches_example :
    (sends 1 (is_message news (codes "hi")) (publish all_alive news (codes "hi") hub_1)
      ≡ subscribed hub_1.channels news 1)
    × (sends 1
          (is_pmessage (codes "n*") news (codes "hi"))
          (publish all_alive news (codes "hi") hub_1)
        ≡ (match_glob (codes "n*") news && subscribed hub_1.patterns (codes "n*") 1))
publish_reaches_example =
    publish_reaches all_alive hub_1 1 (codes "n*") news (codes "hi") reached refl
