-- ===== src/Store/Flat.antt =====
-- The commands on one key that a session runs on the store (zero/kv/store/kv_store.cc), and what they
-- mean on one flat map without shards, database maps, versions or a place for expired entries.
pub mod Laws
use zero_frameworks.Base.{
  ℕ, ◌+◌, Bool, true, false, not, ◌&&◌, ◌||◌, List, [], ◌∷◌, if◌then◌else◌, Option, none, some,
  ◌==◌,
}
use zero_frameworks.Base.Bytes.{Bytes, codes}
use zero_frameworks.Base.Assoc.{bytes_eq}
use zero_frameworks.Base.Int.{ℤ, pos, ◌+ℤ◌, wrap64}
use zero_frameworks.Store.{KvStore, Entry, Env, StdHash, Result}
use zero_frameworks.Store.View.{live}
use zero_frameworks.Store.Strings.{
  get, exists, type, type_name, set_opt, del, persist, incr_by, append, strlen, is_some,
}
use zero_frameworks.Store.Strings.Locals.{
  shown, after_set, after_persist, after_incr, incr_reply, after_append, append_reply, after_strlen,
  strlen_reply,
}
use zero_frameworks.Store.Expiry.{pexpire}
use zero_frameworks.Store.Expiry.Laws.{after_expire}
use zero_frameworks.Store.Lists.{list_push, list_pop}
use zero_frameworks.Store.Lists.Locals.{after_push, push_reply, after_pop, pop_reply}
use zero_frameworks.Store.Hashes.{hset, hget, hdel}
use zero_frameworks.Store.Hashes.Laws.{field_reply, after_hset, hset_reply, after_hdel, hdel_reply}
use zero_frameworks.Store.Sets.{set_add, set_is_member}
use zero_frameworks.Store.Sets.Laws.{after_add, add_reply, member_reply}

-- A push and an addition have at least one value: the commands are refused without.
pub data Command : Type 0 where
  get_it exists_it type_it strlen_it persist_it del_it : Command
  set_it : Bytes → Bool → Bool → ℤ → ℤ → Command
  incr_it pexpire_it : ℤ → Command
  append_it : Bytes → Command
  hget_it hdel_it : Bytes → Command
  hset_it : Bytes → Bytes → Command
  push_it : Bytes → List Bytes → Bool → Command
  pop_it : Bool → Command
  add_it : Bytes → List Bytes → Command
  is_member_it : Bytes → Command

pub data Answer : Type 0 where
  text : Result (Option Bytes) → Answer
  count : Result ℕ → Answer
  number : Result ℤ → Answer
  flag : Result Bool → Answer
  maybe_flag : Result (Option Bool) → Answer
  maybe_count : Result (Option ℕ) → Answer
  name : Bytes → Answer

abbrev pub answered : {R : Type 0} → (R → Answer) → KvStore × R → KvStore × Answer
answered wrap (s, r) = (s, wrap r)

module _ ⦃h : StdHash⦄ where
  unfoldable pub run : KvStore → ℕ → Bytes → Command → Env → KvStore × Answer
  run s db key get_it env = answered text (get s db key env)
  run s db key exists_it env = answered (λ b. flag (Result.ok b)) (exists s db key env)
  run s db key type_it env = answered name (type s db key env)
  run s db key strlen_it env = answered maybe_count (strlen s db key env)
  run s db key persist_it env = answered (λ n. number (Result.ok n)) (persist s db key env)
  run s db key del_it env = answered (λ b. flag (Result.ok b)) (del s db key env)
  run s db key (set_it value nx xx ex px) env =
      answered (λ b. flag (Result.ok b)) (set_opt s db key value nx xx ex px env)
  run s db key (incr_it delta) env = answered number (incr_by s db key delta env)
  run s db key (pexpire_it life) env =
      answered (λ n. number (Result.ok n)) (pexpire s db key life env)
  run s db key (append_it value) env = answered count (append s db key value env)
  run s db key (hget_it field) env = answered text (hget s db key field env)
  run s db key (hdel_it field) env = answered flag (hdel s db key field env)
  run s db key (hset_it field value) env = answered flag (hset s db key field value env)
  run s db key (push_it v vs left) env = answered count (list_push s db key (v ∷ vs) left env)
  run s db key (pop_it left) env = answered text (list_pop s db key left env)
  run s db key (add_it x xs) env = answered count (set_add s db key (x ∷ xs) env)
  run s db key (is_member_it x) env = answered maybe_flag (set_is_member s db key x env)

-- A command at a time, on a key of a database.
pub record Step : Type 0 where
  pub db : ℕ
  pub key : Bytes
  pub command : Command
  pub env : Env

module _ ⦃h : StdHash⦄ where
  unfoldable pub run_all : KvStore → List Step → KvStore × List Answer
  unfolding run
  run_all s [] = (s, [])
  run_all s (step ∷ steps) =
      let (s', answer) = run s step.db step.key step.command step.env in
      let (s'', answers) = run_all s' steps in (s'', answer ∷ answers)

-- A command's meaning: what becomes of the live entry of its key, and the answer that this gives.
pub record Meaning : Type 0 where
  pub after : Option Entry → Option Entry
  pub answer : Option Entry → Answer

unfoldable pub meaning : ℤ → Command → Meaning
meaning now get_it = record { after = λ e. e; answer = λ e. text (shown e) }
meaning now exists_it = record { after = λ e. e; answer = λ e. flag (Result.ok (is_some e)) }
meaning now type_it = record {
  after = λ e. e;
  answer = λ e. name (elim e [ none ↦ codes "none" | some x ↦ type_name x.type ]);
}
meaning now strlen_it = record {
  after = after_strlen now;
  answer = λ e. maybe_count (strlen_reply e);
}
meaning now persist_it = record {
  after = after_persist;
  answer = λ e. number (Result.ok (if is_some e then pos 1 else pos 0));
}
meaning now del_it = record { after = λ e. none; answer = λ e. flag (Result.ok (is_some e)) }
meaning now (set_it value nx xx ex px) = record {
  after = after_set now value nx xx ex px;
  answer = λ e. flag (Result.ok (not ((nx && is_some e) || (xx && not (is_some e)))));
}
meaning now (incr_it delta) = record {
  after = after_incr delta;
  answer = λ e. number (incr_reply delta e);
}
meaning now (pexpire_it life) = record {
  after = after_expire life (wrap64 (now +ℤ life));
  answer = λ e. number (Result.ok (if is_some e then pos 1 else pos 0));
}
meaning now (append_it value) = record {
  after = after_append now value;
  answer = λ e. count (append_reply value e);
}
meaning now (hget_it field) = record { after = λ e. e; answer = λ e. text (field_reply field e) }
meaning now (hdel_it field) = record {
  after = after_hdel field;
  answer = λ e. flag (hdel_reply field e);
}
meaning now (hset_it field value) = record {
  after = after_hset field value;
  answer = λ e. flag (hset_reply field e);
}
meaning now (push_it v vs left) = record {
  after = after_push (v ∷ vs) left;
  answer = λ e. count (push_reply (v ∷ vs) left e);
}
meaning now (pop_it left) = record { after = after_pop left; answer = λ e. text (pop_reply left e) }
meaning now (add_it x xs) = record {
  after = after_add (x ∷ xs);
  answer = λ e. count (add_reply (x ∷ xs) e);
}
meaning now (is_member_it x) = record {
  after = λ e. e;
  answer = λ e. maybe_flag (member_reply x e);
}

abbrev pub Flat : Type 0
Flat = ℕ → Bytes → Option Entry

unfoldable pub flat_step : Flat → ℕ → Bytes → ℤ → Meaning → Flat
flat_step f db key now m d j =
    if db == d && bytes_eq.test key j then m.after (live now (f db key)) else f d j

unfoldable pub flat_run : Flat → List Step → Flat × List Answer
flat_run f [] = (f, [])
flat_run f (step ∷ steps) =
    let now = step.env.now in
    let m = meaning now step.command in
    let (f', answers) = flat_run (flat_step f step.db step.key now m) steps in
    (f', m.answer (live now (f step.db step.key)) ∷ answers)
