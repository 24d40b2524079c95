-- ===== src/Store/Flat/Laws.antt =====
-- The sharded store implements the flat map, command by command and over whole histories.
use zero_frameworks.Base.{ℕ, ◌≡◌, refl, sym, ap, subst, ◌∙◌, fun_ext, List, [], ◌∷◌, Option, arith}
use zero_frameworks.Base.Bytes.{Bytes}
use zero_frameworks.Base.Assoc.{bytes_eq}
use zero_frameworks.Base.Int.{ℤ, pos, ◌+ℤ◌, ◌≤ℤ◌, wrap64}
use zero_frameworks.Store.{KvStore, Entry, Env, StdHash, Body, Result, with_entry, set_shard}
use zero_frameworks.Store.View.{live, Local, entry_at, entry_at_after, answer}
use zero_frameworks.Store.Evict.Laws.{evict_unlimited}
use zero_frameworks.Store.Strings.{
  get, exists, type, set_opt, del, persist, incr_by, append, strlen,
}
use zero_frameworks.Store.Strings.Locals.{
  untouched, get-Local, exists-Local, type-Local, strlen-Local, persist-Local, set-Local,
  incr-Local, append-Local,
}
use zero_frameworks.Store.Strings.Deletion.{mem, del_many_exact, maxmemory-del_many}
use zero_frameworks.Store.Expiry.{pexpire}
use zero_frameworks.Store.Expiry.Laws.{expire-Local}
use zero_frameworks.Store.Lists.{list_push, list_pop}
use zero_frameworks.Store.Lists.Locals.{push-Local, pop-Local}
use zero_frameworks.Store.Hashes.{hset, hget, hget_body, hdel}
use zero_frameworks.Store.Hashes.Laws.{field_reply, hset-Local, hdel-Local}
use zero_frameworks.Store.Sets.{set_add, set_is_member, is_member_body}
use zero_frameworks.Store.Sets.Laws.{member_reply, add-Local}
use zero_frameworks.Store.Flat.{
  Command, get_it, exists_it, type_it, strlen_it, persist_it, del_it, set_it, incr_it, pexpire_it,
  append_it, hget_it, hdel_it, hset_it, push_it, pop_it, add_it, is_member_it, Answer, text, count,
  number, flag, maybe_flag, maybe_count, name, answered, run, Step, run_all, Meaning, meaning,
  flat_step, flat_run,
}

module _ ⦃h : StdHash⦄ where
  -- What an outcome on a key has to do with the meaning of the command.
  record Refines (s : KvStore) (db : ℕ) (key : Bytes) (now : ℤ) (outcome : KvStore × Answer)
      (m : Meaning) : Type 0 where
    stores : entry_at outcome.0 ≡ flat_step (entry_at s) db key now m
    answers : outcome.1 ≡ m.answer (live now (entry_at s db key))
    keeps : outcome.0.maxmemory ≡ s.maxmemory

  maxmemory-with_entry :
      {R : Type 0} (s : KvStore) (db : ℕ) (key : Bytes) (now : ℤ) (body : Body R)
      → (with_entry s db key now body).0.maxmemory ≡ s.maxmemory
  unfolding with_entry set_shard
  maxmemory-with_entry s db key now body = refl

  with_entry-Refines :
      {R : Type 0} (s : KvStore) (db : ℕ) (key : Bytes) (now : ℤ) (body : Body R)
      (after : Option Entry → Option Entry) (reply : Option Entry → R) (wrap : R → Answer)
      → Local key body after reply
      → Refines s db key now
          (answered wrap (with_entry s db key now body))
          (record { after = after; answer = λ e. wrap (reply e) })
  unfolding flat_step
  with_entry-Refines s db key now body after reply wrap l = record {
    stores = fun_ext (λ d. fun_ext (λ j. entry_at_after s db key now body l d j));
    answers = ap wrap (answer s db key now body l);
    keeps = maxmemory-with_entry s db key now body;
  }

  pub hget-Local : (key field : Bytes) → Local key (hget_body field) (λ e. e) (field_reply field)
  hget-Local key field = record {
    stores = λ m e j found. unfold hget_body in ground (arith, untouched key j m e found);
    replies = λ m e. unfold hget_body field_reply in ground arith;
  }

  pub is_member-Local : (key x : Bytes) → Local key (is_member_body x) (λ e. e) (member_reply x)
  is_member-Local key x = record {
    stores = λ m e j found. unfold is_member_body in ground (arith, untouched key j m e found);
    replies = λ m e. unfold is_member_body member_reply in ground arith;
  }

  del-Refines :
      (s : KvStore) (db : ℕ) (key : Bytes) (env : Env)
      → Refines s db key env.now
          (answered (λ b. flag (Result.ok b)) (del s db key env))
          (meaning env.now del_it)
  unfolding flat_step meaning mem del
  del-Refines s db key env = record {
    stores =
        fun_ext (λ d. fun_ext (λ j. ground (arith, (del_many_exact s db (key ∷ []) env).0 d j)));
    answers = ap (λ b. flag (Result.ok b)) ((del_many_exact s db [] env).1 key);
    keeps = maxmemory-del_many s db (key ∷ []) env;
  }

  -- The commands that evict first are given a store without a limit.
  run-Refines :
      (s : KvStore) (db : ℕ) (key : Bytes) (c : Command) (env : Env)
      → s.maxmemory ≤ℤ pos 0
      → Refines s db key env.now (run s db key c env) (meaning env.now c)
  unfolding run meaning get exists type strlen persist set_opt incr_by pexpire append hget hdel hset
      list_push list_pop set_add set_is_member
  run-Refines s db key get_it env free =
      with_entry-Refines s db key env.now _ _ _ text (get-Local key)
  run-Refines s db key exists_it env free =
      with_entry-Refines s db key env.now _ _ _ (λ b. flag (Result.ok b)) (exists-Local key)
  run-Refines s db key type_it env free =
      with_entry-Refines s db key env.now _ _ _ name (type-Local key)
  run-Refines s db key strlen_it env free =
      with_entry-Refines s db key env.now _ _ _ maybe_count (strlen-Local key env.now)
  run-Refines s db key persist_it env free =
      with_entry-Refines s db key env.now _ _ _ (λ n. number (Result.ok n)) (persist-Local key)
  run-Refines s db key del_it env free = del-Refines s db key env
  run-Refines s db key (set_it value nx xx ex px) env free = rw (evict_unlimited env s free) (
      with_entry-Refines s db key env.now _ _ _ (λ b. flag (Result.ok b))
        (set-Local key env.now value nx xx ex px))
  run-Refines s db key (incr_it delta) env free =
      with_entry-Refines s db key env.now _ _ _ number (incr-Local key delta)
  run-Refines s db key (pexpire_it life) env free =
      with_entry-Refines s db key env.now _ _ _ (λ n. number (Result.ok n))
        (expire-Local key life (wrap64 (env.now +ℤ life)))
  run-Refines s db key (append_it value) env free =
      rw (evict_unlimited env s free)
        (with_entry-Refines s db key env.now _ _ _ count (append-Local key env.now value))
  run-Refines s db key (hget_it field) env free =
      with_entry-Refines s db key env.now _ _ _ text (hget-Local key field)
  run-Refines s db key (hdel_it field) env free =
      with_entry-Refines s db key env.now _ _ _ flag (hdel-Local key field)
  run-Refines s db key (hset_it field value) env free =
      with_entry-Refines s db key env.now _ _ _ flag (hset-Local key field value)
  run-Refines s db key (push_it v vs left) env free =
      with_entry-Refines s db key env.now _ _ _ count (push-Local key (v ∷ vs) left)
  run-Refines s db key (pop_it left) env free =
      with_entry-Refines s db key env.now _ _ _ text (pop-Local key left)
  run-Refines s db key (add_it x xs) env free =
      with_entry-Refines s db key env.now _ _ _ count (add-Local key (x ∷ xs))
  run-Refines s db key (is_member_it x) env free =
      with_entry-Refines s db key env.now _ _ _ maybe_flag (is_member-Local key x)

  -- A store without a memory limit and the flat map that it stands for give the same answers to any
  -- history of the commands of `Command`, whatever the clock reads at each, and the store goes on
  -- standing for that map.
  pub run_all-flat_run :
      (s : KvStore) (steps : List Step)
      → s.maxmemory ≤ℤ pos 0
      → (entry_at (run_all s steps).0 ≡ (flat_run (entry_at s) steps).0)
        × ((run_all s steps).1 ≡ (flat_run (entry_at s) steps).1)
  unfolding run_all flat_run
  run_all-flat_run s [] free = (refl, refl)
  run_all-flat_run s (step ∷ steps) free =
      let r = run-Refines s step.db step.key step.command step.env free in
      let s' = (run s step.db step.key step.command step.env).0 in
      let ih = run_all-flat_run s' steps (subst (λ limit. limit ≤ℤ pos 0) (sym r.keeps) free) in
      (
        ih.0 ∙ ap (λ f. (flat_run f steps).0) r.stores,
        ap (λ rest. (run s step.db step.key step.command step.env).1 ∷ rest)
              (ih.1 ∙ ap (λ f. (flat_run f steps).1) r.stores)
            ∙ ap
                (λ first.
                  first
                  ∷ (flat_run
                      (flat_step (entry_at s) step.db step.key step.env.now
                        (meaning step.env.now step.command))
                      steps).1)
                r.answers,
      )

-- The hash function of the keys cannot be observed: with any two of them, two stores without a memory
-- limit that hold the same entries give the same answers to any history of commands, and hold the
-- same entries afterwards.
run_all_any_hash :
    (h h' : StdHash) (s s' : KvStore) (steps : List Step)
    → s.maxmemory ≤ℤ pos 0
    → s'.maxmemory ≤ℤ pos 0
    → entry_at ⦃h = h⦄ s ≡ entry_at ⦃h = h'⦄ s'
    → ((run_all ⦃h = h⦄ s steps).1 ≡ (run_all ⦃h = h'⦄ s' steps).1)
      × (entry_at ⦃h = h⦄ (run_all ⦃h = h⦄ s steps).0
          ≡ entry_at ⦃h = h'⦄ (run_all ⦃h = h'⦄ s' steps).0)
run_all_any_hash h h' s s' steps free free' same =
    let r = run_all-flat_run ⦃h = h⦄ s steps free in
    let r' = run_all-flat_run ⦃h = h'⦄ s' steps free' in
    (
      r.1 ∙ ap (λ f. (flat_run f steps).1) same ∙ sym r'.1,
      r.0 ∙ ap (λ f. (flat_run f steps).0) same ∙ sym r'.0,
    )
