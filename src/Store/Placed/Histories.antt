-- ===== src/Store/Placed/Histories.antt =====
-- Every command keeps every key in its shard, evictions included.
use zero_frameworks.Base.{ℕ, List, [], ◌∷◌, arith, Option-cases, inl, inr, subst}
use zero_frameworks.Base.Bytes.{Bytes}
use zero_frameworks.Base.Assoc.{lookup, erase, nat_eq, bytes_eq}
use zero_frameworks.Base.Int.{ℤ, ◌+ℤ◌, wrap64}
use zero_frameworks.Store.{KvStore, Env, StdHash, put_db, bump_watch_key, find_entry, shard_idx}
use zero_frameworks.Store.View.{db_of_found, db_of-bump, db_of-put_db}
use zero_frameworks.Store.Evict.{evict_if_needed}
use zero_frameworks.Store.Evict.Kept.{evict_if_needed-Placed}
use zero_frameworks.Store.Strings.{
  get, exists, type, set_opt, del, del_key, del_many, persist, incr_by, append, strlen,
}
use zero_frameworks.Store.Strings.Locals.{
  get-Local, exists-Local, type-Local, strlen-Local, persist-Local, set-Local, incr-Local,
  append-Local,
}
use zero_frameworks.Store.Expiry.{pexpire}
use zero_frameworks.Store.Expiry.Laws.{expire-Local}
use zero_frameworks.Store.Lists.{list_push, list_pop}
use zero_frameworks.Store.Lists.Locals.{push-Local, pop-Local}
use zero_frameworks.Store.Hashes.{hset, hget, hdel}
use zero_frameworks.Store.Hashes.Laws.{hset-Local, hdel-Local}
use zero_frameworks.Store.Sets.{set_add, set_is_member}
use zero_frameworks.Store.Sets.Laws.{add-Local}
use zero_frameworks.Store.Flat.{
  Command, get_it, exists_it, type_it, strlen_it, persist_it, del_it, set_it, incr_it, pexpire_it,
  append_it, hget_it, hdel_it, hset_it, push_it, pop_it, add_it, is_member_it, run, Step, run_all,
}
use zero_frameworks.Store.Flat.Laws.{hget-Local, is_member-Local}
use zero_frameworks.Store.Placed.{
  Placed, Kept, set_shard-Placed, erase-Kept, find_entry-Kept, with_entry-Placed,
}
use zero_frameworks.Store.Placed.Bodies

module _ ⦃h : StdHash⦄ where
  del_key-Placed :
      (s : KvStore) (db : ℕ) (key : Bytes) (now : ℤ) → Placed s → Placed (del_key s db key now).0
  unfolding del_key
  del_key-Placed s db key now placed =
      let i = shard_idx key in
      let sh = s.shards i in
      elim (Option-cases (lookup db sh.dbs)) [
        | inl missing ↦ rw (missing, del_key) placed
        | inr (m, found) ↦
            let kept = subst (Kept i) (db_of_found db sh m found) (placed i db) in
            elim (Option-cases (find_entry m key now).1) [
              | inl gone ↦
                  rw (found, gone, del_key)
                    (set_shard-Placed s i db (find_entry m key now).0 _ placed
                      (λ d. db_of-put_db db d (find_entry m key now).0 sh)
                      (find_entry-Kept i m key now kept))
              | inr (e, there) ↦
                  rw (found, there, del_key)
                    (set_shard-Placed s i db (erase key m)
                      (bump_watch_key db key (put_db db (erase key m) sh)) placed
                      (λ d. ground (
                        arith,
                        db_of-bump db d key (put_db db (erase key m) sh),
                        db_of-put_db db d (erase key m) sh,
                      ))
                      (erase-Kept i m key kept))
            ]
      ]

  del_many-Placed :
      (s : KvStore) (db : ℕ) (keys : List Bytes) (env : Env)
      → Placed s
      → Placed (del_many s db keys env).0
  unfolding del_many
  del_many-Placed s db [] env placed = placed
  del_many-Placed s db (key ∷ keys) env placed =
      del_many-Placed (del_key s db key env.now).0 db keys env
        (del_key-Placed s db key env.now placed)

  run-Placed :
      (s : KvStore) (db : ℕ) (key : Bytes) (c : Command) (env : Env)
      → Placed s
      → Placed (run s db key c env).0
  unfolding run get exists type strlen persist del set_opt incr_by pexpire append hget hdel hset
      list_push list_pop set_add set_is_member
  run-Placed s db key get_it env p =
      with_entry-Placed s db key env.now _ _ _ (get-Local key) Bodies.get-Tidy p
  run-Placed s db key exists_it env p =
      with_entry-Placed s db key env.now _ _ _ (exists-Local key) Bodies.exists-Tidy p
  run-Placed s db key type_it env p =
      with_entry-Placed s db key env.now _ _ _ (type-Local key) Bodies.type-Tidy p
  run-Placed s db key strlen_it env p =
      with_entry-Placed s db key env.now _ _ _ (strlen-Local key env.now)
        (Bodies.strlen-Tidy key env.now) p
  run-Placed s db key persist_it env p =
      with_entry-Placed s db key env.now _ _ _ (persist-Local key) (Bodies.persist-Tidy key) p
  run-Placed s db key del_it env p = del_many-Placed s db (key ∷ []) env p
  run-Placed s db key (set_it value nx xx ex px) env p =
      with_entry-Placed (evict_if_needed env s) db key env.now _ _ _
        (set-Local key env.now value nx xx ex px) (Bodies.set-Tidy key env.now value nx xx ex px)
        (evict_if_needed-Placed env s p)
  run-Placed s db key (incr_it delta) env p =
      with_entry-Placed s db key env.now _ _ _ (incr-Local key delta) (Bodies.incr-Tidy key delta) p
  run-Placed s db key (pexpire_it life) env p =
      let at = wrap64 (env.now +ℤ life) in
      with_entry-Placed s db key env.now _ _ _ (expire-Local key life at)
        (Bodies.expire-Tidy key life at) p
  run-Placed s db key (append_it value) env p =
      with_entry-Placed (evict_if_needed env s) db key env.now _ _ _
        (append-Local key env.now value) (Bodies.append-Tidy key env.now value)
        (evict_if_needed-Placed env s p)
  run-Placed s db key (hget_it field) env p =
      with_entry-Placed s db key env.now _ _ _ (hget-Local key field) (Bodies.hget-Tidy field) p
  run-Placed s db key (hdel_it field) env p =
      with_entry-Placed s db key env.now _ _ _ (hdel-Local key field) (Bodies.hdel-Tidy key field) p
  run-Placed s db key (hset_it field value) env p =
      with_entry-Placed s db key env.now _ _ _ (hset-Local key field value)
        (Bodies.hset-Tidy key field value) p
  run-Placed s db key (push_it v vs left) env p =
      with_entry-Placed s db key env.now _ _ _ (push-Local key (v ∷ vs) left)
        (Bodies.push-Tidy key (v ∷ vs) left) p
  run-Placed s db key (pop_it left) env p =
      with_entry-Placed s db key env.now _ _ _ (pop-Local key left) (Bodies.pop-Tidy key left) p
  run-Placed s db key (add_it x xs) env p =
      with_entry-Placed s db key env.now _ _ _ (add-Local key (x ∷ xs))
        (Bodies.add-Tidy key (x ∷ xs)) p
  run-Placed s db key (is_member_it x) env p =
      with_entry-Placed s db key env.now _ _ _ (is_member-Local key x) (Bodies.is_member-Tidy x) p

  -- Any history of the commands of `Command`, with the evictions that it causes, keeps every key in
  -- the shard that its hash names and every map free of repeated keys.
  pub run_all-Placed : (s : KvStore) (steps : List Step) → Placed s → Placed (run_all s steps).0
  unfolding run_all
  run_all-Placed s [] placed = placed
  run_all-Placed s (step ∷ steps) placed =
      run_all-Placed (run s step.db step.key step.command step.env).0 steps
        (run-Placed s step.db step.key step.command step.env placed)
