-- ===== src/Store/Evict/Kept.antt =====
-- The eviction keeps every key in its shard.
use zero_frameworks.Base.{
  ℕ, zero, suc, ◌+◌, ◌||◌, length, arith, Bool-cases, Option-cases, List-cases, inl, inr, subst,
}
use zero_frameworks.Base.Bytes.{codes, beq}
use zero_frameworks.Base.Assoc.{lookup, erase, nat_eq, bytes_eq}
use zero_frameworks.Base.Int.{pos, leb_ℤ}
use zero_frameworks.Store.{KvStore, Env, StdHash, put_db, bump_watch_key}
use zero_frameworks.Store.View.{db_of_found, db_of-bump, db_of-put_db}
use zero_frameworks.Store.Evict.{
  Place, places, used_memory_approx, sample, choose, evict_place, evict_loop, evict_if_needed,
}
use zero_frameworks.Store.Placed.{Placed, Kept, set_shard-Placed, erase-Kept}

module _ ⦃h : StdHash⦄ where
  evict_place-Placed : (p : Place) (s : KvStore) → Placed s → Placed (evict_place p s)
  unfolding evict_place
  evict_place-Placed p s placed = elim (Option-cases (lookup p.db (s.shards p.shard).dbs)) [
    | inl missing ↦ rw (missing, evict_place) placed
    | inr (m, found) ↦
        rw (found, evict_place)
          (set_shard-Placed s p.shard p.db (erase p.key m)
            (bump_watch_key p.db p.key (put_db p.db (erase p.key m) (s.shards p.shard))) placed
            (λ d. ground (
              arith,
              db_of-bump p.db d p.key (put_db p.db (erase p.key m) (s.shards p.shard)),
              db_of-put_db p.db d (erase p.key m) (s.shards p.shard),
            ))
            (erase-Kept p.shard m p.key (
              subst (Kept p.shard) (db_of_found p.db (s.shards p.shard) m found)
                (placed p.shard p.db))))
  ]

  evict_loop-Placed :
      (env : Env) (left round : ℕ) (s : KvStore) → Placed s → Placed (evict_loop env left round s)
  unfolding evict_loop
  evict_loop-Placed env zero round s placed = placed
  evict_loop-Placed env (suc left) round s placed =
      elim (Bool-cases (leb_ℤ (pos (used_memory_approx s env.now)) s.maxmemory)) [
        | inl enough ↦ rw (enough, evict_loop) placed
        | inr more ↦ elim (List-cases (sample s env.now)) [
          | inl none_left ↦ rw (more, none_left, evict_loop) placed
          | inr (p, ps, found) ↦
              let victim = choose s.maxmemory_policy env round p ps in
              elim (Option-cases (lookup victim.db (s.shards victim.shard).dbs)) [
                | inl missing ↦ rw (more, found, missing, evict_loop) placed
                | inr (m, there) ↦
                    rw (more, found, there, evict_loop)
                      (evict_loop-Placed env left (round + 1) (evict_place victim s)
                        (evict_place-Placed victim s placed))
              ]
        ]
      ]

  pub evict_if_needed-Placed : (env : Env) (s : KvStore) → Placed s → Placed (evict_if_needed env s)
  unfolding evict_if_needed
  evict_if_needed-Placed env s placed =
      elim (Bool-cases (leb_ℤ s.maxmemory (pos 0) || beq s.maxmemory_policy (codes "noeviction"))) [
        | inl off ↦ rw (off, evict_if_needed) placed
        | inr on ↦
            rw (on, evict_if_needed) (evict_loop-Placed env (length (places s) + 1) 0 s placed)
      ]
