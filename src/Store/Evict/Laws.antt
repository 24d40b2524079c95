-- ===== src/Store/Evict/Laws.antt =====
-- Eviction takes entries out and leaves the others as they are.
use zero_frameworks.Base.{
  ℕ, zero, suc, ◌+◌, ◌≡◌, refl, ◌⊎◌, none, arith, List-cases, Option-cases, Bool-cases, inl, inr,
  length,
}
use zero_frameworks.Base.Bytes.{Bytes}
use zero_frameworks.Base.Assoc.{lookup, erase, nat_eq, bytes_eq, lookup-erase}
use zero_frameworks.Base.Int.{pos, leb_ℤ, ◌≤ℤ◌}
use zero_frameworks.Store.{KvStore, Env, StdHash, put_db, set_shard}
use zero_frameworks.Store.View.{entry_at, db_of_found, db_of-put_db, db_of-bump}
use zero_frameworks.Store.Evict.{
  Place, evict_place, evict_loop, evict_if_needed, choose, sample, used_memory_approx, places,
}

module _ ⦃h : StdHash⦄ where
  -- The entry is as before, or gone.
  abbrev pub KeptOrGone : KvStore → KvStore → ℕ → Bytes → Type 0
  KeptOrGone s t db key = (entry_at t db key ≡ entry_at s db key) ⊎ (entry_at t db key ≡ none)

  evict_place_kept :
      (p : Place) (s : KvStore) (db : ℕ) (key : Bytes) → KeptOrGone s (evict_place p s) db key
  unfolding evict_place entry_at set_shard
  evict_place_kept p s db key = elim (Option-cases (lookup p.db (s.shards p.shard).dbs)) [
    | inl missing ↦ rw (missing, evict_place) (inl refl)
    | inr (m, found) ↦
        rw (found, evict_place)
          (ground (
            arith,
            found,
            db_of_found p.db (s.shards p.shard) m found,
            db_of-bump p.db db p.key (put_db p.db (erase p.key m) (s.shards p.shard)),
            db_of-put_db p.db db (erase p.key m) (s.shards p.shard),
            lookup-erase p.key key m,
          ))
  ]

  evict_loop_kept :
      (env : Env) (left round : ℕ) (s : KvStore) (db : ℕ) (key : Bytes)
      → KeptOrGone s (evict_loop env left round s) db key
  unfolding evict_loop
  evict_loop_kept env zero round s db key = inl refl
  evict_loop_kept env (suc left) round s db key =
      elim (Bool-cases (leb_ℤ (pos (used_memory_approx s env.now)) s.maxmemory)) [
        | inl enough ↦ rw (enough, evict_loop) (inl refl)
        | inr more ↦ elim (List-cases (sample s env.now)) [
          | inl none_left ↦ rw (more, none_left, evict_loop) (inl refl)
          | inr (p, ps, found) ↦
              let victim = choose s.maxmemory_policy env round p ps in
              elim (Option-cases (lookup victim.db (s.shards victim.shard).dbs)) [
                | inl missing ↦ rw (more, found, missing, evict_loop) (inl refl)
                | inr (m, there) ↦
                    rw (more, found, there, evict_loop)
                      (ground (
                        arith,
                        evict_place_kept victim s db key,
                        evict_loop_kept env left (round + 1) (evict_place victim s) db key,
                      ))
              ]
        ]
      ]

  -- Before it writes, an operation may evict. That leaves every entry as it is or takes it out, and
  -- where no memory limit is set nothing changes.
  pub evict_if_needed_kept :
      (env : Env) (s : KvStore) (db : ℕ) (key : Bytes) → KeptOrGone s (evict_if_needed env s) db key
  unfolding evict_if_needed
  evict_if_needed_kept env s db key =
      ground (arith, evict_loop_kept env (length (places s) + 1) 0 s db key)

  pub evict_unlimited : (env : Env) (s : KvStore) → s.maxmemory ≤ℤ pos 0 → evict_if_needed env s ≡ s
  unfolding evict_if_needed
  evict_unlimited env s h = ground arith
