-- ===== src/Store/Evict/Enough.antt =====
-- The eviction has rounds enough: it ends when the memory suffices or nothing may be evicted.
use zero_frameworks.Base.{
  ℕ, zero, suc, ◌+◌, ◌<◌, ◌≡◌, ◌∙◌, sym, ap, subst, refl, ◌⊎◌, inl, inr, true, false, ◌||◌, List,
  [], ◌∷◌, map, if◌then◌else◌, some, ◌==◌, length, length-append, All, arith, Bool-cases,
  List-cases,
}
use zero_frameworks.Base.Bytes.{codes, beq}
use zero_frameworks.Base.Assoc.{
  Assoc, lookup, insert, erase, nat_eq, bytes_eq, Unique, insert-Unique, erase-Unique, length-erase,
  lookup-insert,
}
use zero_frameworks.Base.Int.{ℤ, pos, leb_ℤ}
use zero_frameworks.Store.{KvStore, Shard, DbMap, Env, put_db, set_shard, bump_watch_key}
use zero_frameworks.Store.Evict.{
  Place, sum_by, gather, shard_ids, places_in, places, used_memory_approx, sample, choose,
  evict_place, evict_loop, evict_if_needed,
}
use zero_frameworks.Store.Evict.Stored.{Stored, NoRepeats, sample-Stored, choose-All}

length-gather {ℓ κ} :
    {A : Type ℓ} {B : Type κ} (f : A → List B) (xs : List A)
    → length (gather f xs) ≡ sum_by (λ x. length (f x)) xs
unfolding gather sum_by
length-gather f [] = refl
length-gather f (x ∷ xs) = omega (arith, length-append (f x) (gather f xs), length-gather f xs)

length-map {ℓ κ} :
    {A : Type ℓ} {B : Type κ} (f : A → B) (xs : List A) → length (map f xs) ≡ length xs
length-map f [] = refl
length-map f (x ∷ xs) = omega (arith, length-map f xs)

-- The entries of a shard.
shard_size : Shard → ℕ
unfolding sum_by
shard_size sh = sum_by (λ dm. length dm.1) sh.dbs

sum_by-ext {ℓ} :
    {A : Type ℓ} (f g : A → ℕ) (xs : List A) → ((x : A) → f x ≡ g x) → sum_by f xs ≡ sum_by g xs
unfolding sum_by
sum_by-ext f g [] h = refl
sum_by-ext f g (x ∷ xs) h = omega (arith, h x, sum_by-ext f g xs h)

length-places : (s : KvStore) → length (places s) ≡ sum_by (λ i. shard_size (s.shards i)) shard_ids
unfolding places shard_size
length-places s =
    length-gather (λ i. gather (places_in i) (s.shards i).dbs) shard_ids
    ∙ sum_by-ext _ _ shard_ids (λ i.
      length-gather (places_in i) (s.shards i).dbs
      ∙ sum_by-ext _ _ (s.shards i).dbs (λ dm. unfold places_in in length-map _ dm.1))

occurrences : ℕ → List ℕ → ℕ
occurrences i [] = 0
occurrences i (j ∷ js) = (if i == j then 1 else 0) + occurrences i js

-- One of the numbers summed up is one less.
sum_by-less :
    (f g : ℕ → ℕ) (i : ℕ) (js : List ℕ)
    → ((j : ℕ) → g j + (if i == j then 1 else 0) ≡ f j)
    → sum_by g js + occurrences i js ≡ sum_by f js
unfolding sum_by occurrences
sum_by-less f g i [] h = refl
sum_by-less f g i (j ∷ js) h = omega (arith, h j, sum_by-less f g i js h)

occurrences-shard_ids : (i : ℕ) → i < 16 → occurrences i shard_ids ≡ 1
unfolding occurrences shard_ids
occurrences-shard_ids i h = ground arith

size-insert :
    (db : ℕ) (m m' : DbMap) (dbs : Assoc ℕ DbMap)
    → lookup db dbs ≡ some m
    → sum_by (λ dm. length dm.1) (insert db m' dbs) + length m
      ≡ sum_by (λ dm. length dm.1) dbs + length m'
unfolding sum_by lookup insert
size-insert db m m' [] h = cc
size-insert db m m' ((d, n) ∷ dbs) h = ground (arith, size-insert db m m' dbs)

length-erase_found :
    (s : KvStore) (p : Place)
    → NoRepeats s
    → (h : Stored s p) → length (erase p.key h.held) + 1 ≡ length h.held
length-erase_found s p n h =
    length-erase p.key h.held p.entry (n.maps p.shard p.db h.held h.found_map) h.found

dbs-evict_place :
    (s : KvStore) (p : Place) (h : Stored s p) (j : ℕ)
    → ((evict_place p s).shards j).dbs ≡ (
        if p.shard == j
        then insert p.db (erase p.key h.held) (s.shards j).dbs
        else (s.shards j).dbs)
unfolding evict_place set_shard put_db bump_watch_key
dbs-evict_place s p h j =
    rw (h.found_map, evict_place) (ground (arith, ap (λ i. (s.shards i).dbs) {x = p.shard} {y = j}))

size-evict_place :
    (s : KvStore) (p : Place)
    → NoRepeats s
    → Stored s p
    → (j : ℕ)
    → shard_size ((evict_place p s).shards j) + (if p.shard == j then 1 else 0)
      ≡ shard_size (s.shards j)
unfolding shard_size
size-evict_place s p n h j = ground (
  arith,
  dbs-evict_place s p h j,
  size-insert p.db h.held (erase p.key h.held) (s.shards p.shard).dbs h.found_map,
  length-erase_found s p n h,
  ap (λ i. (s.shards i).dbs) {x = p.shard} {y = j},
)

-- An eviction takes one entry out.
length-evict_place :
    (s : KvStore) (p : Place)
    → NoRepeats s
    → Stored s p
    → length (places (evict_place p s)) + 1 ≡ length (places s)
length-evict_place s p n h =
    let t = evict_place p s in
    let less =
      sum_by-less (λ i. shard_size (s.shards i)) (λ i. shard_size (t.shards i)) p.shard shard_ids
        (size-evict_place s p n h) in
    omega (arith, length-places s, length-places t, less, occurrences-shard_ids p.shard h.in_range)

Unique-evict_place :
    (s : KvStore) (p : Place)
    → NoRepeats s
    → (h : Stored s p) → (j : ℕ) → Unique ((evict_place p s).shards j).dbs
Unique-evict_place s p n h j =
    subst Unique (sym (dbs-evict_place s p h j))
      (ground (arith, n.dbs j, insert-Unique p.db (erase p.key h.held) (s.shards j).dbs (n.dbs j)))

NoRepeats-evict_place :
    (s : KvStore) (p : Place) → NoRepeats s → Stored s p → NoRepeats (evict_place p s)
NoRepeats-evict_place s p n h = record {
  dbs = Unique-evict_place s p n h;
  maps = λ j d m there.
      let left = erase-Unique p.key h.held (n.maps p.shard p.db h.held h.found_map) in
      ground (
        arith,
        there,
        dbs-evict_place s p h j,
        lookup-insert p.db d (erase p.key h.held) (s.shards j).dbs,
        n.maps j d m,
        left,
      );
}

-- Where the eviction may stop: the memory suffices, or nothing is a candidate.
abbrev pub Ended : ℤ → KvStore → Type 0
Ended now t = (leb_ℤ (pos (used_memory_approx t now)) t.maxmemory ≡ true) ⊎ (sample t now ≡ [])

evict_loop-Ended :
    (env : Env) (left round : ℕ) (s : KvStore)
    → NoRepeats s
    → length (places s) < left
    → Ended env.now (evict_loop env left round s)
unfolding evict_loop
evict_loop-Ended env zero round s n enough = absurd (omega (arith, enough))
evict_loop-Ended env (suc left) round s n enough =
    elim (Bool-cases (leb_ℤ (pos (used_memory_approx s env.now)) s.maxmemory)) [
      | inl suffices ↦ rw (suffices, evict_loop) (inl suffices)
      | inr more ↦ elim (List-cases (sample s env.now)) [
        | inl none_left ↦ rw (more, none_left, evict_loop) (inr none_left)
        | inr (p, ps, found) ↦
            let victim = choose s.maxmemory_policy env round p ps in
            let h =
              choose-All (Stored s) s.maxmemory_policy env round p ps
                (subst (All (Stored s)) found (sample-Stored s env.now n)) in
            rw (more, found, h.found_map, evict_loop)
              (evict_loop-Ended env left (round + 1) (evict_place victim s)
                (NoRepeats-evict_place s victim n h)
                (omega (arith, enough, length-evict_place s victim n h)))
      ]
    ]

-- With a memory limit and a policy that evicts, the eviction ends with the estimated memory within
-- the limit or with no entry left that the policy may evict, if no database stands twice in a shard
-- and no key twice in a database of one.
pub evict_if_needed-Ended :
    (env : Env) (s : KvStore)
    → NoRepeats s
    → (leb_ℤ s.maxmemory (pos 0) || beq s.maxmemory_policy (codes "noeviction")) ≡ false
    → Ended env.now (evict_if_needed env s)
unfolding evict_if_needed
evict_if_needed-Ended env s n on =
    rw (on, evict_if_needed) (evict_loop-Ended env (length (places s) + 1) 0 s n (omega arith))
