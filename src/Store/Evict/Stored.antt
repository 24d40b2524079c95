-- ===== src/Store/Evict/Stored.antt =====
-- The places that the eviction walks through, samples and chooses from are places of stored entries.
use zero_frameworks.Base.{
  ℕ, zero, suc, ◌<◌, ◌≡◌, Bool, true, false, List, [], ◌∷◌, ◌++◌, map, if◌then◌else◌, some, take,
  get_or, All, arith,
}
use zero_frameworks.Base.Bytes.{Bytes}
use zero_frameworks.Base.Assoc.{Assoc, Eq, lookup, nat_eq, bytes_eq, Unique, test_refl}
use zero_frameworks.Base.Int.{ℤ, ltb_ℤ}
use zero_frameworks.Store.{KvStore, DbMap, Env}
use zero_frameworks.Store.Evict.{
  Place, gather, keep, shard_ids, places_in, places, least, choose, sample, use_random, use_ttl,
  use_lru, ttl_left,
}

module _ {ℓ κ} {A : Type ℓ} (P : A → Type κ) where
  All-append : (xs ys : List A) → All P xs → All P ys → All P (xs ++ ys)
  All-append [] ys h k = k
  All-append (x ∷ xs) ys h k = (h.0, All-append xs ys h.1 k)

  All-if :
      (b : Bool) (x : A) (rest : List A) → P x → All P rest → All P (if b then x ∷ rest else rest)
  All-if true x rest h k = (h, k)
  All-if false x rest h k = k

  All-keep : (p : A → Bool) (xs : List A) → All P xs → All P (keep p xs)
  unfolding keep
  All-keep p [] h = tt
  All-keep p (x ∷ xs) h = All-if (p x) x (keep p xs) h.0 (All-keep p xs h.1)

  All-take : (n : ℕ) (xs : List A) → All P xs → All P (take n xs)
  All-take zero xs h = tt
  All-take (suc n) [] h = tt
  All-take (suc n) (x ∷ xs) h = (h.0, All-take n xs h.1)

  All-get_or : (xs : List A) (n : ℕ) (d : A) → All P xs → P d → P (get_or xs n d)
  All-get_or [] n d h k = k
  All-get_or (x ∷ xs) zero d h k = h.0
  All-get_or (x ∷ xs) (suc n) d h k = All-get_or xs n d h.1 k

All-gather {ℓ κ μ} :
    {A : Type ℓ} {B : Type μ} (P : B → Type κ) (f : A → List B) (xs : List A)
    → All (λ x. All P (f x)) xs
    → All P (gather f xs)
unfolding gather
All-gather P f [] h = tt
All-gather P f (x ∷ xs) h = All-append P (f x) (gather f xs) h.0 (All-gather P f xs h.1)

-- The entries of a part of a map are found under their keys in the whole.
All-found {ℓ κ} :
    {K : Type ℓ} {V : Type κ} ⦃e : Eq K⦄ (whole m : Assoc K V)
    → ((k : K) (v : V) → lookup k m ≡ some v → lookup k whole ≡ some v)
    → Unique m
    → All (λ kv. lookup kv.0 whole ≡ some kv.1) m
unfolding lookup
All-found whole [] inside u = tt
All-found ⦃e = e⦄ whole ((j, w) ∷ m) inside u = (
  inside j w (ground (arith, test_refl j)),
  All-found whole m (λ k v found. inside k v (ground (arith, found, u.0, e.test_iff j k))) u.1,
)

-- A place that names an entry of the store.
pub record Stored (s : KvStore) (p : Place) : Type 0 where
  pub in_range : p.shard < 16
  pub held : DbMap
  pub found_map : lookup p.db (s.shards p.shard).dbs ≡ some held
  pub found : lookup p.key held ≡ some p.entry

-- No database and no key of one stands twice.
pub record NoRepeats (s : KvStore) : Type 0 where
  pub dbs : (i : ℕ) → Unique (s.shards i).dbs
  pub maps : (i db : ℕ) (m : DbMap) → lookup db (s.shards i).dbs ≡ some m → Unique m

All-imp {ℓ κ μ} :
    {A : Type ℓ} {P : A → Type κ} {Q : A → Type μ} (xs : List A)
    → ((x : A) → P x → Q x)
    → All P xs
    → All Q xs
All-imp [] step h = tt
All-imp (x ∷ xs) step h = (step x h.0, All-imp xs step h.1)

All-map {ℓ κ μ} :
    {A : Type ℓ} {B : Type κ} (P : B → Type μ) (f : A → B) (xs : List A)
    → All (λ x. P (f x)) xs
    → All P (map f xs)
All-map P f [] h = tt
All-map P f (x ∷ xs) h = (h.0, All-map P f xs h.1)

ids_in_range : All (λ i. i < 16) shard_ids
unfolding shard_ids
ids_in_range = ground arith

places_in-Stored :
    (s : KvStore) (i : ℕ) (dm : ℕ × DbMap)
    → NoRepeats s
    → i < 16
    → lookup dm.0 (s.shards i).dbs ≡ some dm.1
    → All (Stored s) (places_in i dm)
unfolding places_in
places_in-Stored s i (db, m) n small there = All-map (Stored s) _ m (
    All-imp m (λ kv found. record { in_range = small; held = m; found_map = there; found = found })
      (All-found m m (λ k v found. found) (n.maps i db m there)))

pub places-Stored : (s : KvStore) → NoRepeats s → All (Stored s) (places s)
unfolding places
places-Stored s n =
    All-gather (Stored s) (λ i. gather (places_in i) (s.shards i).dbs) shard_ids
      (All-imp shard_ids
        (λ i small. All-gather (Stored s) (places_in i) (s.shards i).dbs (
          All-imp (s.shards i).dbs (λ dm there. places_in-Stored s i dm n small there)
            (All-found (s.shards i).dbs (s.shards i).dbs (λ k v found. found) (n.dbs i))))
        ids_in_range)

pub sample-Stored : (s : KvStore) (now : ℤ) → NoRepeats s → All (Stored s) (sample s now)
unfolding sample
sample-Stored s now n =
    All-take (Stored s) 16 _ (All-keep (Stored s) _ (places s) (places-Stored s n))

if-P {κ} : (P : Place → Type κ) (b : Bool) (p q : Place) → P p → P q → P (if b then p else q)
if-P P true p q h k = h
if-P P false p q h k = k

least-All {κ} :
    (P : Place → Type κ) (measure : Place → ℤ) (best : Place) (ps : List Place)
    → P best
    → All P ps
    → P (least measure best ps)
unfolding least
least-All P measure best [] h k = h
least-All P measure best (p ∷ ps) h k =
    least-All P measure (if ltb_ℤ (measure p) (measure best) then p else best) ps
      (if-P P (ltb_ℤ (measure p) (measure best)) p best k.0 h) k.1

pub choose-All {κ} :
    (P : Place → Type κ) (policy : Bytes) (env : Env) (round : ℕ) (p : Place) (ps : List Place)
    → All P (p ∷ ps)
    → P (choose policy env round p ps)
unfolding choose
choose-All P policy env round p ps h =
    if-P P (use_random policy) _ _ (All-get_or P (p ∷ ps) _ p h h.0) (
      if-P P (use_ttl policy) _ _ (least-All P (ttl_left env.now) p ps h.0 h.1)
        (if-P P (use_lru policy) _ _ (least-All P (λ q. q.entry.lru_ms) p ps h.0 h.1) h.0))
