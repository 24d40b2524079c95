-- ===== src/Rpc/LoadBalancer/Indices.antt =====
-- The nodes behind the numbers that the choices collect.
use zero_frameworks.Base.{
  subst, ℕ, zero, suc, ◌-◌, ◌%◌, ◌≤◌, ◌<◌, ◌≡◌, ◌≢◌, refl, sym, ◌∙◌, Bool, true, false, List, [],
  ◌∷◌, if◌then◌else◌, none, some, length, get_elem?, arith, All,
}
use zero_frameworks.Rpc.LoadBalancer.{RpcNode, indices, pick, healthy_at}
use native.Mathlib.Nat.{mod-lt}

some_same : {A : Type 0} (x y : A) → some x ≡ some y → x ≡ y
some_same x y same = cc

-- A healthy node under a number, where the numbers begin at another one.
abbrev pub HealthyFrom : ℕ → List RpcNode → ℕ → Type 0
HealthyFrom i nodes j = (i ≤ j) × (healthy_at nodes (j - i) ≡ true)

pub later :
    (i j : ℕ) (n : RpcNode) (nodes : List RpcNode)
    → HealthyFrom (suc i) nodes j
    → HealthyFrom i (n ∷ nodes) j
unfolding healthy_at
later i j n nodes (low, well) =
    let one_more : j - i ≡ suc (j - suc i) = omega (arith, low) in
    (omega (arith, low), rw one_more well)

pub here :
    (i : ℕ) (n : RpcNode) (nodes : List RpcNode) → n.healthy ≡ true → HealthyFrom i (n ∷ nodes) i
unfolding healthy_at
here i n nodes well = let none_more : i - i ≡ 0 = omega arith in (omega arith, rw none_more well)

-- A test that only healthy nodes pass.
abbrev pub OfHealthy : (RpcNode → Bool) → Type 0
OfHealthy test = (n : RpcNode) → test n ≡ true → n.healthy ≡ true

module _ {A : Type 0} (P : A → Type 0) where
  All-if :
      (b : Bool) (x : A) (xs : List A)
      → (b ≡ true → P x)
      → All P xs
      → All P (if b then x ∷ xs else xs)
  All-if true x xs p ps = (p refl, ps)
  All-if false x xs p ps = ps

  All-map : {Q : A → Type 0} → ((a : A) → P a → Q a) → (xs : List A) → All P xs → All Q xs
  All-map f [] ps = tt
  All-map f (x ∷ xs) (p, ps) = (f x p, All-map f xs ps)

  pub get_elem?-All : (xs : List A) (i : ℕ) (x : A) → All P xs → get_elem? xs i ≡ some x → P x
  get_elem?-All [] i x ps found = cc
  get_elem?-All (y ∷ xs) zero x (p, ps) found = subst P (some_same y x found) p
  get_elem?-All (y ∷ xs) (suc i) x (p, ps) found = get_elem?-All xs i x ps found

pub indices-HealthyFrom :
    (test : RpcNode → Bool) (i : ℕ) (nodes : List RpcNode)
    → OfHealthy test
    → All (HealthyFrom i nodes) (indices test i nodes)
unfolding indices
indices-HealthyFrom test i [] only = tt
indices-HealthyFrom test i (n ∷ nodes) only =
    All-if (HealthyFrom i (n ∷ nodes)) (test n) i (indices test (suc i) nodes)
      (λ passed. here i n nodes (only n passed))
      (All-map (HealthyFrom (suc i) nodes) (λ j. later i j n nodes) (indices test (suc i) nodes)
        (indices-HealthyFrom test (suc i) nodes only))

if_nil :
    {A : Type 0} (b : Bool) (x : A) (xs : List A)
    → (if b then x ∷ xs else xs) ≡ []
    → (b ≡ false) × (xs ≡ [])
if_nil true x xs nothing = (cc, cc)
if_nil false x xs nothing = (refl, nothing)

none-some : {A : Type 0} {x : A} → none ≢ some x
none-some same = cc

-- Where a node passes, there is a number.
pub some_indices :
    (test : RpcNode → Bool) (i : ℕ) (nodes : List RpcNode)
    → indices test i nodes ≡ []
    → All (λ n. test n ≡ false) nodes
unfolding indices
some_indices test i [] nothing = tt
some_indices test i (n ∷ nodes) nothing =
    let (failed, rest) = if_nil (test n) i (indices test (suc i) nodes) nothing in
    (failed, some_indices test (suc i) nodes rest)

get_there : {A : Type 0} (xs : List A) (i : ℕ) → i < length xs → (x : A) × (get_elem? xs i ≡ some x)
get_there [] i inside = absurd (omega (arith, inside))
get_there (x ∷ xs) zero inside = (x, refl)
get_there (x ∷ xs) (suc i) inside = get_there xs i (omega (arith, inside))

pub pick_one : (candidates : List ℕ) (hash : ℕ) → pick candidates hash ≡ none → candidates ≡ []
unfolding pick
pick_one [] hash nothing = refl
pick_one (c ∷ candidates) hash nothing =
    let (x, there) =
      get_there (c ∷ candidates) (hash % length (c ∷ candidates)) (mod-lt hash (omega arith)) in
    absurd (none-some (sym nothing ∙ there))
