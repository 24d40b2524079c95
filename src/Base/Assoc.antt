-- ===== src/Base/Assoc.antt =====
-- `std::unordered_map` and `std::map` as association lists: `find`, `m[k] = v`, `erase`, `size`.
-- An entry that is overwritten keeps its place, and the order of the entries is that of insertion.
use Prim.Native.Nat.{ℕ, ◌+◌}
use mathlib.Core.Path.{◌≡◌, refl}
use mathlib.Core.Logic.{◌↔◌, ◌≢◌}
use mathlib.Core.Bool.{Bool, true, false}
use mathlib.Core.Option.{Option, none, some}
use mathlib.Core.List.{List, [], ◌∷◌}
use native.Mathlib.Omega.{arith}
use zero_frameworks.Base.Tests.{if◌then◌else◌, ◌==◌, ==_iff}
use zero_frameworks.Base.Lists.{length}
use zero_frameworks.Base.Bytes.{Bytes, beq, beq_iff}

-- A type of keys: its equality test.
pub record Eq {ℓ} (K : Type ℓ) : Type ℓ where
  pub test : K → K → Bool
  pub test_iff : (a b : K) → (test a b ≡ true) ↔ (a ≡ b)

instance abbrev pub bytes_eq : Eq Bytes
bytes_eq = record { test = beq; test_iff = beq_iff }

instance abbrev pub nat_eq : Eq ℕ
nat_eq = record { test = ◌==◌; test_iff = ==_iff }

abbrev pub Assoc {ℓ κ} : Type ℓ → Type κ → Type (ℓ ⊔ κ)
Assoc K V = List (K × V)

module _ {ℓ κ} {K : Type ℓ} {V : Type κ} ⦃e : Eq K⦄ where
  unfoldable pub lookup : K → Assoc K V → Option V
  lookup k [] = none
  lookup k ((j, v) ∷ m) = if e.test j k then some v else lookup k m

  unfoldable pub insert : K → V → Assoc K V → Assoc K V
  insert k v [] = (k, v) ∷ []
  insert k v ((j, w) ∷ m) = if e.test j k then (j, v) ∷ m else (j, w) ∷ insert k v m

  unfoldable pub erase : K → Assoc K V → Assoc K V
  erase k [] = []
  erase k ((j, w) ∷ m) = let rest = erase k m in if e.test j k then rest else (j, w) ∷ rest

  -- No key occurs twice.
  abbrev pub Unique : Assoc K V → Type κ
  Unique [] = Unit {κ}
  Unique ((j, v) ∷ m) = (lookup j m ≡ none) × Unique m

  pub lookup-nil : (k : K) (m : Assoc K V) → m ≡ [] → lookup k m ≡ none
  unfolding lookup
  lookup-nil k [] h = refl
  lookup-nil k (x ∷ m) h = cc

  pub lookup-insert :
      (k j : K) (v : V) (m : Assoc K V)
      → lookup j (insert k v m) ≡ (if e.test k j then some v else lookup j m)
  unfolding lookup insert
  lookup-insert k j v [] = refl
  lookup-insert k j v ((i, w) ∷ m) =
      ground (arith, e.test_iff k j, e.test_iff i k, e.test_iff i j, lookup-insert k j v m)

  pub lookup-erase :
      (k j : K) (m : Assoc K V) → lookup j (erase k m) ≡ (if e.test k j then none else lookup j m)
  unfolding lookup erase
  lookup-erase k j [] = ground arith
  lookup-erase k j ((i, w) ∷ m) =
      ground (arith, e.test_iff k j, e.test_iff i k, e.test_iff i j, lookup-erase k j m)

  pub insert-Unique : (k : K) (v : V) (m : Assoc K V) → Unique m → Unique (insert k v m)
  unfolding lookup insert
  insert-Unique k v [] u = (refl, tt)
  insert-Unique k v ((i, w) ∷ m) u =
      ground (arith, insert-Unique k v m u.1, lookup-insert k i v m, e.test_iff i k, e.test_iff k i)

  pub erase-Unique : (k : K) (m : Assoc K V) → Unique m → Unique (erase k m)
  unfolding lookup erase
  erase-Unique k [] u = tt
  erase-Unique k ((i, w) ∷ m) u = ground (arith, erase-Unique k m u.1, lookup-erase k i m)

  -- An absent key is not erased.
  pub erase_absent : (k : K) (m : Assoc K V) → lookup k m ≡ none → erase k m ≡ m
  unfolding lookup erase
  erase_absent k [] h = refl
  erase_absent k ((i, w) ∷ m) h = ground (arith, erase_absent k m)

  pub length-erase :
      (k : K) (m : Assoc K V) (v : V)
      → Unique m
      → lookup k m ≡ some v
      → length (erase k m) + 1 ≡ length m
  unfolding lookup erase
  length-erase k [] v u h = cc
  length-erase k ((i, w) ∷ m) v u h =
      ground (arith, length-erase k m v u.1, erase_absent k m, e.test_iff i k)

  pub length-insert :
      (k : K) (v : V) (m : Assoc K V)
      → length (insert k v m) ≡ (elim (lookup k m) [ none ↦ length m + 1 | some w ↦ length m ])
  unfolding lookup insert
  length-insert k v [] = omega arith
  length-insert k v ((i, w) ∷ m) = ground (arith, length-insert k v m)

module _ {ℓ} {K : Type ℓ} ⦃e : Eq K⦄ where
  pub test_refl : (k : K) → e.test k k ≡ true
  test_refl k = (e.test_iff k k).1 refl

  pub test_ne : (k j : K) → k ≢ j → e.test k j ≡ false
  test_ne k j h = ground (arith, e.test_iff k j)
