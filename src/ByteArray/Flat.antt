-- ===== src/ByteArray/Flat.antt =====
-- The text that the blocks stand for, and what each operation does to it.
use native.Mathlib.Nat.{mul-add-mod_self_right, mod-eq_of_lt}
use zero_frameworks.Base.{
  ℕ, zero, suc, ◌+◌, ◌*◌, ◌%◌, ◌≤◌, ◌<◌, ◌≡◌, refl, sym, ◌∙◌, ap, List, [], ◌∷◌, ◌++◌, length, take,
  drop, length-take, append_assoc, arith,
}
use zero_frameworks.Base.Bytes.{Bytes}
use zero_frameworks.ByteArray.{ByteArray, copy_to, new_node, new_nodes, new_byte_array}
use zero_frameworks.ByteArray.Blocks.{
  joined, OfSize, length-joined, zero_add, suc_add, take-append-drop,
}

-- The invariant: `m_cur` is the node of the position, which the size and the capacity bound.
pub record WellFormed (a : ByteArray) : Type 0 where
  pub some_bytes : 0 < a.base_size
  pub sized : OfSize a.base_size a.nodes
  pub some_nodes : 0 < length a.nodes
  pub all : a.capacity ≡ length a.nodes * a.base_size
  pub bounded : a.size ≤ a.capacity
  pub reached : a.position ≤ a.size
  pub off : ℕ
  pub within : off < a.base_size
  pub place : a.position ≡ a.cur * a.base_size + off
  pub known : a.cur ≤ length a.nodes

abbrev pub text : ByteArray → Bytes
text a = joined a.nodes

-- `m_cur` is null exactly at the end of the last block.
abbrev pub AtEnd : ByteArray → Type 0
AtEnd a = a.position ≡ a.capacity

pub joined-append : (xs ys : List Bytes) → joined (xs ++ ys) ≡ joined xs ++ joined ys
unfolding joined
joined-append [] ys = refl
joined-append (x ∷ xs) ys =
    ap (◌++◌ x) (joined-append xs ys) ∙ sym (append_assoc x (joined xs) (joined ys))

length-new_node : (found : ℕ → ℕ) (i n : ℕ) → length (new_node found i n) ≡ n
unfolding new_node
length-new_node found i zero = refl
length-new_node found i (suc n) = ap suc (length-new_node found (suc i) n)

module _ (base : ℕ) where
  pub OfSize-append :
      (xs ys : List Bytes) → OfSize base xs → OfSize base ys → OfSize base (xs ++ ys)
  OfSize-append [] ys u v = v
  OfSize-append (x ∷ xs) ys (s, u) v = (s, OfSize-append xs ys u v)

  pub OfSize-take : (n : ℕ) (xs : List Bytes) → OfSize base xs → OfSize base (take n xs)
  OfSize-take zero xs u = tt
  OfSize-take (suc n) [] u = tt
  OfSize-take (suc n) (x ∷ xs) (s, u) = (s, OfSize-take n xs u)

  pub OfSize-drop : (n : ℕ) (xs : List Bytes) → OfSize base xs → OfSize base (drop n xs)
  OfSize-drop zero xs u = u
  OfSize-drop (suc n) [] u = tt
  OfSize-drop (suc n) (x ∷ xs) (s, u) = OfSize-drop n xs u

  pub new_nodes-OfSize :
      (found : ℕ → ℕ → ℕ) (i count : ℕ) → OfSize base (new_nodes found base i count)
  unfolding new_nodes
  new_nodes-OfSize found i zero = tt
  new_nodes-OfSize found i (suc count) =
      (length-new_node (found i) 0 base, new_nodes-OfSize found (suc i) count)

pub length-new_nodes :
    (found : ℕ → ℕ → ℕ) (base i count : ℕ) → length (new_nodes found base i count) ≡ count
unfolding new_nodes
length-new_nodes found base i zero = refl
length-new_nodes found base i (suc count) = ap suc (length-new_nodes found base (suc i) count)

pub new_byte_array-WellFormed :
    (found : ℕ → ℕ → ℕ) (base : ℕ) → 0 < base → WellFormed (new_byte_array found base)
unfolding new_byte_array
new_byte_array-WellFormed found base some_bytes = record {
  some_bytes = some_bytes;
  sized = (length-new_node (found 0) 0 base, tt);
  some_nodes = omega arith;
  all = omega arith;
  bounded = omega arith;
  reached = omega arith;
  off = 0;
  within = some_bytes;
  place = omega arith;
  known = omega arith;
}

pub copy_to_past :
    (i : ℕ) (cs xs ys : Bytes) → copy_to (length xs + i) cs (xs ++ ys) ≡ xs ++ copy_to i cs ys
unfolding copy_to
copy_to_past i cs [] ys = rw (zero_add i) refl
copy_to_past i cs (x ∷ xs) ys = rw (suc_add (length xs) i) (ap (◌∷◌ x) (copy_to_past i cs xs ys))

pub drop_past : {A : Type 0} (n : ℕ) (xs ys : List A) → drop (length xs + n) (xs ++ ys) ≡ drop n ys
drop_past n [] ys = rw (zero_add n) refl
drop_past n (x ∷ xs) ys = rw (suc_add (length xs) n) (drop_past n xs ys)

module _ (a : ByteArray) (w : WellFormed a) where
  pub mod_place : a.position % a.base_size ≡ w.off
  mod_place =
      ap (λ p. p % a.base_size) w.place
      ∙ mul-add-mod_self_right a.cur a.base_size w.off
      ∙ mod-eq_of_lt w.within

  unfoldable pub front_text : Bytes
  front_text = joined (take a.cur a.nodes)

  unfoldable pub rest_text : Bytes
  rest_text = joined (drop a.cur a.nodes)

  pub length-front_text : length front_text + w.off ≡ a.position
  unfolding front_text
  length-front_text = omega (
    arith,
    length-joined a.base_size (take a.cur a.nodes) (OfSize-take a.base_size a.cur a.nodes w.sized),
    ap (λ n. n * a.base_size) cur_nodes,
    w.place,
  )
    where
      cur_nodes : length (take a.cur a.nodes) ≡ a.cur
      cur_nodes = omega (arith, length-take a.cur a.nodes, w.known)

  pub text_parts : text a ≡ front_text ++ rest_text
  unfolding front_text rest_text
  text_parts =
      ap joined (sym (take-append-drop a.cur a.nodes))
      ∙ joined-append (take a.cur a.nodes) (drop a.cur a.nodes)
