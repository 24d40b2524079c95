-- ===== src/ByteArray.antt =====
-- zero/core/io/bytearray.h and bytearray.cc: `ByteArray`, a sequence of bytes in blocks of one size,
-- with a position from which it is read and written. `m_cur` is the number of its node, which is the
-- count of the nodes where the pointer is null; a call that follows the null pointer has a result of its
-- own. What `new char[]` leaves in a block is an argument, by the block and the offset.
pub mod Blocks
pub mod Flat
pub mod Write
pub mod Read
pub mod Progress
pub mod Edges
pub mod Values
use zero_frameworks.Base.{
  ℕ, zero, suc, ◌+◌, ◌-◌, ◌*◌, ◌/◌, ◌%◌, ◌^◌, Bool, true, false, ◌||◌, List, [], ◌∷◌, ◌++◌,
  if◌then◌else◌, Option, none, some, ◌==◌, ltb, leb, length, take, drop,
}
use zero_frameworks.Base.Bytes.{Bytes}

pub record ByteArray : Type 0 where
  pub base_size : ℕ
  pub position : ℕ
  pub capacity : ℕ
  pub size : ℕ
  pub little_endian : Bool
  pub nodes : List Bytes
  pub cur : ℕ

pub data Outcome {ℓ} (A : Type ℓ) : Type ℓ where
  ok : A → Outcome A
  out_of_range : Outcome A
  null_pointer : Outcome A

infixl 5 ◌>>=◌
abbrev pub ◌>>=◌ {ℓ κ} : {A : Type ℓ} {B : Type κ} → Outcome A → (A → Outcome B) → Outcome B
ok a >>= f = f a
out_of_range >>= f = out_of_range
null_pointer >>= f = null_pointer

-- `memcpy` of a text to an offset of a block.
unfoldable pub copy_to : ℕ → Bytes → Bytes → Bytes
copy_to zero [] block = block
copy_to zero (c ∷ cs) [] = []
copy_to zero (c ∷ cs) (b ∷ block) = c ∷ copy_to zero cs block
copy_to (suc i) cs [] = []
copy_to (suc i) cs (b ∷ block) = b ∷ copy_to i cs block

unfoldable pub new_node : (ℕ → ℕ) → ℕ → ℕ → Bytes
new_node found i zero = []
new_node found i (suc n) = found i ∷ new_node found (suc i) n

-- `ByteArray(base_size)`
unfoldable pub new_byte_array : (ℕ → ℕ → ℕ) → ℕ → ByteArray
unfolding new_node
new_byte_array found base_size = record {
  base_size = base_size;
  position = 0;
  capacity = base_size;
  size = 0;
  little_endian = false;
  nodes = new_node (found 0) 0 base_size ∷ [];
  cur = 0;
}

unfoldable pub clear : ByteArray → ByteArray
clear a = record a {
  position = 0;
  size = 0;
  capacity = a.base_size;
  nodes = take 1 a.nodes;
  cur = 0;
}

unfoldable pub new_nodes : (ℕ → ℕ → ℕ) → ℕ → ℕ → ℕ → List Bytes
unfolding new_node
new_nodes found base_size i zero = []
new_nodes found base_size i (suc count) =
    new_node (found i) 0 base_size ∷ new_nodes found base_size (suc i) count

-- The number of new blocks is a quotient of doubles that is rounded up, which is exact below 2^53.
unfoldable pub add_capacity : (ℕ → ℕ → ℕ) → ℕ → ByteArray → ByteArray
unfolding new_nodes
add_capacity found size a =
    let old_cap = a.capacity - a.position in
    if size == 0 || leb size old_cap
    then a
    else (let count = (size - old_cap + a.base_size - 1) / a.base_size in
        record a {
          nodes = a.nodes ++ new_nodes found a.base_size (length a.nodes) count;
          capacity = a.capacity + count * a.base_size;
          cur = if old_cap == 0 then length a.nodes else a.cur;
        })

-- 1 when the end of a block has been reached.
abbrev pub past_end : Bytes → ℕ → ℕ
past_end node n = if length node == n then 1 else 0

-- The loop of `write`, on the nodes from `m_cur` on: the nodes afterwards, and how many of them
-- `m_cur` has passed.
unfoldable pub write_loop : List Bytes → ℕ → Bytes → Option (List Bytes × ℕ)
unfolding copy_to
write_loop [] npos buf = none
write_loop (node ∷ nodes) npos buf =
    let ncap = length node - npos in
    let rest = write_loop nodes 0 (drop ncap buf) in
    if leb (length buf) ncap
    then some (copy_to npos buf node ∷ nodes, past_end node (npos + length buf))
    else (elim rest [
      | none ↦ none
      | some (nodes', passed) ↦ some (copy_to npos (take ncap buf) node ∷ nodes', suc passed)
    ])

abbrev pub max_of : ℕ → ℕ → ℕ
max_of a b = if ltb a b then b else a

unfoldable pub write : (ℕ → ℕ → ℕ) → Bytes → ByteArray → Outcome ByteArray
unfolding add_capacity write_loop
write found [] a = ok a
write found (c ∷ cs) a =
    let buf = c ∷ cs in
    let b = add_capacity found (length buf) a in
    elim (write_loop (drop b.cur b.nodes) (b.position % b.base_size) buf) [
      | none ↦ null_pointer
      | some (nodes, passed) ↦ ok (record b {
        nodes = take b.cur b.nodes ++ nodes;
        cur = b.cur + passed;
        position = b.position + length buf;
        size = max_of b.size (b.position + length buf);
      })
    ]

unfoldable pub read_loop : List Bytes → ℕ → ℕ → Option (Bytes × ℕ)
read_loop [] npos n = none
read_loop (node ∷ nodes) npos n =
    let ncap = length node - npos in
    let rest = read_loop nodes 0 (n - ncap) in
    if leb n ncap then some (take n (drop npos node), past_end node (npos + n)) else (elim rest [
      | none ↦ none
      | some (bytes, passed) ↦ some (drop npos node ++ bytes, suc passed)
    ])

-- What `read` does once there are enough bytes: it reads `m_cur->size` also when none are asked for.
unfoldable pub read_nodes : List Bytes → ℕ → ℕ → Option (Bytes × ℕ)
unfolding read_loop
read_nodes [] npos n = none
read_nodes (node ∷ nodes) npos zero = some ([], 0)
read_nodes (node ∷ nodes) npos (suc n) = read_loop (node ∷ nodes) npos (suc n)

unfoldable pub read : ℕ → ByteArray → Outcome (Bytes × ByteArray)
unfolding read_nodes
read n a =
    if ltb (a.size - a.position) n
    then out_of_range
    else (elim (read_nodes (drop a.cur a.nodes) (a.position % a.base_size) n) [
      | none ↦ null_pointer
      | some (bytes, passed) ↦
          ok (bytes, record a { position = a.position + n; cur = a.cur + passed })
    ])

-- `read` at a given position. It starts from `m_cur` all the same.
unfoldable pub read_at : ℕ → ℕ → ByteArray → Outcome Bytes
unfolding read_nodes
read_at n position a =
    if ltb ((a.size + 2 ^ 64 - position) % 2 ^ 64) n
    then out_of_range
    else (elim (read_nodes (drop a.cur a.nodes) (position % a.base_size) n) [
      | none ↦ null_pointer
      | some (bytes, passed) ↦ ok bytes
    ])

-- The loop of `setPosition`: the number of the node.
unfoldable pub seek : List Bytes → ℕ → Option ℕ
seek [] v = none
seek (node ∷ nodes) v =
    let rest = seek nodes (v - length node) in
    if ltb (length node) v
    then (elim rest [ none ↦ none | some i ↦ some (suc i) ])
    else some (past_end node v)

unfoldable pub set_position : ℕ → ByteArray → Outcome ByteArray
unfolding seek
set_position v a = if ltb a.capacity v then out_of_range else (elim (seek a.nodes v) [
  | none ↦ null_pointer
  | some i ↦ ok (record a { position = v; size = max_of a.size v; cur = i })
])

-- `toString`: what is left to read.
unfoldable pub to_string : ByteArray → Outcome Bytes
unfolding read_at
to_string a = if a.size - a.position == 0 then ok [] else read_at (a.size - a.position) a.position a
