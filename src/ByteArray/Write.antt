-- ===== src/ByteArray/Write.antt =====
-- `addCapacity` and `write` on the text of the blocks.
use native.Mathlib.Nat.{lt-div-mul-add}
use zero_frameworks.Base.{
  ℕ, zero, suc, ◌+◌, ◌-◌, ◌*◌, ◌/◌, ◌%◌, ◌≤◌, ◌<◌, ◌≡◌, refl, sym, ◌∙◌, ap, ◌||◌, List, [], ◌∷◌,
  ◌++◌, if◌then◌else◌, some, ◌==◌, leb, length, take, drop, length-append, length-drop, length-take,
  append-nil, arith, inl, inr, Bool-cases,
}
use zero_frameworks.Base.Bytes.{Bytes}
use zero_frameworks.ByteArray.{
  ByteArray, ok, copy_to, max_of, new_nodes, add_capacity, write_loop, write,
}
use zero_frameworks.ByteArray.Blocks.{joined, length-joined, Written, write_loop_lem}
use zero_frameworks.ByteArray.Flat.{
  WellFormed, text, joined-append, OfSize-append, OfSize-take, OfSize-drop, new_nodes-OfSize,
  length-new_nodes, copy_to_past, mod_place, front_text, rest_text, length-front_text, text_parts,
}

-- An array with room for a number of bytes, which differs from another one in blocks behind it.
pub record Roomy (a : ByteArray) (n : ℕ) (b : ByteArray) : Type 0 where
  pub well : WellFormed b
  pub base : b.base_size ≡ a.base_size
  pub position : b.position ≡ a.position
  pub size : b.size ≡ a.size
  pub order : b.little_endian ≡ a.little_endian
  pub room : a.position + n ≤ b.capacity
  pub more : Bytes
  pub grown : text b ≡ text a ++ more

module _ (found : ℕ → ℕ → ℕ) (a : ByteArray) (w : WellFormed a) (n : ℕ) where
  old_cap : ℕ
  old_cap = a.capacity - a.position

  count : ℕ
  unfolding old_cap
  count = (n - old_cap + a.base_size - 1) / a.base_size

  enough : n - old_cap ≤ count * a.base_size
  unfolding count old_cap
  enough = omega (
    arith,
    lt-div-mul-add {a = n - (a.capacity - a.position) + a.base_size - 1} w.some_bytes,
    w.some_bytes,
  )

  -- `m_cur` after the growth.
  cur_at : ℕ
  unfolding old_cap
  cur_at = if old_cap == 0 then length a.nodes else a.cur

  grown_place :
      (off : ℕ) × (off < a.base_size)
      × (a.position ≡ cur_at * a.base_size + off)
      × (cur_at ≤ length a.nodes)
  unfolding cur_at old_cap
  grown_place = elim (Bool-cases (a.capacity - a.position == 0)) [
    | inl full ↦ (
      0,
      w.some_bytes,
      rw full (ground (arith, full, w.all, w.bounded, w.reached)),
      rw full (omega arith),
    )
    | inr room ↦ (w.off, w.within, rw room w.place, rw room w.known)
  ]

  fresh : List Bytes
  unfolding count
  fresh = new_nodes found a.base_size (length a.nodes) count

  length-longer : length (a.nodes ++ fresh) ≡ length a.nodes + count
  unfolding fresh
  length-longer = omega (
    arith,
    length-append a.nodes fresh,
    length-new_nodes found a.base_size (length a.nodes) count,
  )

  all_longer : a.capacity + count * a.base_size ≡ length (a.nodes ++ fresh) * a.base_size
  all_longer = omega (arith, ap (λ k. k * a.base_size) length-longer, w.all)

  grow-Roomy : Roomy a n (record a {
    nodes = a.nodes ++ fresh;
    capacity = a.capacity + count * a.base_size;
    cur = cur_at;
  })
  unfolding fresh
  grow-Roomy =
      let (off, within, place, known) = grown_place in
      record {
        well = record {
          some_bytes = w.some_bytes;
          sized =
              OfSize-append a.base_size a.nodes fresh w.sized
                (new_nodes-OfSize a.base_size found (length a.nodes) count);
          some_nodes = omega (arith, length-longer, w.some_nodes);
          all = all_longer;
          bounded = omega (arith, w.bounded);
          reached = w.reached;
          off = off;
          within = within;
          place = place;
          known = omega (arith, known, length-longer);
        };
        base = refl;
        position = refl;
        size = refl;
        order = refl;
        room = unfold old_cap in omega (arith, enough, w.bounded, w.reached);
        more = joined fresh;
        grown = joined-append a.nodes fresh;
      }

  -- `addCapacity` makes room, and changes nothing that was there.
  pub add_capacity-Roomy : Roomy a n (add_capacity found n a)
  unfolding add_capacity fresh cur_at
  add_capacity-Roomy = elim (Bool-cases (n == 0 || leb n (a.capacity - a.position))) [
    | inl fits ↦ rw fits (record {
      well = w;
      base = refl;
      position = refl;
      size = refl;
      order = refl;
      room = ground (arith, fits, w.bounded, w.reached);
      more = [];
      grown = sym (append-nil (text a));
    })
    | inr short ↦ rw short grow-Roomy
  ]

-- What a write leaves: the array goes on behind it.
pub record Wrote (a : ByteArray) (buf : Bytes) (b : ByteArray) : Type 0 where
  pub well : WellFormed b
  pub base : b.base_size ≡ a.base_size
  pub position : b.position ≡ a.position + length buf
  pub size : b.size ≡ max_of a.size (a.position + length buf)
  pub order : b.little_endian ≡ a.little_endian
  pub more : Bytes
  pub written : text b ≡ copy_to a.position buf (text a ++ more)
  pub room : a.position + length buf ≤ length (text a ++ more)

-- The loop of `write` in an array with room.
module _ (b : ByteArray) (w : WellFormed b) (buf : Bytes)
    (room : b.position + length buf ≤ b.capacity) (some_bytes : 0 < length buf) where
  rest_count : length b.nodes ≡ b.cur + length (drop b.cur b.nodes)
  rest_count = omega (arith, length-drop b.cur b.nodes, w.known)

  rest_written : Written b.base_size (drop b.cur b.nodes) w.off buf
  rest_written =
      write_loop_lem b.base_size (drop b.cur b.nodes) w.off buf
        (OfSize-drop b.base_size b.cur b.nodes w.sized) w.within
        (omega (arith, ap (λ m. m * b.base_size) rest_count, w.all, w.place, room)) some_bytes

  nodes_after : List Bytes
  nodes_after = take b.cur b.nodes ++ rest_written.nodes'

  length-nodes_after : length nodes_after ≡ length b.nodes
  unfolding nodes_after
  length-nodes_after = omega (
    arith,
    length-append (take b.cur b.nodes) rest_written.nodes',
    length-take b.cur b.nodes,
    rest_written.count,
    rest_count,
  )

  array_after : ByteArray
  array_after = record b {
    nodes = nodes_after;
    cur = b.cur + rest_written.passed;
    position = b.position + length buf;
    size = max_of b.size (b.position + length buf);
  }

  array_after-WellFormed : WellFormed array_after
  unfolding array_after nodes_after
  array_after-WellFormed =
      let goes = rest_written.goes in
      record {
        some_bytes = w.some_bytes;
        sized =
            OfSize-append b.base_size (take b.cur b.nodes) rest_written.nodes'
              (OfSize-take b.base_size b.cur b.nodes w.sized) rest_written.sized;
        some_nodes = omega (arith, length-nodes_after, w.some_nodes);
        all = w.all ∙ ap (λ m. m * b.base_size) (sym length-nodes_after);
        bounded = ground (arith, room, w.bounded);
        reached = ground arith;
        off = goes.off;
        within = goes.within;
        place = omega (arith, goes.moved, w.place);
        known = omega (arith, goes.left, length-nodes_after, rest_count);
      }

  text_after : text array_after ≡ copy_to b.position buf (text b)
  unfolding array_after nodes_after front_text rest_text
  text_after =
      joined-append (take b.cur b.nodes) rest_written.nodes'
      ∙ ap (◌++◌ (front_text b w)) rest_written.text
      ∙ sym (copy_to_past w.off buf (front_text b w) (rest_text b w))
      ∙ ap (λ i. copy_to i buf (front_text b w ++ rest_text b w)) (length-front_text b w)
      ∙ ap (copy_to b.position buf) (sym (text_parts b w))

  length-text : length (text b) ≡ b.capacity
  length-text = length-joined b.base_size b.nodes w.sized ∙ sym w.all

  loop_result :
      write_loop (drop b.cur b.nodes) (b.position % b.base_size) buf
      ≡ some (rest_written.nodes', rest_written.passed)
  loop_result = rw (mod_place b w) rest_written.result

  array_after-Wrote : (a : ByteArray) → Roomy a (length buf) b → Wrote a buf array_after
  unfolding array_after
  array_after-Wrote a r = record {
    well = array_after-WellFormed;
    base = r.base;
    position = ap (λ p. p + length buf) r.position;
    size = rw (r.size, r.position) refl;
    order = r.order;
    more = r.more;
    written = text_after ∙ rw (r.position, r.grown) refl;
    room = omega (arith, room, r.position, length-text, ap length r.grown);
  }

copy_to_nothing : (i : ℕ) (block : Bytes) → copy_to i [] block ≡ block
unfolding copy_to
copy_to_nothing zero block = refl
copy_to_nothing (suc i) [] = refl
copy_to_nothing (suc i) (b ∷ block) = ap (◌∷◌ b) (copy_to_nothing i block)

write-write_loop :
    (found : ℕ → ℕ → ℕ) (c : ℕ) (cs : Bytes) (a : ByteArray) (nodes : List Bytes) (passed : ℕ)
    → let b = add_capacity found (length (c ∷ cs)) a in
      write_loop (drop b.cur b.nodes) (b.position % b.base_size) (c ∷ cs) ≡ some (nodes, passed)
      → write found (c ∷ cs) a
        ≡ ok (record b {
          nodes = take b.cur b.nodes ++ nodes;
          cur = b.cur + passed;
          position = b.position + length (c ∷ cs);
          size = max_of b.size (b.position + length (c ∷ cs));
        })
unfolding write
write-write_loop found c cs a nodes passed done = rw (done, write) refl

-- A write to an array that keeps the invariant succeeds and keeps it. It grows the array by blocks if
-- there is not enough room, copies the bytes to the position in the text of the blocks, and moves the
-- position and the size.
pub write-Wrote :
    (found : ℕ → ℕ → ℕ) (buf : Bytes) (a : ByteArray)
    → WellFormed a
    → (b : ByteArray) × (write found buf a ≡ ok b) × Wrote a buf b
unfolding array_after nodes_after
write-Wrote found [] a w = (
  a,
  unfold write in refl,
  record {
    well = w;
    base = refl;
    position = omega arith;
    size = ground (arith, w.reached);
    order = refl;
    more = [];
    written = sym (copy_to_nothing a.position (text a ++ []) ∙ append-nil (text a));
    room = omega (
      arith,
      ap length (append-nil (text a)),
      length-joined a.base_size a.nodes w.sized,
      w.all,
      w.bounded,
      w.reached,
    );
  },
)
write-Wrote found (c ∷ cs) a w =
    let buf = c ∷ cs in
    let b = add_capacity found (length buf) a in
    let r = add_capacity-Roomy found a w (length buf) in
    let room : b.position + length buf ≤ b.capacity = omega (arith, r.room, r.position) in
    let some_bytes : 0 < length buf = omega arith in
    (
      array_after b r.well buf room some_bytes,
      write-write_loop found c cs a _ _ (loop_result b r.well buf room some_bytes),
      array_after-Wrote b r.well buf room some_bytes a r,
    )
