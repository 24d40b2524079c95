-- ===== src/ByteArray/Read.antt =====
-- `setPosition` and `read` on the text of the blocks.
use zero_frameworks.Base.{
  ℕ, zero, suc, ◌+◌, ◌-◌, ◌*◌, ◌≤◌, ◌<◌, ◌≡◌, refl, sym, ◌∙◌, ap, false, ◌++◌, ltb, length, take,
  drop, length-drop, arith,
}
use zero_frameworks.ByteArray.{ByteArray, ok, max_of, read_nodes, read, set_position}
use zero_frameworks.ByteArray.Blocks.{joined, Taken, read_nodes_lem, seek_lem}
use zero_frameworks.ByteArray.Flat.{
  WellFormed, text, OfSize-drop, drop_past, mod_place, front_text, rest_text, length-front_text,
  text_parts,
}

-- Another array with the same blocks.
pub record SameBlocks (a b : ByteArray) : Type 0 where
  pub well : WellFormed b
  pub nodes : b.nodes ≡ a.nodes
  pub base : b.base_size ≡ a.base_size
  pub capacity : b.capacity ≡ a.capacity
  pub size : b.size ≡ a.size
  pub order : b.little_endian ≡ a.little_endian

some_left : (k cur base off : ℕ) → cur * base + off < (cur + k) * base → 0 < k
some_left zero cur base off h = absurd (omega (arith, h))
some_left (suc k) cur base off h = omega arith

module _ (a : ByteArray) (w : WellFormed a) where
  pub rest_count : length a.nodes ≡ a.cur + length (drop a.cur a.nodes)
  rest_count = omega (arith, length-drop a.cur a.nodes, w.known)

  pub all_rest : a.capacity ≡ (a.cur + length (drop a.cur a.nodes)) * a.base_size
  all_rest = w.all ∙ ap (λ m. m * a.base_size) rest_count

  pub set_position-SameBlocks :
      (v : ℕ)
      → v ≤ a.size
      → (b : ByteArray) × (set_position v a ≡ ok b) × SameBlocks a b × (b.position ≡ v)
  unfolding set_position
  set_position-SameBlocks v inside =
      let (i, found, goes) =
        seek_lem a.base_size a.nodes v w.sized w.some_bytes
          (omega (arith, inside, w.bounded, w.all)) w.some_nodes in
      let fits : ltb a.capacity v ≡ false = ground (arith, w.bounded, inside) in
      let same : max_of a.size v ≡ a.size = ground (arith, inside) in
      (
        record a { position = v; cur = i },
        rw (fits, found, same) refl,
        record {
          well = record {
            some_bytes = w.some_bytes;
            sized = w.sized;
            some_nodes = w.some_nodes;
            all = w.all;
            bounded = w.bounded;
            reached = inside;
            off = goes.off;
            within = goes.within;
            place = omega (arith, goes.moved);
            known = goes.left;
          };
          nodes = refl;
          base = refl;
          capacity = refl;
          size = refl;
          order = refl;
        },
        refl,
      )

  module _ (n : ℕ) (inside : a.position + n ≤ a.size) (room : a.position < a.capacity) where
    another_node : 0 < length (drop a.cur a.nodes)
    another_node =
        some_left (length (drop a.cur a.nodes)) a.cur a.base_size w.off
          (omega (arith, all_rest, w.place, room))

    pub bytes_read :
        Taken a.base_size (drop a.cur a.nodes) w.off n (read_nodes (drop a.cur a.nodes) w.off n)
    bytes_read =
        read_nodes_lem a.base_size (drop a.cur a.nodes) w.off n
          (OfSize-drop a.base_size a.cur a.nodes w.sized) w.within
          (omega (arith, all_rest, w.place, inside, w.bounded)) another_node

    pub text_read :
        take n (drop w.off (joined (drop a.cur a.nodes))) ≡ take n (drop a.position (text a))
    unfolding rest_text
    text_read = ap (take n) (
        sym (drop_past w.off (front_text a w) (rest_text a w))
        ∙ ap (λ p. drop p (front_text a w ++ rest_text a w)) (length-front_text a w)
        ∙ ap (drop a.position) (sym (text_parts a w)))

    pub read-SameBlocks :
        (b : ByteArray) × (read n a ≡ ok (take n (drop a.position (text a)), b))
        × SameBlocks a b
        × (b.position ≡ a.position + n)
    unfolding read
    read-SameBlocks =
        let fits : ltb (a.size - a.position) n ≡ false = ground (arith, inside) in
        let goes = bytes_read.goes in
        (
          record a { position = a.position + n; cur = a.cur + bytes_read.passed },
          rw (fits, mod_place a w, bytes_read.taken, text_read) refl,
          record {
            well = record {
              some_bytes = w.some_bytes;
              sized = w.sized;
              some_nodes = w.some_nodes;
              all = w.all;
              bounded = w.bounded;
              reached = inside;
              off = goes.off;
              within = goes.within;
              place = omega (arith, goes.moved, w.place);
              known = omega (arith, goes.left, length-drop a.cur a.nodes, w.known);
            };
            nodes = refl;
            base = refl;
            capacity = refl;
            size = refl;
            order = refl;
          },
          refl,
        )
