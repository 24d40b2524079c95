-- ===== src/ByteArray/Blocks.antt =====
-- What the loops of `ByteArray` do to the blocks, on the text that the blocks make.
mod Copies
unfoldable pub use Copies.*
use zero_frameworks.Base.{
  subst, ℕ, zero, suc, ◌+◌, ◌-◌, ◌*◌, ◌≤◌, ◌<◌, ◌≡◌, refl, sym, ◌∙◌, ap, true, false, List, [], ◌∷◌,
  ◌++◌, Option, some, ◌==◌, ltb, leb, leb→le, length, take, drop, length-append, length-drop, arith,
  inl, inr, Bool-cases, All,
}
use zero_frameworks.Base.Bytes.{Bytes}
use zero_frameworks.ByteArray.{copy_to, past_end, write_loop, read_loop, read_nodes, seek}

-- How far a loop has come in the blocks: `passed` of them, and `off` bytes of the next.
pub record Moved (base count npos n passed : ℕ) : Type 0 where
  pub off : ℕ
  pub within : off < base
  pub moved : npos + n ≡ passed * base + off
  pub left : passed ≤ count

module _ (base : ℕ) where
  last_block :
      (node : Bytes) (count npos n : ℕ)
      → length node ≡ base
      → npos < base
      → npos + n ≤ base
      → Moved base (suc count) npos n (past_end node (npos + n))
  last_block node count npos n same inside fits = elim (Bool-cases (length node == npos + n)) [
    | inl full ↦ record {
      off = 0;
      within = omega (arith, inside);
      moved = rw full (ground (arith, full, same));
      left = rw full (omega arith);
    }
    | inr short ↦ record {
      off = npos + n;
      within = ground (arith, short, same, fits);
      moved = rw short (omega arith);
      left = rw short (omega arith);
    }
  ]

  next_block :
      (count npos n m passed : ℕ)
      → npos ≤ base
      → base - npos + m ≡ n
      → Moved base count 0 m passed
      → Moved base (suc count) npos n (suc passed)
  next_block count npos n m passed inside rest there = record {
    off = there.off;
    within = there.within;
    moved = omega (arith, there.moved, rest, inside);
    left = omega (arith, there.left);
  }

  -- What the loop of `write` makes of the blocks.
  pub record Written (nodes : List Bytes) (npos : ℕ) (buf : Bytes) : Type 0 where
    pub nodes' : List Bytes
    pub passed : ℕ
    pub result : write_loop nodes npos buf ≡ some (nodes', passed)
    pub sized : OfSize base nodes'
    pub count : length nodes' ≡ length nodes
    pub goes : Moved base (length nodes) npos (length buf) passed
    pub text : joined nodes' ≡ copy_to npos buf (joined nodes)

  module _ (node : Bytes) (nodes : List Bytes) (npos : ℕ) (buf : Bytes) (same : length node ≡ base)
      (sized : OfSize base nodes) (inside : npos < base) where
    written_here : leb (length buf) (length node - npos) ≡ true → Written (node ∷ nodes) npos buf
    unfolding joined write_loop
    written_here here =
        let fits = leb→le _ _ here in
        record {
          nodes' = copy_to npos buf node ∷ nodes;
          passed = past_end node (npos + length buf);
          result = rw (here, write_loop) refl;
          sized = (length-copy_to npos buf node ∙ same, sized);
          count = refl;
          goes =
              last_block node (length nodes) npos (length buf) same inside
                (omega (arith, fits, same, inside));
          text =
              sym (copy_to_front npos buf node (joined nodes) (omega (arith, fits, same, inside)));
        }

    written_on :
        leb (length buf) (length node - npos) ≡ false
        → Written nodes 0 (drop (length node - npos) buf)
        → Written (node ∷ nodes) npos buf
    unfolding joined write_loop
    written_on on rest =
        let ncap = length node - npos in
        let more : ncap ≤ length buf = ground (arith, on) in
        record {
          nodes' = copy_to npos (take ncap buf) node ∷ rest.nodes';
          passed = suc rest.passed;
          result = rw (on, write_loop) (rw rest.result refl);
          sized = (length-copy_to npos (take ncap buf) node ∙ same, rest.sized);
          count = ap suc rest.count;
          goes =
              next_block (length nodes) npos (length buf) (length (drop ncap buf)) rest.passed
                (omega (arith, inside)) (omega (arith, length-drop ncap buf, more, same)) rest.goes;
          text =
              ap (◌++◌ (copy_to npos (take ncap buf) node)) rest.text
              ∙ sym (
                  copy_to_across npos ncap buf node (joined nodes) (omega (arith, same, inside))
                    more);
        }

  pub write_loop_lem :
      (nodes : List Bytes) (npos : ℕ) (buf : Bytes)
      → OfSize base nodes
      → npos < base
      → npos + length buf ≤ length nodes * base
      → 0 < length buf
      → Written nodes npos buf
  write_loop_lem [] npos buf sized inside fits some_bytes = absurd (omega (arith, fits, some_bytes))
  write_loop_lem (node ∷ nodes) npos buf (same, sized) inside fits some_bytes =
      elim (Bool-cases (leb (length buf) (length node - npos))) [
        | inl here ↦ written_here node nodes npos buf same sized inside here
        | inr on ↦
            let less = length-drop (length node - npos) buf in
            let more : length node - npos < length buf = ground (arith, on) in
            written_on node nodes npos buf same sized inside on (
              write_loop_lem nodes 0 (drop (length node - npos) buf) sized (omega (arith, inside))
                (omega (arith, less, fits, same, inside)) (omega (arith, less, more)))
      ]

  -- What the loop of `read` takes from the blocks.
  pub record Taken (nodes : List Bytes) (npos n : ℕ) (result : Option (Bytes × ℕ)) : Type 0 where
    pub passed : ℕ
    pub taken : result ≡ some (take n (drop npos (joined nodes)), passed)
    pub goes : Moved base (length nodes) npos n passed

  module _ (node : Bytes) (nodes : List Bytes) (npos n : ℕ) (same : length node ≡ base)
      (sized : OfSize base nodes) (inside : npos < base) where
    from_one_node :
        leb n (length node - npos) ≡ true
        → Taken (node ∷ nodes) npos n (read_loop (node ∷ nodes) npos n)
    unfolding joined read_loop
    from_one_node here =
        let fits = leb→le _ _ here in
        record {
          passed = past_end node (npos + n);
          taken =
              rw
                (
                  here,
                  drop_front npos node (joined nodes) (omega (arith, same, inside)),
                  take_front n (drop npos node) (joined nodes)
                      (omega (arith, fits, length-drop npos node)),
                )
                refl;
          goes =
              last_block node (length nodes) npos n same inside (omega (arith, fits, same, inside));
        }

    from_two_nodes :
        leb n (length node - npos) ≡ false
        → Taken nodes 0 (n - (length node - npos)) (read_loop nodes 0 (n - (length node - npos)))
        → Taken (node ∷ nodes) npos n (read_loop (node ∷ nodes) npos n)
    unfolding joined read_loop
    from_two_nodes on rest =
        let ncap = length node - npos in
        let more : ncap ≤ n = ground (arith, on) in
        let all : n ≡ length (drop npos node) + (n - ncap) =
          omega (arith, more, length-drop npos node) in
        record {
          passed = suc rest.passed;
          taken =
              rw (on, rest.taken, drop_front npos node (joined nodes) (omega (arith, same, inside)))
                (ap (λ t. some (t, suc rest.passed))
                  (sym (take_past (n - ncap) (drop npos node) (joined nodes))
                    ∙ ap (λ k. take k (drop npos node ++ joined nodes)) (sym all)));
          goes =
              next_block (length nodes) npos n (n - ncap) rest.passed (omega (arith, inside))
                (omega (arith, more, same)) rest.goes;
        }

  read_loop_lem :
      (nodes : List Bytes) (npos n : ℕ)
      → OfSize base nodes
      → npos < base
      → npos + n ≤ length nodes * base
      → 0 < n
      → Taken nodes npos n (read_loop nodes npos n)
  read_loop_lem [] npos n sized inside fits some_bytes = absurd (omega (arith, fits, some_bytes))
  read_loop_lem (node ∷ nodes) npos n (same, sized) inside fits some_bytes =
      elim (Bool-cases (leb n (length node - npos))) [
        | inl here ↦ from_one_node node nodes npos n same sized inside here
        | inr on ↦
            let more : length node - npos < n = ground (arith, on) in
            from_two_nodes node nodes npos n same sized inside on (
              read_loop_lem nodes 0 (n - (length node - npos)) sized (omega (arith, inside))
                (omega (arith, more, fits, same, inside)) (omega (arith, more)))
      ]

  pub read_nodes_lem :
      (nodes : List Bytes) (npos n : ℕ)
      → OfSize base nodes
      → npos < base
      → npos + n ≤ length nodes * base
      → 0 < length nodes
      → Taken nodes npos n (read_nodes nodes npos n)
  unfolding read_nodes
  read_nodes_lem [] npos n sized inside fits there = absurd (omega (arith, there))
  read_nodes_lem (node ∷ nodes) npos zero sized inside fits there = record {
    passed = 0;
    taken = refl;
    goes = record { off = npos; within = inside; moved = omega arith; left = omega arith };
  }
  read_nodes_lem (node ∷ nodes) npos (suc n) sized inside fits there =
      read_loop_lem (node ∷ nodes) npos (suc n) sized inside fits (omega arith)

  another : (k v : ℕ) → base < v → v ≤ suc k * base → 0 < k
  another zero v more fits = absurd (omega (arith, more, fits))
  another (suc k) v more fits = omega arith

  pub seek_lem :
      (nodes : List Bytes) (v : ℕ)
      → OfSize base nodes
      → 0 < base
      → v ≤ length nodes * base
      → 0 < length nodes
      → (i : ℕ) × (seek nodes v ≡ some i) × Moved base (length nodes) 0 v i
  unfolding seek
  seek_lem [] v sized some_bytes fits there = absurd (omega (arith, there))
  seek_lem (node ∷ nodes) v (same, sized) some_bytes fits there =
      elim (Bool-cases (ltb (length node) v)) [
        | inl on ↦
            let more : length node < v = ground (arith, on) in
            let (i, found, goes) =
              seek_lem nodes (v - length node) sized some_bytes (omega (arith, more, fits, same))
                (another (length nodes) v (omega (arith, more, same)) fits) in
            (
              suc i,
              rw (on, found) refl,
              next_block (length nodes) 0 v (v - length node) i (omega arith)
                  (omega (arith, more, same)) goes,
            )
        | inr here ↦
            let fits' : v ≤ length node = ground (arith, here) in
            (
              past_end node v,
              rw here refl,
              subst (λ m. Moved base (suc (length nodes)) 0 v (past_end node m)) (zero_add v)
                  (last_block node (length nodes) 0 v same some_bytes (omega (arith, fits', same))),
            )
      ]
