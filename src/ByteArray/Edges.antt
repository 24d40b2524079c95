-- ===== src/ByteArray/Edges.antt =====
-- `ByteArray` at its end, and `toString`.
use zero_frameworks.Base.{
  ℕ, zero, suc, ◌+◌, ◌-◌, ◌*◌, ◌%◌, ◌^◌, ◌≤◌, ◌<◌, ◌≡◌, refl, ap, true, false, List, [], ◌∷◌,
  if◌then◌else◌, ◌==◌, ltb, length, take, drop, arith, inl, inr, Bool-cases,
}
use zero_frameworks.Base.Bytes.{Bytes}
use zero_frameworks.ByteArray.{
  ByteArray, ok, out_of_range, null_pointer, read_nodes, read, read_at, to_string,
}
use zero_frameworks.ByteArray.Flat.{WellFormed, text, AtEnd, mod_place}
use zero_frameworks.ByteArray.Read.{all_rest, bytes_read, text_read}

none_left : (k cur base off : ℕ) → (cur + k) * base ≡ cur * base + off → off < base → k ≡ 0
none_left zero cur base off all within = refl
none_left (suc k) cur base off all within = absurd (omega (arith, all, within))

no_nodes : (nodes : List Bytes) → length nodes ≡ 0 → nodes ≡ []
no_nodes [] h = refl
no_nodes (x ∷ nodes) h = absurd (omega (arith, h))

module _ (a : ByteArray) (w : WellFormed a) where
  end_nodes : AtEnd a → drop a.cur a.nodes ≡ []
  end_nodes at_end = no_nodes (drop a.cur a.nodes) (
      none_left (length (drop a.cur a.nodes)) a.cur a.base_size w.off
        (omega (arith, all_rest a w, at_end, w.place)) w.within)

  -- A read of nothing at the end of the last block follows the null pointer, and a read of anything is
  -- refused there.
  pub read-AtEnd : (n : ℕ) → AtEnd a → read n a ≡ (if n == 0 then null_pointer else out_of_range)
  unfolding read read_nodes
  read-AtEnd zero at_end =
      let asked : ltb (a.size - a.position) 0 ≡ false = ground arith in
      rw (asked, end_nodes at_end) refl
  read-AtEnd (suc n) at_end =
      let asked : ltb (a.size - a.position) (suc n) ≡ true = ground (arith, at_end, w.bounded) in
      rw asked (ground arith)

  -- `toString` is what has been written behind the position, unless the array is longer than a
  -- `size_t` can count.
  pub to_string_rest :
      a.size < 2 ^ 64 → to_string a ≡ ok (take (a.size - a.position) (drop a.position (text a)))
  unfolding to_string read_at
  to_string_rest counted = elim (Bool-cases (a.size - a.position == 0)) [
    | inl nothing ↦
        let none_left : 0 ≡ a.size - a.position = ground (arith, nothing) in
        rw nothing (ap (λ n. ok (take n (drop a.position (text a)))) none_left)
    | inr some_bytes ↦
        let n = a.size - a.position in
        let inside : a.position + n ≤ a.size = omega (arith, w.reached) in
        let some : 0 < n = ground (arith, some_bytes) in
        let left : (a.size + 2 ^ 64 - a.position) % 2 ^ 64 ≡ n =
          omega (arith, counted, w.reached) in
        let fits : ltb n n ≡ false = ground arith in
        let taken = bytes_read a w n inside (omega (arith, some, w.bounded, w.reached)) in
        rw
          (
            some_bytes,
            left,
            fits,
            mod_place a w,
            taken.taken,
            text_read a w n inside (omega (arith, some, w.bounded, w.reached)),
          )
          refl
  ]
