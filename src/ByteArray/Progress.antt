-- ===== src/ByteArray/Progress.antt =====
-- What has been written since a position, and what comes next.
use zero_frameworks.Base.{
  ℕ, zero, suc, ◌+◌, ◌≤◌, ◌<◌, ◌≡◌, refl, sym, ◌∙◌, ap, Bool, List, [], ◌∷◌, ◌++◌, length, take,
  drop, length-append, length-take, append_assoc, arith, take-length-append, drop-length-append,
}
use zero_frameworks.Base.Bytes.{Bytes}
use zero_frameworks.ByteArray.{ByteArray, ok, copy_to, read, set_position, write}
use zero_frameworks.ByteArray.Blocks.{joined, length-joined, zero_add, suc_add, take-append-drop}
use zero_frameworks.ByteArray.Flat.{WellFormed, text, copy_to_past}
use zero_frameworks.ByteArray.Write.{write-Wrote}
use zero_frameworks.ByteArray.Read.{set_position-SameBlocks, read-SameBlocks}

-- What has been written since a position.
pub record Behind (little : Bool) (start : ℕ) (a : ByteArray) (bytes : Bytes) : Type 0 where
  pub well : WellFormed a
  pub order : a.little_endian ≡ little
  pub before : Bytes
  pub after : Bytes
  pub parts : text a ≡ before ++ (bytes ++ after)
  pub from_start : length before ≡ start
  pub position : a.position ≡ start + length bytes

-- What comes next.
pub record Ahead (little : Bool) (a : ByteArray) (bytes : Bytes) : Type 0 where
  pub well : WellFormed a
  pub order : a.little_endian ≡ little
  pub after : Bytes
  pub next : drop a.position (text a) ≡ bytes ++ after
  pub inside : a.position + length bytes ≤ a.size

copy_to_all : (cs ys : Bytes) → length cs ≤ length ys → copy_to 0 cs ys ≡ cs ++ drop (length cs) ys
unfolding copy_to
copy_to_all [] ys fits = refl
copy_to_all (c ∷ cs) [] fits = absurd (omega (arith, fits))
copy_to_all (c ∷ cs) (y ∷ ys) fits = ap (◌∷◌ c) (copy_to_all cs ys (omega (arith, fits)))

drop_none : {A : Type 0} (n : ℕ) → drop {A = A} n [] ≡ []
drop_none zero = refl
drop_none (suc n) = refl

drop_add : {A : Type 0} (n m : ℕ) (xs : List A) → drop (n + m) xs ≡ drop m (drop n xs)
drop_add zero m xs = rw (zero_add m) refl
drop_add (suc n) m [] = drop_none (suc n + m) ∙ sym (drop_none m)
drop_add (suc n) m (x ∷ xs) = rw (suc_add n m) (drop_add n m xs)

pub start-Behind : (a : ByteArray) → WellFormed a → Behind a.little_endian a.position a []
start-Behind a w = record {
  well = w;
  order = refl;
  before = take a.position (text a);
  after = drop a.position (text a);
  parts = sym (take-append-drop a.position (text a));
  from_start = omega (
    arith,
    length-take a.position (text a),
    length-joined a.base_size a.nodes w.sized,
    w.all,
    w.bounded,
    w.reached,
  );
  position = omega arith;
}

-- What is written comes behind what has been written before.
pub write-Behind :
    (little : Bool) (found : ℕ → ℕ → ℕ) (start : ℕ) (a : ByteArray) (bytes buf : Bytes)
    → Behind little start a bytes
    → (b : ByteArray) × (write found buf a ≡ ok b) × Behind little start b (bytes ++ buf)
write-Behind little found start a bytes buf s =
    let (b, done, wrote) = write-Wrote found buf a s.well in
    let front = s.before ++ bytes in
    let back = s.after ++ wrote.more in
    let at_front : a.position ≡ length front + 0 =
      omega (arith, s.position, s.from_start, length-append s.before bytes) in
    let all : text a ++ wrote.more ≡ front ++ back =
      ap (λ t. t ++ wrote.more) s.parts
      ∙ append_assoc s.before (bytes ++ s.after) wrote.more
      ∙ ap (◌++◌ s.before) (append_assoc bytes s.after wrote.more)
      ∙ sym (append_assoc s.before bytes back) in
    let fits : length buf ≤ length back =
      omega (arith, wrote.room, ap length all, length-append front back, at_front) in
    let rest = drop (length buf) back in
    (
      b,
      done,
      record {
        well = wrote.well;
        order = wrote.order ∙ s.order;
        before = s.before;
        after = drop (length buf) back;
        parts =
            wrote.written
            ∙ ap (λ p. copy_to p buf (text a ++ wrote.more)) at_front
            ∙ ap (copy_to (length front + 0) buf) all
            ∙ copy_to_past 0 buf front back
            ∙ ap (◌++◌ front) (copy_to_all buf back fits)
            ∙ append_assoc s.before bytes (buf ++ rest)
            ∙ ap (◌++◌ s.before) (sym (append_assoc bytes buf rest));
        from_start = s.from_start;
        position = omega (arith, wrote.position, s.position, length-append bytes buf);
      },
    )

-- What has been written is ahead from where the writing started.
pub set_position-Ahead :
    (little : Bool) (start : ℕ) (a : ByteArray) (bytes : Bytes)
    → Behind little start a bytes
    → (b : ByteArray) × (set_position start a ≡ ok b) × Ahead little b bytes
set_position-Ahead little start a bytes s =
    let w = s.well in
    let (b, done, same, there) =
      set_position-SameBlocks a w start (omega (arith, w.reached, s.position)) in
    (
      b,
      done,
      record {
        well = same.well;
        order = same.order ∙ s.order;
        after = s.after;
        next =
            rw (there, same.nodes, s.parts, sym s.from_start)
              (drop-length-append s.before (bytes ++ s.after));
        inside = omega (arith, there, same.size, s.position, w.reached);
      },
    )

-- A read takes what comes next.
pub read-Ahead :
    (little : Bool) (a : ByteArray) (bytes later : Bytes)
    → Ahead little a (bytes ++ later)
    → 0 < length bytes
    → (b : ByteArray) × (read (length bytes) a ≡ ok (bytes, b)) × Ahead little b later
read-Ahead little a bytes later s some_bytes =
    let w = s.well in
    let inside : a.position + length bytes ≤ a.size =
      omega (arith, s.inside, length-append bytes later) in
    let (b, done, same, there) =
      read-SameBlocks a w (length bytes) inside (omega (arith, inside, some_bytes, w.bounded)) in
    let all = s.next ∙ append_assoc bytes later s.after in
    (
      b,
      done
          ∙ ap (λ t. ok (t, b))
              (ap (take (length bytes)) all ∙ take-length-append bytes (later ++ s.after)),
      record {
        well = same.well;
        order = same.order ∙ s.order;
        after = s.after;
        next =
            ap (drop b.position) (ap joined same.nodes)
            ∙ ap (λ p. drop p (text a)) there
            ∙ drop_add a.position (length bytes) (text a)
            ∙ ap (drop (length bytes)) all
            ∙ drop-length-append bytes (later ++ s.after);
        inside = omega (arith, there, same.size, s.inside, length-append bytes later);
      },
    )
