-- ===== src/Resp/Encode/Laws.antt =====
-- The encoder writes behind what is there, by one flat description of each value's text.
use zero_frameworks.Base.{
  ℕ, ◌<◌, ◌≡◌, refl, sym, ◌∙◌, ap, true, [], ◌∷◌, ◌++◌, arith, leb, get_or, length, append-nil,
  append_assoc, Bool-cases, inl, inr, leb→le,
}
use zero_frameworks.Base.Bytes.{Bytes, codes, beq, beq_iff}
use zero_frameworks.Base.Table.{all_below, all_below_sound}
use zero_frameworks.Base.Int.{pos}
use zero_frameworks.Resp.{
  RespValue, simple_string, error, integer, bulk_string, null_bulk, array, null, Items, nil, cons,
  size, crlf,
}
use zero_frameworks.Resp.Number.{append_int64}
use zero_frameworks.Resp.Encode.{
  resp_null_bulk, bulk_header, encode_into, encode_items, encode, append_response, resp_bulk_hdr,
}

-- The text of a value, bracketed to the right.
abbrev mutual
  pub text : RespValue → Bytes
  text (simple_string s) = b'+' ∷ (s ++ crlf)
  text (error s) = b'-' ∷ (s ++ crlf)
  text (integer n) = b':' ∷ (append_int64 n ++ crlf)
  text (bulk_string s) = b'$' ∷ (append_int64 (pos (length s)) ++ (crlf ++ (s ++ crlf)))
  text null_bulk = resp_null_bulk
  text (array vs) = b'*' ∷ (append_int64 (pos (size vs)) ++ (crlf ++ texts vs))
  text null = resp_null_bulk

  pub texts : Items → Bytes
  texts nil = []
  texts (cons v vs) = text v ++ texts vs

abbrev written_header : ℕ → Bytes
written_header n = b'$' ∷ (append_int64 (pos n) ++ crlf)

header_rows : all_below 17 (λ n. beq (get_or resp_bulk_hdr n []) (written_header n)) ≡ true
unfolding all_below beq resp_bulk_hdr append_int64
header_rows = refl

-- The table of headers agrees with the general path.
header_table : (n : ℕ) → n < 17 → get_or resp_bulk_hdr n [] ≡ written_header n
header_table n h = (beq_iff _ _).0 (all_below_sound 17 _ n header_rows h)

bulk_header-text : (n : ℕ) (out : Bytes) → bulk_header n out ≡ out ++ written_header n
unfolding bulk_header
bulk_header-text n out = elim (Bool-cases (leb n 16)) [
  | inl small ↦ rw (small, header_table n (omega (arith, leb→le n 16 small)))
  | inr large ↦ rw large (simp append_assoc)
]

mutual
  unfolding encode_into size

  encode_into-text : (v : RespValue) (out : Bytes) → encode_into v out ≡ out ++ text v
  encode_into-text (simple_string s) out = simp append_assoc
  encode_into-text (error s) out = simp append_assoc
  encode_into-text (integer n) out = simp append_assoc
  encode_into-text (bulk_string s) out = rw (bulk_header-text (length s) out) (simp append_assoc)
  encode_into-text null_bulk out = refl
  encode_into-text (array vs) out = rw (encode_items-texts vs _) (simp append_assoc)
  encode_into-text null out = refl

  encode_items-texts : (vs : Items) (out : Bytes) → encode_items vs out ≡ out ++ texts vs
  encode_items-texts nil out = sym (append-nil out)
  encode_items-texts (cons v vs) out =
      rw (encode_into-text v out, encode_items-texts vs (out ++ text v)) (simp append_assoc)

pub encode-text : (v : RespValue) → encode v ≡ text v
unfolding encode
encode-text v = encode_into-text v []

-- The constants of `appendResponse` are what the encoder writes.
append_response-encode : (v : RespValue) (buf : Bytes) → append_response v buf ≡ buf ++ encode v
unfolding append_response encode
append_response-encode (simple_string s) buf =
    rw (encode_into-text (simple_string s) buf, encode_into-text (simple_string s) [])
      (ground (arith, beq_iff s (codes "OK"), beq_iff s (codes "PONG"), beq_iff s (codes "QUEUED")))
append_response-encode (integer (pos n)) buf =
    rw (encode_into-text (integer (pos n)) buf, encode_into-text (integer (pos n)) [])
      (unfold append_int64 in ground arith)
append_response-encode null buf = unfold encode_into in refl
append_response-encode null_bulk buf = unfold encode_into in refl
append_response-encode (array nil) buf = unfold encode_into append_int64 size in refl
append_response-encode v buf = encode_into-text v buf ∙ ap (◌++◌ buf) (sym (encode_into-text v []))
