-- ===== src/Resp/Encode.antt =====
-- zero/kv/resp.cc: `RespEncoder`, and `KvSession::appendResponse` of zero/kv/kv_session.cc.
pub mod Laws
use zero_frameworks.Base.{
  ℕ, ◌≤◌, Bool, true, false, List, [], ◌∷◌, ◌++◌, leb, if◌then◌else◌, Option, none, some, ◌==◌,
  get_or, length,
}
use zero_frameworks.Base.Bytes.{Bytes, codes, beq}
use zero_frameworks.Base.Int.{ℤ, pos, negsuc}
use zero_frameworks.Resp.{
  RespValue, simple_string, error, integer, bulk_string, null_bulk, array, null, Items, nil, cons,
  size, crlf,
}
use zero_frameworks.Resp.Number.{append_int64}

abbrev pub resp_ok : Bytes
resp_ok = codes "+OK\r\n"

abbrev pub resp_one : Bytes
resp_one = codes ":1\r\n"

abbrev pub resp_zero : Bytes
resp_zero = codes ":0\r\n"

abbrev pub resp_null_bulk : Bytes
resp_null_bulk = codes "$-1\r\n"

abbrev pub resp_empty_array : Bytes
resp_empty_array = codes "*0\r\n"

abbrev pub resp_pong : Bytes
resp_pong = codes "+PONG\r\n"

abbrev pub resp_queued : Bytes
resp_queued = codes "+QUEUED\r\n"

-- `kRespBulkHdr`
unfoldable pub resp_bulk_hdr : List Bytes
resp_bulk_hdr =
    codes "$0\r\n"
    ∷ codes "$1\r\n"
    ∷ codes "$2\r\n"
    ∷ codes "$3\r\n"
    ∷ codes "$4\r\n"
    ∷ codes "$5\r\n"
    ∷ codes "$6\r\n"
    ∷ codes "$7\r\n"
    ∷ codes "$8\r\n"
    ∷ codes "$9\r\n"
    ∷ codes "$10\r\n"
    ∷ codes "$11\r\n"
    ∷ codes "$12\r\n"
    ∷ codes "$13\r\n"
    ∷ codes "$14\r\n"
    ∷ codes "$15\r\n"
    ∷ codes "$16\r\n"
    ∷ []

-- The header of a bulk string: from the table up to 16 bytes, else written out.
unfoldable pub bulk_header : ℕ → Bytes → Bytes
unfolding resp_bulk_hdr
bulk_header len out =
    if leb len 16
    then out ++ get_or resp_bulk_hdr len []
    else ((out ++ b'$' ∷ []) ++ append_int64 (pos len)) ++ crlf

unfoldable mutual
  -- `encodeInto(v, out)`: the new value of `out`.
  pub encode_into : RespValue → Bytes → Bytes
  encode_into (simple_string s) out = ((out ++ b'+' ∷ []) ++ s) ++ crlf
  encode_into (error s) out = ((out ++ b'-' ∷ []) ++ s) ++ crlf
  encode_into (integer n) out = ((out ++ b':' ∷ []) ++ append_int64 n) ++ crlf
  encode_into (bulk_string s) out = (bulk_header (length s) out ++ s) ++ crlf
  encode_into null_bulk out = out ++ resp_null_bulk
  encode_into (array vs) out =
      encode_items vs (((out ++ b'*' ∷ []) ++ append_int64 (pos (size vs))) ++ crlf)
  encode_into null out = out ++ resp_null_bulk

  -- the loop over `v.array`
  pub encode_items : Items → Bytes → Bytes
  encode_items nil out = out
  encode_items (cons v vs) out = encode_items vs (encode_into v out)

unfoldable pub encode : RespValue → Bytes
encode v = encode_into v []

-- `appendResponse`: what the write buffer is afterwards.
unfoldable pub append_response : RespValue → Bytes → Bytes
append_response (simple_string s) buf =
    if beq s (codes "OK")
    then buf ++ resp_ok
    else if beq s (codes "PONG")
    then buf ++ resp_pong
    else if beq s (codes "QUEUED")
    then buf ++ resp_queued
    else encode_into (simple_string s) buf
append_response (integer (pos n)) buf =
    if n == 1
    then buf ++ resp_one
    else if n == 0
    then buf ++ resp_zero
    else encode_into (integer (pos n)) buf
append_response null buf = buf ++ resp_null_bulk
append_response null_bulk buf = buf ++ resp_null_bulk
append_response (array nil) buf = buf ++ resp_empty_array
append_response v buf = encode_into v buf
