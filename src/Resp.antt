-- ===== src/Resp.antt =====
-- zero/kv/resp.h: the values of the Redis serialization protocol. `RespValue` is a struct that is
-- read by its tag; here each tag is a constructor with the fields that are read under it.
pub mod Number
pub mod Encode
pub mod Reader
use zero_frameworks.Base.{ℕ, suc}
use zero_frameworks.Base.Bytes.{Bytes, codes}
use zero_frameworks.Base.Int.{ℤ}

mutual
  pub data RespValue : Type 0 where
    simple_string : Bytes → RespValue
    error : Bytes → RespValue
    integer : ℤ → RespValue
    bulk_string : Bytes → RespValue
    null_bulk : RespValue
    array : Items → RespValue
    null : RespValue

  -- `std::vector<RespValue>`
  pub data Items : Type 0 where
    nil : Items
    cons : RespValue → Items → Items

unfoldable pub size : Items → ℕ
size nil = 0
size (cons v vs) = suc (size vs)

-- The two bytes of `kCrlf`.
abbrev pub crlf : Bytes
crlf = codes "\r\n"
