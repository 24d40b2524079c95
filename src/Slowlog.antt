-- ===== src/Slowlog.antt =====
-- zero/kv/slowlog.h and slowlog.cc: `Slowlog`, the bounded log of slow commands. The clock is an
-- argument of `record`.
pub mod Laws
use zero_frameworks.Base.{
  ℕ, zero, suc, ◌+◌, ◌-◌, Bool, true, false, ◌&&◌, ◌||◌, List, [], ◌∷◌, ◌++◌, if◌then◌else◌, ◌==◌,
  ltb, leb, length, drop,
}
use zero_frameworks.Base.Bytes.{Bytes, codes}
use zero_frameworks.Base.Int.{ℤ, pos, negsuc, ltb_ℤ, leb_ℤ, ◌+ℤ◌, wrap64}
use zero_frameworks.Base.Decimal.{to_string}
use zero_frameworks.Resp.{RespValue, Items}

pub record SlowlogEntry : Type 0 where
  pub id : ℤ
  pub timestamp_ms : ℤ
  pub duration_us : ℤ
  pub args : List Bytes
  pub client_id : ℤ
  pub client_addr : Bytes

-- A length limit of 0 is none; `setMaxLen` leaves no negative one.
pub record Slowlog : Type 0 where
  pub max_len : ℕ
  pub slower_than_us : ℤ
  pub next_id : ℤ
  pub entries : List SlowlogEntry

abbrev pub new_slowlog : Slowlog
new_slowlog = record { max_len = 128; slower_than_us = pos 10000; next_id = pos 1; entries = [] }

-- One argument of `argsFromRequest`.
unfoldable pub arg_text : RespValue → Bytes
arg_text RespValue.null_bulk = codes "(nil)"
arg_text RespValue.null = codes "?"
arg_text (RespValue.bulk_string str) = str
arg_text (RespValue.integer n) = to_string n
arg_text (RespValue.simple_string str) = codes "?"
arg_text (RespValue.error str) = codes "?"
arg_text (RespValue.array items) = codes "?"

unfoldable pub arg_texts : Items → List Bytes
unfolding arg_text
arg_texts Items.nil = []
arg_texts (Items.cons item items) = arg_text item ∷ arg_texts items

unfoldable pub args_from_request : RespValue → List Bytes
unfolding arg_texts
args_from_request (RespValue.array items) = arg_texts items
args_from_request (RespValue.simple_string str) = []
args_from_request (RespValue.error str) = []
args_from_request (RespValue.integer n) = []
args_from_request (RespValue.bulk_string str) = []
args_from_request RespValue.null_bulk = []
args_from_request RespValue.null = []

abbrev pub at_least_zero : ℤ → ℕ
at_least_zero (pos n) = n
at_least_zero (negsuc n) = 0

unfoldable pub set_max_len : Slowlog → ℤ → Slowlog
set_max_len log n =
    let limit = at_least_zero n in
    record log {
      max_len = limit;
      entries =
          if ltb 0 limit && ltb limit (length log.entries)
          then drop (length log.entries - limit) log.entries
          else log.entries;
    }

unfoldable pub set_slower_than_us : Slowlog → ℤ → Slowlog
set_slower_than_us log us = record log { slower_than_us = if ltb_ℤ us (pos 0) then pos 0 else us }

-- `record`
unfoldable pub record_command : Slowlog → ℤ → ℤ → Bytes → RespValue → ℤ → Slowlog
unfolding args_from_request
record_command log now client_id client_addr request duration_us =
    if ltb_ℤ duration_us log.slower_than_us
    then log
    else (let entry : SlowlogEntry = record {
      id = log.next_id;
      timestamp_ms = now;
      duration_us = duration_us;
      args = args_from_request request;
      client_id = client_id;
      client_addr = client_addr;
    } in
        let longer = log.entries ++ entry ∷ [] in
        record log {
          next_id = wrap64 (log.next_id +ℤ pos 1);
          entries =
              if ltb 0 log.max_len && ltb log.max_len (length longer)
              then drop 1 longer
              else longer;
        })

-- `get`: the last entries, oldest first.
unfoldable pub get_entries : Slowlog → ℤ → List SlowlogEntry
get_entries log count =
    let size = length log.entries in
    if leb_ℤ count (pos 0) || ltb_ℤ (pos size) count
    then log.entries
    else drop (size - at_least_zero count) log.entries

unfoldable pub reset : Slowlog → Slowlog
reset log = record log { entries = [] }
