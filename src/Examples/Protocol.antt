-- ===== src/Examples/Protocol.antt =====
-- The theorems on the protocol, on the hash slots and on the breaker at concrete inputs.
use zero_frameworks.Base.{
  ℕ, ◌*◌, ◌%◌, ◌<◌, ◌≡◌, ◌≢◌, ◌↔◌, refl, [], ◌∷◌, ◌++◌, length, get_or, arith, leb,
}
use zero_frameworks.Base.Bytes.{Bytes, codes}
use zero_frameworks.Base.Assoc.{bytes_eq}
use zero_frameworks.Base.Int.{pos, negsuc}
use zero_frameworks.Resp.{
  RespValue, simple_string, integer, bulk_string, null_bulk, array, null, nil, cons, size,
}
use zero_frameworks.Resp.Number.{read_int64}
use zero_frameworks.Resp.Encode.{encode}
use zero_frameworks.Resp.Reader.{Memory, ok, try_parse}
use zero_frameworks.Resp.Reader.Lines.{find_crlf}
use zero_frameworks.Resp.Reader.RoundTrip.{on_wire, try_parse-encode, try_parse-encode_negative}
use zero_frameworks.Resp.Reader.Bounds.{Ends, try_parse-Ends}
use zero_frameworks.Resp.Reader.Cuts.{try_parse_overrun}
use zero_frameworks.Cluster.Slot.{key_to_slot, crc16, crc16_table, cluster_slot_count}
use zero_frameworks.Cluster.Slot.Laws.{
  key_to_slot_tag, crc16_xmodem, reference_from, table_entry_iff, divide_times, divide, avoids,
}
use zero_frameworks.Rpc.CircuitBreaker.{RpcCircuitState, Config, Breaker, new_breaker, Manager}
use zero_frameworks.Rpc.CircuitBreaker.Laws.{
  Call, Reachable, Sensible, WellFormed, perform, Reachable-WellFormed,
}

-- There is room for a thousand items.
instance abbrev thousand_items : Memory
thousand_items = record { grants = λ count. leb count 1000 }

-- The command SET k v, with a number and a nested array behind it.
abbrev command : RespValue
command = array (
    cons (bulk_string (codes "SET")) (
      cons (simple_string (codes "k"))
        (cons (integer (pos 12)) (cons (array (cons null nil)) nil))))

try_parse-encode_example :
    try_parse (encode command ++ codes "+OK") ≡ ok (on_wire command) (length (encode command))
unfolding find_crlf size
try_parse-encode_example =
    try_parse-encode command (codes "+OK")
      (omega arith, refl, (omega arith, (refl, (omega arith, ((omega arith, refl, (tt, tt)), tt)))))

try_parse-encode_negative_example :
    try_parse (encode (integer (negsuc 14)) ++ [])
    ≡ ok (integer (negsuc 4)) (length (encode (integer (negsuc 14))))
try_parse-encode_negative_example =
    try_parse-encode_negative 14 [] (omega arith) (λ e. absurd (omega (arith, e)))

try_parse-Ends_example : Ends (codes "*1\r\n$1\r\nk\r\n") (try_parse (codes "*1\r\n$1\r\nk\r\n"))
try_parse-Ends_example = try_parse-Ends (codes "*1\r\n$1\r\nk\r\n")

try_parse_overrun_example : try_parse (codes "$-1\r") ≡ ok null_bulk 5
unfolding read_int64
try_parse_overrun_example = try_parse_overrun 0 13 (codes "-1\r") refl

key_to_slot_tag_example :
    (key_to_slot (codes "a" ++ 123 ∷ (codes "user" ++ 125 ∷ codes ".b"))
      ≡ crc16 (codes "user") % cluster_slot_count)
    × ((key : Bytes) → key_to_slot key < cluster_slot_count)
key_to_slot_tag_example =
    key_to_slot_tag (codes "a") (codes "user") (codes ".b") (λ e. absurd (omega (arith, e)), tt)
      (
        λ e. absurd (omega (arith, e)),
        (
          λ e. absurd (omega (arith, e)),
          (λ e. absurd (omega (arith, e)), (λ e. absurd (omega (arith, e)), tt)),
        ),
      )
      (omega arith)

crc16_xmodem_example : crc16 (codes "foo") ≡ reference_from 0 (codes "foo")
unfolding avoids divide_times divide
crc16_xmodem_example = crc16_xmodem (codes "foo") refl

abbrev index : ℕ
index = 202

table_entry_iff_example :
    (get_or crc16_table index 0 ≡ divide_times 8 (index * 256)) ↔ ((index ≢ 202) × (index ≢ 203))
table_entry_iff_example = table_entry_iff index (omega arith)

abbrev config : Config
config = record {
  failure_threshold = pos 5;
  success_threshold = pos 2;
  open_duration_ms = 5000;
  half_open_max_calls = 3;
}

config-Sensible : Sensible config
config-Sensible = record {
  failures_needed = omega arith;
  failures_fit = omega arith;
  successes_needed = omega arith;
  successes_fit = omega arith;
  calls_fit = omega arith;
}

Reachable-WellFormed_example : WellFormed config (perform config (Call.failure 8) new_breaker)
Reachable-WellFormed_example =
    Reachable-WellFormed config config-Sensible (perform config (Call.failure 8) new_breaker)
      (Reachable.next (Call.failure 8) new_breaker Reachable.start)

abbrev tripped : Breaker
tripped = record new_breaker { state = RpcCircuitState.opened; failures = pos 5; opened_at = 100 }

abbrev exhausted : Breaker
exhausted = record new_breaker { state = RpcCircuitState.half_open; half_open_calls = 3 }

abbrev manager : Manager
manager = record {
  default_config = config;
  breakers = (codes "a", (config, tripped)) ∷ [];
  configs = [];
}
