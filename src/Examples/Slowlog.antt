-- ===== src/Examples/Slowlog.antt =====
-- The theorem on the slow log at a concrete input: a log for one command that is given two.
use zero_frameworks.Base.{ℕ, ◌≡◌, refl, List, [], ◌∷◌, arith}
use zero_frameworks.Base.Bytes.{Bytes, codes}
use zero_frameworks.Base.Int.{pos}
use zero_frameworks.Resp.{RespValue, Items}
use zero_frameworks.Slowlog.{Slowlog, new_slowlog}
use zero_frameworks.Slowlog.Laws.{Call, record_all, bounded, record_all-bounded}

abbrev request : Bytes → RespValue
request name = RespValue.array (Items.cons (RespValue.bulk_string name) Items.nil)

abbrev call : ℕ → Bytes → Call
call t name = record {
  now = pos t;
  client_id = pos 3;
  client_addr = codes "::1";
  request = request name;
  duration_us = pos 20000;
}

abbrev calls : List Call
calls = call 7 (codes "KEYS") ∷ call 9 (codes "SORT") ∷ []

abbrev unlimited : Slowlog
unlimited = record new_slowlog { max_len = 0 }

record_all-bounded_example :
    record_all (bounded 1 unlimited) calls ≡ bounded 1 (record_all unlimited calls)
record_all-bounded_example = record_all-bounded 1 unlimited calls (omega arith) refl
