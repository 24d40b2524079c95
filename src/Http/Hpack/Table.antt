-- ===== src/Http/Hpack/Table.antt =====
-- zero/http/hpack.cc: the static table and the look-up of a header in it.
use zero_frameworks.Base.{ℕ, suc, ◌&&◌, List, [], ◌∷◌, if◌then◌else◌}
use zero_frameworks.Base.Bytes.{Bytes, codes, beq}

-- `kStaticTable`
abbrev pub static_table : List (Bytes × Bytes)
static_table =
    (codes "", codes "")
    ∷ (codes ":authority", codes "")
    ∷ (codes ":method", codes "GET")
    ∷ (codes ":method", codes "POST")
    ∷ (codes ":path", codes "/")
    ∷ (codes ":path", codes "/index.html")
    ∷ (codes ":scheme", codes "http")
    ∷ (codes ":scheme", codes "https")
    ∷ (codes ":status", codes "200")
    ∷ (codes ":status", codes "204")
    ∷ (codes ":status", codes "206")
    ∷ (codes ":status", codes "304")
    ∷ (codes ":status", codes "400")
    ∷ (codes ":status", codes "404")
    ∷ (codes ":status", codes "500")
    ∷ (codes "accept-charset", codes "")
    ∷ (codes "accept-encoding", codes "gzip, deflate")
    ∷ (codes "accept-language", codes "")
    ∷ (codes "accept-ranges", codes "")
    ∷ (codes "accept", codes "")
    ∷ (codes "access-control-allow-origin", codes "")
    ∷ (codes "age", codes "")
    ∷ (codes "allow", codes "")
    ∷ (codes "authorization", codes "")
    ∷ (codes "cache-control", codes "")
    ∷ (codes "content-disposition", codes "")
    ∷ (codes "content-encoding", codes "")
    ∷ (codes "content-language", codes "")
    ∷ (codes "content-length", codes "")
    ∷ (codes "content-location", codes "")
    ∷ (codes "content-range", codes "")
    ∷ (codes "content-type", codes "")
    ∷ (codes "cookie", codes "")
    ∷ (codes "date", codes "")
    ∷ (codes "etag", codes "")
    ∷ (codes "expect", codes "")
    ∷ (codes "expires", codes "")
    ∷ (codes "from", codes "")
    ∷ (codes "host", codes "")
    ∷ (codes "if-match", codes "")
    ∷ (codes "if-modified-since", codes "")
    ∷ (codes "if-none-match", codes "")
    ∷ (codes "if-range", codes "")
    ∷ (codes "if-unmodified-since", codes "")
    ∷ (codes "last-modified", codes "")
    ∷ (codes "link", codes "")
    ∷ (codes "location", codes "")
    ∷ (codes "max-forwards", codes "")
    ∷ (codes "proxy-authenticate", codes "")
    ∷ (codes "proxy-authorization", codes "")
    ∷ (codes "range", codes "")
    ∷ (codes "referer", codes "")
    ∷ (codes "refresh", codes "")
    ∷ (codes "retry-after", codes "")
    ∷ (codes "server", codes "")
    ∷ (codes "set-cookie", codes "")
    ∷ (codes "strict-transport-security", codes "")
    ∷ (codes "transfer-encoding", codes "")
    ∷ (codes "user-agent", codes "")
    ∷ (codes "vary", codes "")
    ∷ (codes "via", codes "")
    ∷ (codes "www-authenticate", codes "")
    ∷ []

-- The rows from index 1 on: 0 if the header is in none of them.
unfoldable pub row_of : ℕ → List (Bytes × Bytes) → Bytes → Bytes → ℕ
row_of i [] name value = 0
row_of i ((n, v) ∷ rows) name value =
    if beq name n && beq value v then i else row_of (suc i) rows name value

unfoldable pub without_first : List (Bytes × Bytes) → List (Bytes × Bytes)
without_first [] = []
without_first (row ∷ rows) = rows

-- `lookupStaticTable`
unfoldable pub lookup_static_table : Bytes → Bytes → ℕ
unfolding row_of without_first
lookup_static_table name value = row_of 1 (without_first static_table) name value
