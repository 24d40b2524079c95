-- ===== src/Store/Flush.antt =====
-- zero/kv/store/kv_store.cc: `flushdb` and `flushall`, under the locks of all shards.
pub mod Laws
use zero_frameworks.Base.{ℕ, zero, suc, List, []}
use zero_frameworks.Store.{KvStore, Shard, shard_count, put_db, set_shard, bump_watch_db}

-- `for(int i = 0; i < n; ++i)` over the shards.
unfoldable pub each_shard : ℕ → (Shard → Shard) → KvStore → KvStore
unfolding set_shard
each_shard zero change s = s
each_shard (suc i) change s =
    let s' = each_shard i change s in set_shard i (change (s'.shards i)) s'

unfoldable pub flush_shard : ℕ → Shard → Shard
unfolding put_db bump_watch_db
flush_shard db sh = bump_watch_db db (put_db db [] sh)

unfoldable pub flushdb : KvStore → ℕ → KvStore
unfolding each_shard
flushdb s db = each_shard shard_count (flush_shard db) s

-- `kMaxDb`
abbrev pub max_db : ℕ
max_db = 16

-- The second loop of `flushall`, over the databases and in each over the shards.
unfoldable pub bump_all : ℕ → KvStore → KvStore
unfolding each_shard
bump_all zero s = s
bump_all (suc db) s = each_shard shard_count (bump_watch_db db) (bump_all db s)

unfoldable pub clear_shard : Shard → Shard
clear_shard sh = record sh { dbs = [] }

unfoldable pub flushall : KvStore → KvStore
unfolding each_shard bump_all
flushall s = bump_all max_db (each_shard shard_count clear_shard s)
