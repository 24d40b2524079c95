-- ===== src/DbCache.antt =====
-- zero/db/db_cache.h: `MemoryDbCache`, a map whose entries may have an end. The reading of the steady
-- clock is an argument, in nanoseconds.
pub mod History
use zero_frameworks.Base.{
  ℕ, ◌+◌, Bool, true, false, ◌&&◌, List, [], ◌∷◌, if◌then◌else◌, Option, none, some, length,
}
use zero_frameworks.Base.Bytes.{Bytes}
use zero_frameworks.Base.Assoc.{Assoc, lookup, insert, erase, bytes_eq}
use zero_frameworks.Base.Int.{ℤ, pos, negsuc, ltb_ℤ, ◌+ℤ◌, scale}

pub record Item : Type 0 where
  pub value : Bytes
  pub expire_at : ℤ

abbrev pub MemoryDbCache : Type 0
MemoryDbCache = Assoc Bytes Item

unfoldable pub is_over : ℤ → Item → Bool
is_over now item = ltb_ℤ (pos 0) item.expire_at && ltb_ℤ item.expire_at now

-- The cache, and the value where `get` returns true.
unfoldable pub get : Bytes → ℤ → MemoryDbCache → MemoryDbCache × Option Bytes
unfolding is_over
get key now m = elim (lookup key m) [
  | none ↦ (m, none)
  | some item ↦ if is_over now item then (erase key m, none) else (m, some item.value)
]

unfoldable pub new_item : Bytes → ℤ → ℤ → Item
new_item value ttl_sec now = record {
  value = value;
  expire_at = if ltb_ℤ (pos 0) ttl_sec then now +ℤ scale 1000000000 ttl_sec else pos 0;
}

unfoldable pub set : Bytes → Bytes → ℤ → ℤ → MemoryDbCache → MemoryDbCache
unfolding new_item
set key value ttl_sec now m = insert key (new_item value ttl_sec now) m

unfoldable pub remove : Bytes → MemoryDbCache → MemoryDbCache
remove key m = erase key m

unfoldable pub size : MemoryDbCache → ℕ
size m = length m

unfoldable pub clear : MemoryDbCache → MemoryDbCache
clear m = []
