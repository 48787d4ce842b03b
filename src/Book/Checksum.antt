-- ===== src/Book/Checksum.antt =====
-- `hashBytes`, `hashValue`, `hashLevels` and `OrderBook::checksum` of src/order_book.cpp, and `mix`
-- of src/engine.cpp: FNV-1a over the bytes of 64-bit values, on a little-endian machine.
use Prim.Native.Nat.{bit_xor}
use sententia.Prelude.{
  ℕ, zero, suc, ◌+◌, ◌-◌, ◌*◌, ◌/◌, ◌%◌, ◌^◌, List, [], ◌∷◌, length, ◌<◌, arith,
}
use sententia.Prelude.Int.{ℤ, pos, negsuc}
use sententia.Book.{RestingOrder, Level, OrderBook}

abbrev fnv_offset : ℕ
fnv_offset = 1469598103934665603

abbrev fnv_prime : ℕ
fnv_prime = 1099511628211

-- `h ^= byte; h *= prime;` for the `n` bytes of `v`, lowest first.
unfoldable pub hash_bytes : ℕ → ℕ → ℕ → ℕ
hash_bytes zero h v = h
hash_bytes (suc n) h v = hash_bytes n (bit_xor h (v % 256) * fnv_prime % 2 ^ 64) (v / 256)

unfoldable pub hash_value : ℕ → ℕ → ℕ
unfolding hash_bytes
hash_value h v = hash_bytes 8 h v

-- The two's complement bits of a `std::int64_t`.
unfoldable pub to_u64 : ℤ → ℕ
to_u64 (pos n) = n
to_u64 (negsuc n) = 2 ^ 64 - (n + 1)

hash_queue : ℕ → List RestingOrder → ℕ
hash_queue h [] = h
hash_queue h (o ∷ os) =
    hash_queue (hash_value (hash_value (hash_value h o.id) o.quantity) o.arrival) os

unfoldable pub hash_levels : ℕ → List Level → ℕ
unfolding hash_queue hash_value to_u64
hash_levels h [] = h
hash_levels h (l ∷ ls) =
    hash_levels (hash_queue (hash_value (hash_value h (to_u64 l.price)) (length l.queue)) l.queue)
      ls

unfoldable pub checksum : OrderBook → ℕ
unfolding hash_levels hash_value
checksum b =
    hash_levels
      (hash_value (hash_levels (hash_value fnv_offset (length b.bids)) b.bids) (length b.asks))
      b.asks

hash_bytes-lt : (n h v : ℕ) → hash_bytes (suc n) h v < 2 ^ 64
unfolding hash_bytes
hash_bytes-lt zero h v = omega arith
hash_bytes-lt (suc n) h v = hash_bytes-lt n (bit_xor h (v % 256) * fnv_prime % 2 ^ 64) (v / 256)

-- A hash is a 64-bit number.
pub hash_value-lt : (h v : ℕ) → hash_value h v < 2 ^ 64
unfolding hash_value
hash_value-lt h v = hash_bytes-lt 7 h v
