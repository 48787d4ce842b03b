-- ===== src/Wire/Sizes.antt =====
-- How many bytes each write of include/sententia/net/wire.hpp appends.
use sententia.Prelude.{ℕ, ◌+◌, ◌%◌, ◌≡◌, List, ◌∷◌, [], ◌++◌, length, length-append, arith}
use sententia.Prelude.Int.{ℤ}
use sententia.Wire.{put_u8, put_u16, put_u32, put_u64, put_i64, put_str}

module _ (out : List ℕ) where
  pub length-put_u8 : (v : ℕ) → length (put_u8 v out) ≡ length out + 1
  unfolding put_u8
  length-put_u8 v = omega (arith, length-append out (v ∷ []))

  pub length-put_u16 : (v : ℕ) → length (put_u16 v out) ≡ length out + 2
  unfolding put_u16
  length-put_u16 v = length-append out _

  pub length-put_u32 : (v : ℕ) → length (put_u32 v out) ≡ length out + 4
  unfolding put_u32
  length-put_u32 v = length-append out _

  pub length-put_u64 : (v : ℕ) → length (put_u64 v out) ≡ length out + 8
  unfolding put_u64
  length-put_u64 v = length-append out _

  pub length-put_i64 : (v : ℤ) → length (put_i64 v out) ≡ length out + 8
  unfolding put_i64 put_u64
  length-put_i64 v = length-append out _

  pub length-put_str : (s : List ℕ) → length (put_str s out) ≡ length out + 4 + length s
  unfolding put_str put_u32
  length-put_str s =
      omega (arith, length-append out s, length-append (out ++ _) s, length-append out _)

pub ruleset put_sizes = (
  arith, length-put_u8, length-put_u16, length-put_u32, length-put_u64, length-put_i64,
  length-put_str,
)
