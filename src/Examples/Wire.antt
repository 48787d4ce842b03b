-- ===== src/Examples/Wire.antt =====
-- Runs of include/sententia/net/wire.hpp on a buffer of two bytes.
use sententia.Prelude.{ℕ, List, [], ◌∷◌, arith}
use sententia.Wire.{new_reader, get_u8, get_u16, get_u32, get_u64, get_i64, get_str}
use sententia.Wire.Reading.{Bounded}
use sententia.Wire.Strings.{reads-Bounded}

abbrev word : List ℕ
word = 104 ∷ 105 ∷ []

reads-Bounded_example :
    Bounded (new_reader word) (get_u8 (new_reader word))
    × Bounded (new_reader word) (get_u16 (new_reader word))
    × Bounded (new_reader word) (get_u32 (new_reader word))
    × Bounded (new_reader word) (get_u64 (new_reader word))
    × Bounded (new_reader word) (get_i64 (new_reader word))
    × Bounded (new_reader word) (get_str 16 (new_reader word))
reads-Bounded_example = reads-Bounded 16 (new_reader word) (omega arith)
