-- ===== src/Examples/Message.antt =====
-- Messages of src/net/message.cpp as bytes and back.
use sententia.Prelude.{[], ◌∷◌}
use sententia.Prelude.Int.{negsuc}
use sententia.Types.{buy, limit, immediate_or_cancel, Command, new_order, cancel_order}
use sententia.Message.{Message, append_entries}

abbrev order : Command
order = new_order (record {
  id = 9;
  instrument = 7;
  side = buy;
  kind = limit;
  tif = immediate_or_cancel;
  price = negsuc 4;
  quantity = 30;
})

abbrev batch : Message
batch = append_entries (record {
  term = 3;
  leader_id = 1;
  prev_seq = 4;
  prev_term = 2;
  commit_seq = 4;
  entries =
      record { seq = 5; term = 3; command = order }
      ∷ record { seq = 6; term = 3; command = cancel_order (record { id = 9 }) }
      ∷ [];
})
