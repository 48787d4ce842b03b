-- ===== src/Network.antt =====
-- include/sententia/net/transport.hpp: the two calls of a transport that the replicator makes.
use sententia.Prelude.{ℕ, Bool}
use sententia.Message.{Message}

pub data SendResult : Type 0 where
  sent not_connected would_overflow : SendResult

-- `send` and `isSaturated`, over the states of a transport.
pub record Network : Type 1 where
  pub State : Type 0
  pub send : ℕ → Message → State → SendResult × State
  pub is_saturated : ℕ → State → Bool
