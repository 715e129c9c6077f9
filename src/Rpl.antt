-- ===== src/Rpl.antt =====
-- What include/ProtocolStack.hpp takes from 3rdparty/rpl: the parser and the serializer.
use florid_usb_protocols.Prelude.{ℕ, Bool, Option, List}
use florid_usb_protocols.Packet.{PacketTraits}

-- `push_data` lists the packets whose `after_parse` it calls, in order, with their bytes;
-- `advance_write_index` does the same for bytes that stand in the parser's buffer, and says whether
-- it succeeds. `serialize limit t bytes` is the frame of a packet of the type `t`, if it fits a
-- buffer of `limit` bytes.
pub record Rpl : Type 1 where
  pub Parser : Type 0
  pub parser : Parser
  pub push_data : Parser → List ℕ → Parser × List (PacketTraits × List ℕ)
  pub advance_write_index : Parser → List ℕ → Bool × Parser × List (PacketTraits × List ℕ)
  pub serialize : ℕ → PacketTraits → List ℕ → Option (List ℕ)
