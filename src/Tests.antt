-- ===== src/Tests.antt =====
-- Concrete data for the runs in the child modules, which apply the theorems.
pub mod Rings
pub mod Queues
pub mod Sessions
pub mod Runs
pub mod Exchanges
pub mod Bindings
pub mod Interleaved
pub mod Stacks
pub mod Arms
use florid_usb_protocols.Prelude.{
  ℕ, true, some, List, [], ◌∷◌, arith, leb, length, none, if◌then◌else◌,
}
use florid_usb_protocols.Platform.{Platform, IsPlatform}
use florid_usb_protocols.Platform.AssocMap.{assoc_platform, assoc_platform-IsPlatform}
use florid_usb_protocols.Packet.Traits.{ack_packet_traits}
use florid_usb_protocols.Rpl.{Rpl}
use florid_usb_protocols.Session.{Config}

abbrev pub host : Platform
host = assoc_platform 64

pub host-IsPlatform : IsPlatform host
host-IsPlatform = assoc_platform-IsPlatform 64 (omega arith)

abbrev pub config : Config
config = record { window_size = 1; timeout = 10; max_retries = 3; device_cache_capacity = 2 }

-- A frame is the packet itself, and each chunk that comes in is an acknowledgement.
abbrev pub plain_rpl : Rpl
plain_rpl = record {
  Parser = Unit;
  parser = tt;
  push_data = λ p bytes. (p, (ack_packet_traits, bytes) ∷ []);
  advance_write_index = λ p bytes. (true, p, []);
  serialize = λ limit t bytes. if leb (length bytes) limit then some bytes else none;
}
