-- ===== src/Example.antt =====
-- The programs of examples/: a device that answers one request, and a host that makes it.
pub mod Device
pub mod Host
pub mod Serves
pub mod Told
pub mod Loop
pub mod Waiting
pub mod Asking
pub mod Losing
pub mod Retrying
pub mod Answering
pub mod Rounds
pub mod Lost
pub mod Repeating
pub mod AnyLine
pub mod Programs
pub mod Ends
pub mod TestArm
pub mod Telemetry
use florid_usb_protocols.Prelude.{ℕ, List, [], ◌∷◌, ◌++◌}
use florid_usb_protocols.Packet.{PacketTraits, to_bytes}
use florid_usb_protocols.Packet.Traits.{
  ack_packet_traits, set_mit_limit_request_packet_traits, set_mit_limit_response_packet_traits,
}

-- The packet types of both stacks.
abbrev pub types : List PacketTraits
types =
    ack_packet_traits ∷ set_mit_limit_request_packet_traits ∷ set_mit_limit_response_packet_traits
    ∷ []

abbrev pub request_cmd : ℕ
request_cmd = set_mit_limit_request_packet_traits.cmd

abbrev pub response_cmd : ℕ
response_cmd = set_mit_limit_response_packet_traits.cmd

-- The bytes of a SetMitLimitRequestPacket; `limits` holds those of its two floats.
abbrev pub request : (tx_id joint : ℕ) → List ℕ → List ℕ
request tx_id joint limits = to_bytes 4 tx_id ++ (joint ∷ limits)
