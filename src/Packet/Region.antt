-- ===== src/Packet/Region.antt =====
-- How include/ProtocolStack.hpp tells requests, responses and telemetry apart, and where it finds a
-- transaction id.
use florid_usb_protocols.Prelude.{
  ℕ, Bool, ◌&&◌, ◌||◌, bit_and, none, some, List, [], ◌∷◌, ltb, leb, ◌==◌, length, if◌then◌else◌,
}
use florid_usb_protocols.Packet.{PacketTraits, sizeof, tx_id_offset, load_tx_id}

abbrev pub ack_cmd : ℕ
ack_cmd = 0x6ff0

unfoldable pub is_telemetry_cmd : ℕ → Bool
is_telemetry_cmd cmd_id = leb 0x6000 cmd_id && leb cmd_id 0x60ff

unfoldable pub is_request_cmd : ℕ → Bool
is_request_cmd cmd_id = bit_and cmd_id 1 == 1 || (leb 0x6300 cmd_id && ltb cmd_id 0x6400)

-- `const bool is_reliable = (cmd_id < 0x6300);`
abbrev pub is_reliable : ℕ → Bool
is_reliable cmd_id = ltb cmd_id 0x6300

-- The first packet type of the command and the size decides; 0 stands for no id.
unfoldable pub extract_tx_id_from_raw : List PacketTraits → ℕ → List ℕ → ℕ
extract_tx_id_from_raw [] cmd_id bytes = 0
extract_tx_id_from_raw (t ∷ types) cmd_id bytes =
    let rest = extract_tx_id_from_raw types cmd_id bytes in
    if t.cmd == cmd_id && length bytes == sizeof t.layout
    then elim (tx_id_offset t.layout) [ none ↦ 0 | some k ↦ load_tx_id k bytes ]
    else rest
