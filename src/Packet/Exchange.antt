-- ===== src/Packet/Exchange.antt =====
-- The tables of include/ArmCommand.hpp and include/ArmStatus.hpp against the classification in
-- include/ProtocolStack.hpp: requests, their responses, and the transaction ids in their bytes.
use native.Mathlib.Nat.{div-add-mod'}
use florid_usb_protocols.Prelude.{
  ℕ, zero, suc, ◌+◌, ◌/◌, ◌^◌, ◌<◌, ◌≡◌, refl, ap, ◌∙◌, Bool, true, false, not, ◌&&◌, Option, none,
  some, List, [], ◌∷◌, ◌++◌, arith, leb, ◌==◌, length, get_elem?, if◌then◌else◌, length-append,
}
use florid_usb_protocols.Packet.{
  PacketTraits, sizeof, bit_size, offset, tx_id_offset, load_tx_id, from_bytes, to_bytes,
}
use florid_usb_protocols.Packet.Traits.{
  exchanges, telemetry, commands, ack_packet_traits, motor_feedback_array_traits,
}
use florid_usb_protocols.Packet.Region.{
  ack_cmd, is_telemetry_cmd, is_request_cmd, is_reliable, extract_tx_id_from_raw,
}

abbrev pairs : List (PacketTraits × PacketTraits) → List PacketTraits
pairs [] = []
pairs ((req, rsp) ∷ rest) = req ∷ rsp ∷ pairs rest

-- Every packet type of the two headers.
abbrev pub all_types : List PacketTraits
all_types = ack_packet_traits ∷ telemetry ++ (commands ++ pairs exchanges)

-- Whether a test holds of every entry of a list.
abbrev holds_of {ℓ} : {A : Type ℓ} → (A → Bool) → List A → Bool
holds_of p [] = true
holds_of p (x ∷ xs) = p x && holds_of p xs

holds_of_lem {ℓ} :
    {A : Type ℓ} (p : A → Bool) (xs : List A) (i : ℕ) (x : A)
    → holds_of p xs ≡ true
    → get_elem? xs i ≡ some x
    → p x ≡ true
holds_of_lem p [] i x h e = cc
holds_of_lem p (y ∷ xs) zero x h e = ground (arith, h, e)
holds_of_lem p (y ∷ xs) (suc i) x h e = holds_of_lem p xs i x (ground (arith, h)) e

from_bytes-to_bytes : (n x : ℕ) → x < 256 ^ n → from_bytes (to_bytes n x) ≡ x
unfolding from_bytes to_bytes
from_bytes-to_bytes zero x h = omega arith
from_bytes-to_bytes (suc n) x h =
    omega (arith, from_bytes-to_bytes n (x / 256) (omega arith), div-add-mod' x 256)

pub length-to_bytes : (n x : ℕ) → length (to_bytes n x) ≡ n
unfolding to_bytes
length-to_bytes zero x = refl
length-to_bytes (suc n) x = ap suc (length-to_bytes n (x / 256))

-- The transaction id that is written in front of a payload is the one that is read.
pub load_tx_id-to_bytes :
    (tx : ℕ) (payload : List ℕ) → tx < 2 ^ 32 → load_tx_id 0 (to_bytes 4 tx ++ payload) ≡ tx
unfolding load_tx_id to_bytes
load_tx_id-to_bytes tx payload h = unfold to_bytes in from_bytes-to_bytes 4 tx (omega arith)

-- A request and its response: the response has the next command; the request is taken for one, for
-- a reliable one, and the response is not; neither is an acknowledgement or telemetry; and the
-- request fits the buffer of a pending entry.
abbrev pub is_exchange : PacketTraits × PacketTraits → Bool
is_exchange (req, rsp) =
    rsp.cmd == req.cmd + 1
    && (is_request_cmd req.cmd && is_reliable req.cmd && not (is_request_cmd rsp.cmd))
    && (not (req.cmd == ack_cmd) && not (rsp.cmd == ack_cmd))
    && (not (is_telemetry_cmd req.cmd) && not (is_telemetry_cmd rsp.cmd))
    && leb req.size 256

-- For every request of the packet tables and its response: the response has the next command; the
-- request is taken for a reliable request, the response for none; neither is taken for an
-- acknowledgement or for telemetry; and the request fits the buffer of a pending entry.
pub exchanges_classified :
    (i : ℕ) (req rsp : PacketTraits)
    → get_elem? exchanges i ≡ some (req, rsp)
    → is_exchange (req, rsp) ≡ true
unfolding is_request_cmd is_telemetry_cmd sizeof bit_size
exchanges_classified i req rsp h = holds_of_lem is_exchange exchanges i (req, rsp) refl h

-- The first type of the command and the size, which decides where the id stands.
abbrev first_type : List PacketTraits → ℕ → ℕ → Option PacketTraits
first_type [] cmd size = none
first_type (t ∷ ts) cmd size =
    let rest = first_type ts cmd size in
    if t.cmd == cmd && size == sizeof t.layout then some t else rest

extract_first :
    (types : List PacketTraits) (cmd : ℕ) (bytes : List ℕ)
    → extract_tx_id_from_raw types cmd bytes ≡ elim (first_type types cmd (length bytes)) [
      | none ↦ 0
      | some t ↦ elim (tx_id_offset t.layout) [ none ↦ 0 | some k ↦ load_tx_id k bytes ]
    ]
unfolding extract_tx_id_from_raw
extract_first [] cmd bytes = refl
extract_first (t ∷ ts) cmd bytes = ground (arith, extract_first ts cmd bytes)

-- Whether the id of a packet is read from its first bytes.
abbrev pub id_first : List PacketTraits → PacketTraits → Bool
id_first types t = elim (first_type types t.cmd (sizeof t.layout)) [
  | none ↦ false
  | some u ↦ elim (tx_id_offset u.layout) [ none ↦ false | some k ↦ k == 0 ]
]

abbrev ids_first : PacketTraits × PacketTraits → Bool
ids_first (req, rsp) = id_first all_types req && id_first all_types rsp

pub id_first_lem :
    (types : List PacketTraits) (t : PacketTraits) (tx : ℕ) (payload : List ℕ)
    → id_first types t ≡ true
    → tx < 2 ^ 32
    → length payload + 4 ≡ sizeof t.layout
    → extract_tx_id_from_raw types t.cmd (to_bytes 4 tx ++ payload) ≡ tx
id_first_lem types t tx payload h small size =
    extract_first types t.cmd (to_bytes 4 tx ++ payload)
    ∙ ap
        (λ n. elim (first_type types t.cmd n) [
          | none ↦ 0
          | some u ↦ elim (tx_id_offset u.layout) [
            | none ↦ 0
            | some k ↦ load_tx_id k (to_bytes 4 tx ++ payload)
          ]
        ])
        whole
    ∙ go (first_type types t.cmd (sizeof t.layout)) h
  where
    whole : length (to_bytes 4 tx ++ payload) ≡ sizeof t.layout
    whole = omega (arith, length-append (to_bytes 4 tx) payload, length-to_bytes 4 tx, size)

    at :
        (o : Option ℕ)
        → (elim o [ none ↦ false | some k ↦ k == 0 ]) ≡ true
        → (elim o [ none ↦ 0 | some k ↦ load_tx_id k (to_bytes 4 tx ++ payload) ]) ≡ tx
    at none g = cc
    at (some zero) g = load_tx_id-to_bytes tx payload small
    at (some (suc k)) g = ground arith

    go :
        (o : Option PacketTraits)
        → (elim o [
          | none ↦ false
          | some u ↦ elim (tx_id_offset u.layout) [ none ↦ false | some k ↦ k == 0 ]
        ])
          ≡ true
        → (elim o [
          | none ↦ 0
          | some u ↦ elim (tx_id_offset u.layout) [
            | none ↦ 0
            | some k ↦ load_tx_id k (to_bytes 4 tx ++ payload)
          ]
        ])
          ≡ tx
    go none g = cc
    go (some u) g = at (tx_id_offset u.layout) g

-- Of every request and response of the packet tables, with a 32-bit transaction id in front of a
-- payload of the right length, the stack for all packet types reads that transaction id.
pub extract_tx_id-to_bytes :
    (i : ℕ) (req rsp : PacketTraits) (tx : ℕ) (payload answer : List ℕ)
    → get_elem? exchanges i ≡ some (req, rsp)
    → tx < 2 ^ 32
    → length payload + 4 ≡ sizeof req.layout
    → length answer + 4 ≡ sizeof rsp.layout
    → (extract_tx_id_from_raw all_types req.cmd (to_bytes 4 tx ++ payload) ≡ tx)
      × (extract_tx_id_from_raw all_types rsp.cmd (to_bytes 4 tx ++ answer) ≡ tx)
unfolding sizeof bit_size tx_id_offset offset
extract_tx_id-to_bytes i req rsp tx payload answer h small p a = (
  id_first_lem all_types req tx payload (ground (arith, both)) small p,
  id_first_lem all_types rsp tx answer (ground (arith, both)) small a,
)
  where
    both : ids_first (req, rsp) ≡ true
    both = holds_of_lem ids_first exchanges i (req, rsp) refl h

-- Telemetry of the command 0x6002 has no transaction id.
pub extract_tx_id_motor_feedback :
    (bytes : List ℕ) → extract_tx_id_from_raw all_types motor_feedback_array_traits.cmd bytes ≡ 0
unfolding extract_tx_id_from_raw tx_id_offset offset
extract_tx_id_motor_feedback bytes = ground arith
