-- ===== src/TxQueue.antt =====
-- The transmit queue of include/ProtocolStack.hpp, `m_tx_queue`, and what is dropped when it is full.
pub mod Bounds
use florid_usb_protocols.Prelude.{
  ℕ, ◌-◌, ◌*◌, ◌^◌, bit_or, Bool, true, false, ◌||◌, Option, none, some, List, [], ◌∷◌, ◌++◌,
  length, get_or, take, replicate, ltb, leb, if◌then◌else◌,
}
use florid_usb_protocols.Packet.Region.{is_telemetry_cmd}

abbrev pub max_frame_size : ℕ
max_frame_size = 512

abbrev pub tx_queue_cap : ℕ
tx_queue_cap = 16

pub record TxEntry : Type 0 where
  pub frame : List ℕ
  pub len : ℕ
  pub telemetry : Bool

-- `TxEntry entry{}` with memcpy of a frame into its array.
abbrev pub tx_entry : List ℕ → Bool → TxEntry
tx_entry frame telemetry = record {
  frame = frame ++ replicate (max_frame_size - length frame) 0;
  len = length frame;
  telemetry = telemetry;
}

-- The `len` bytes that the transport gets.
abbrev pub frame_of : TxEntry → List ℕ
frame_of e = take e.len e.frame

-- The command stands in bytes 5 and 6 of a frame.
unfoldable pub is_telemetry_frame : List ℕ → Bool
is_telemetry_frame frame =
    if ltb (length frame) 7
    then false
    else is_telemetry_cmd (bit_or (get_or frame 5 0) (get_or frame 6 0 * 2 ^ 8))

pub drop_one_telemetry : List TxEntry → Bool × List TxEntry
drop_one_telemetry [] = (false, [])
drop_one_telemetry (x ∷ q) =
    let (found, rest) = drop_one_telemetry q in if x.telemetry then (true, q) else (found, x ∷ rest)

-- `m_tx_queue.pop_back()`
pub pop_back : List TxEntry → List TxEntry
pop_back [] = []
pop_back (x ∷ []) = []
pop_back (x ∷ y ∷ q) = x ∷ pop_back (y ∷ q)

-- `frame` is what `serialize_raw_to_frame` makes of the packet, which the code asks for only once
-- there is room.
unfoldable pub enqueue_pending_frame : List TxEntry → ℕ → Option (List ℕ) → Bool × List TxEntry
unfolding drop_one_telemetry
enqueue_pending_frame q cmd_id frame =
    let full = leb tx_queue_cap (length q) in
    let (found, q') = if full then drop_one_telemetry q else (true, q) in
    if found
    then elim frame [
      | none ↦ (false, q')
      | some f ↦ (true, q' ++ (tx_entry f (is_telemetry_cmd cmd_id) ∷ []))
    ]
    else (false, q)

-- `frame` holds the `len` bytes behind the pointer.
unfoldable pub enqueue_prebuilt_frame : List TxEntry → List ℕ → Bool → Bool × List TxEntry
unfolding drop_one_telemetry pop_back
enqueue_prebuilt_frame q frame priority =
    let telemetry = is_telemetry_frame frame in
    let entry = tx_entry frame telemetry in
    let (found, q') = drop_one_telemetry q in
    if ltb max_frame_size (length frame)
    then (false, q)
    else if leb tx_queue_cap (length q)
    then if priority || telemetry
      then (true, (if found then q' else pop_back q) ++ (entry ∷ []))
      else (false, q)
    else (true, q ++ (entry ∷ []))
