-- ===== src/Tests/Queues.antt =====
-- Runs of the transmit queue of include/ProtocolStack.hpp and of the packet tables.
use florid_usb_protocols.Prelude.{
  ℕ, ◌+◌, ◌≡◌, refl, true, false, not, ◌&&◌, ◌||◌, some, List, [], ◌∷◌, ◌++◌, arith, length, leb,
  ltb, replicate, if◌then◌else◌,
}
use florid_usb_protocols.Packet.{to_bytes, sizeof, bit_size}
use florid_usb_protocols.Packet.Region.{is_telemetry_cmd, extract_tx_id_from_raw}
use florid_usb_protocols.Packet.Exchange.{
  all_types, is_exchange, exchanges_classified, extract_tx_id-to_bytes,
}
use florid_usb_protocols.Packet.Traits.{
  set_mit_limit_request_packet_traits, set_mit_limit_response_packet_traits,
}
use florid_usb_protocols.TxQueue.{
  TxEntry, tx_entry, max_frame_size, tx_queue_cap, is_telemetry_frame, enqueue_pending_frame,
  enqueue_prebuilt_frame,
}
use florid_usb_protocols.TxQueue.Bounds.{
  reliable, has_telemetry, enqueue_pending_frame_keeps, enqueue_prebuilt_frame_taken,
  enqueue_prebuilt_frame_keeps,
}

abbrev small : List ℕ
small = 165 ∷ 1 ∷ 2 ∷ []

abbrev command : TxEntry
command = record { frame = small; len = 3; telemetry = false }

abbrev status : TxEntry
status = record { frame = small; len = 3; telemetry = true }

-- A full queue with one telemetry entry.
abbrev full_queue : List TxEntry
full_queue = command ∷ status ∷ replicate 14 command

abbrev none_waiting : List TxEntry
none_waiting = command ∷ []

enqueue_pending_frame_keeps_example :
    let (done, q) = enqueue_pending_frame full_queue 0x6103 (some small) in
    (done ≡ (ltb (length full_queue) tx_queue_cap || has_telemetry full_queue))
    × (reliable q
        ≡ reliable full_queue
          ++ (if done && not (is_telemetry_cmd 0x6103)
              then tx_entry small (is_telemetry_cmd 0x6103) ∷ []
              else []))
enqueue_pending_frame_keeps_example = enqueue_pending_frame_keeps full_queue 0x6103 small

enqueue_prebuilt_frame_taken_example : (enqueue_prebuilt_frame full_queue small false).0 ≡ (
    leb (length small) max_frame_size
    && (ltb (length full_queue) tx_queue_cap || (false || is_telemetry_frame small)))
enqueue_prebuilt_frame_taken_example = enqueue_prebuilt_frame_taken full_queue small false

enqueue_prebuilt_frame_keeps_example :
    let (done, q) = enqueue_prebuilt_frame full_queue small true in
    reliable q
    ≡ reliable full_queue
      ++ (if done && not (is_telemetry_frame small)
          then tx_entry small (is_telemetry_frame small) ∷ []
          else [])
enqueue_prebuilt_frame_keeps_example = enqueue_prebuilt_frame_keeps full_queue small true refl

exchanges_classified_example :
    is_exchange (set_mit_limit_request_packet_traits, set_mit_limit_response_packet_traits) ≡ true
exchanges_classified_example =
    exchanges_classified 0 set_mit_limit_request_packet_traits set_mit_limit_response_packet_traits
      refl

abbrev payload : List ℕ
payload = replicate 9 7

abbrev answer : List ℕ
answer = 0 ∷ []

payload_fits : length payload + 4 ≡ sizeof set_mit_limit_request_packet_traits.layout
unfolding sizeof bit_size
payload_fits = refl

answer_fits : length answer + 4 ≡ sizeof set_mit_limit_response_packet_traits.layout
unfolding sizeof bit_size
answer_fits = refl

extract_tx_id-to_bytes_example :
    (extract_tx_id_from_raw all_types set_mit_limit_request_packet_traits.cmd
        (to_bytes 4 70000 ++ payload)
      ≡ 70000)
    × (extract_tx_id_from_raw all_types set_mit_limit_response_packet_traits.cmd
          (to_bytes 4 70000 ++ answer)
        ≡ 70000)
extract_tx_id-to_bytes_example =
    extract_tx_id-to_bytes 0 set_mit_limit_request_packet_traits
      set_mit_limit_response_packet_traits 70000 payload answer refl (omega arith) payload_fits
      answer_fits
