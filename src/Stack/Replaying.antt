-- ===== src/Stack/Replaying.antt =====
-- What include/ProtocolStack.hpp sends for a request whose response it has kept.
use florid_usb_protocols.Prelude.{
  ℕ, ◌+◌, ◌≤◌, ◌<◌, ◌≡◌, ap, ap₂, ◌∙◌, true, Bool, some, List, [], ◌∷◌, ◌++◌, arith, length,
  length-append, append_assoc,
}
use florid_usb_protocols.Prelude.Eq.{nat_regular}
use florid_usb_protocols.Platform.{Platform}
use florid_usb_protocols.Rpl.{Rpl}
use florid_usb_protocols.IdRing.{compose_dedup_key, test_and_insert, seen_id_ring_bits}
use florid_usb_protocols.Packet.{PacketTraits}
use florid_usb_protocols.Packet.Traits.{ack_packet_traits}
use florid_usb_protocols.Packet.Region.{extract_tx_id_from_raw}
use florid_usb_protocols.TxQueue.{max_frame_size, tx_queue_cap, TxEntry, enqueue_prebuilt_frame}
use florid_usb_protocols.Session.{Session}
use florid_usb_protocols.Session.Entry.{CompletedResponse, completed_response}
use florid_usb_protocols.Session.Device.{on_request}
use florid_usb_protocols.Session.Device.Replay.{
  on_request_cached, on_request_seen, is_duplicate-on_request,
}
use florid_usb_protocols.Stack.{Stack, App}
use florid_usb_protocols.Stack.Cycle.{handle_packet_internal}
use florid_usb_protocols.Stack.Requests.{IsReliableRequest, duplicate_replayed}
use florid_usb_protocols.Stack.Serving.{
  prebuilt, ack_bytes, enqueue_ack_room, enqueue_prebuilt_frame_room,
}

module _ (P : Platform) (R : Rpl) (types : List PacketTraits) (app : App P R) where
  -- When a reliable request with a transaction id comes in, whose key is among the requests seen
  -- and whose response frame, of 1 to 256 bytes, is in the cache, and an acknowledgement of it can
  -- be made and the transmit queue has room for two frames: the stack appends the frame of the
  -- acknowledgement and then the frame of the response, byte for byte, to the transmit queue, calls
  -- no handler, and changes nothing else.
  pub duplicate_resent :
      (now cmd tx rsp : ℕ) (bytes frame ack : List ℕ) (s : Stack P R)
      → IsReliableRequest cmd
      → extract_tx_id_from_raw types cmd bytes ≡ tx
      → 0 < tx
      → (test_and_insert P.size_bits seen_id_ring_bits s.session.seen_requests
          (compose_dedup_key cmd tx)).0
        ≡ true
      → P.find CompletedResponse (compose_dedup_key cmd tx) s.session.completed_cache
        ≡ some (completed_response rsp frame)
      → 0 < length frame
      → length frame ≤ 256
      → R.serialize max_frame_size ack_packet_traits (ack_bytes cmd tx) ≡ some ack
      → length ack ≤ max_frame_size
      → length s.tx_queue + 2 ≤ tx_queue_cap
      → handle_packet_internal P R types app now cmd bytes s
        ≡ record s { tx_queue = s.tx_queue ++ (prebuilt ack ∷ prebuilt frame ∷ []) }
  duplicate_resent now cmd tx rsp bytes frame ack s reliable id pos seen found some_bytes fits made
        small room =
      let same : (on_request P s.session cmd tx).1 ≡ s.session =
        on_request_seen P s.session cmd tx (is_duplicate-on_request P s.session cmd tx ∙ seen) in
      let asked = record s { session = (on_request P s.session cmd tx).1 } in
      let acked = record asked { tx_queue = s.tx_queue ++ (prebuilt ack ∷ []) } in
      let answer : Stack P R → Stack P R =
        λ a. record a { tx_queue = (enqueue_prebuilt_frame a.tx_queue frame true).1 } in
      let queued : Bool × List TxEntry → Stack P R = λ q. record acked { tx_queue = q.1 } in
      duplicate_replayed P R types app now cmd tx rsp bytes frame s reliable id pos
        (on_request_cached P s.session cmd tx (completed_response rsp frame) seen found) some_bytes
        fits
      ∙ ap answer (enqueue_ack_room P R types app cmd tx ack asked made small (omega (arith, room)))
      ∙ ap queued (
          enqueue_prebuilt_frame_room acked.tx_queue frame (omega (arith, fits))
            (omega (arith, room, length-append s.tx_queue (prebuilt ack ∷ []))))
      ∙ ap (λ (t : Session P × List TxEntry). record s { session = t.0; tx_queue = t.1 })
          (ap₂ (λ a b. (a, b)) same
            (append_assoc s.tx_queue (prebuilt ack ∷ []) (prebuilt frame ∷ [])))
