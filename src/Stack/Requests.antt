-- ===== src/Stack/Requests.antt =====
-- What include/ProtocolStack.hpp does with a request that it has seen before, and with packets that
-- have no transaction id.
use florid_usb_protocols.Prelude.{
  ℕ, ◌≤◌, ◌<◌, ◌≡◌, refl, true, false, some, List, arith, ltb, ◌==◌, length, ==_ne,
}
use florid_usb_protocols.Platform.{Platform}
use florid_usb_protocols.Rpl.{Rpl}
use florid_usb_protocols.Packet.{PacketTraits}
use florid_usb_protocols.Packet.Traits.{motor_feedback_array_traits}
use florid_usb_protocols.Packet.Region.{
  ack_cmd, is_request_cmd, is_reliable, extract_tx_id_from_raw,
}
use florid_usb_protocols.Packet.Exchange.{all_types, extract_tx_id_motor_feedback}
use florid_usb_protocols.TxQueue.{enqueue_prebuilt_frame}
use florid_usb_protocols.Session.Answer.{stored_whole}
use florid_usb_protocols.Session.Entry.{store_packet, stored_len, RequestResult}
use florid_usb_protocols.Session.Device.{on_request}
use florid_usb_protocols.Stack.{Stack, App}
use florid_usb_protocols.Stack.Cycle.{handle_packet_internal, replay, enqueue_ack}

-- A command that the device takes for a reliable request.
abbrev pub IsReliableRequest : ℕ → Type 0
IsReliableRequest cmd =
    (is_request_cmd cmd ≡ true) × (is_reliable cmd ≡ true) × ((cmd == ack_cmd) ≡ false)

abbrev pub cached : ℕ → List ℕ → RequestResult
cached rsp frame = record {
  should_ack = true;
  is_duplicate = true;
  cached_response_data = some (store_packet frame);
  cached_response_len = stored_len frame;
  cached_response_cmd = rsp;
}

module _ (P : Platform) (R : Rpl) (types : List PacketTraits) (app : App P R) where
  replay-cached :
      (rsp : ℕ) (frame : List ℕ) (t : Stack P R)
      → 0 < length frame
      → length frame ≤ 256
      → replay P R types app (cached rsp frame) t
        ≡ record t { tx_queue = (enqueue_prebuilt_frame t.tx_queue frame true).1 }
  unfolding replay
  replay-cached rsp frame t some_bytes fits =
      rw
        (
          let e : ltb 0 (stored_len frame) ≡ true = ground arith in e,
          stored_whole frame fits,
          replay,
        )
        refl

  -- A repeated reliable request that has a transaction id, and whose response of 1 to 256 bytes is
  -- what the session finds in its cache, runs no handler: the stack acknowledges it and sends the
  -- frame of the cached response once more, byte for byte, and does nothing else.
  pub duplicate_replayed :
      (now cmd tx rsp : ℕ) (bytes frame : List ℕ) (s : Stack P R)
      → IsReliableRequest cmd
      → extract_tx_id_from_raw types cmd bytes ≡ tx
      → 0 < tx
      → (on_request P s.session cmd tx).0 ≡ cached rsp frame
      → 0 < length frame
      → length frame ≤ 256
      → let acked =
          enqueue_ack P R types app cmd tx
            (record s { session = (on_request P s.session cmd tx).1 }) in
        handle_packet_internal P R types app now cmd bytes s
        ≡ record acked { tx_queue = (enqueue_prebuilt_frame acked.tx_queue frame true).1 }
  unfolding handle_packet_internal
  duplicate_replayed now cmd tx rsp bytes frame s k e pos c some_bytes fits =
      rw (k.2, k.0, k.1, e, ==_ne tx 0 (ground arith), c)
        (replay-cached rsp frame _ some_bytes fits)

  -- A packet that is no request, and has no transaction id, changes nothing.
  pub unanswerable_ignored :
      (now cmd : ℕ) (bytes : List ℕ) (s : Stack P R)
      → (cmd == ack_cmd) ≡ false
      → is_request_cmd cmd ≡ false
      → extract_tx_id_from_raw types cmd bytes ≡ 0
      → handle_packet_internal P R types app now cmd bytes s ≡ s
  unfolding handle_packet_internal
  unanswerable_ignored now cmd bytes s a r e = ground (arith, a, r, e)

module _ (P : Platform) (R : Rpl) (app : App P R) where
  -- In a stack for all packet types, a packet with the command of the motor feedback changes
  -- nothing, whatever its bytes and whatever handler is registered for it.
  pub motor_feedback_ignored :
      (now : ℕ) (bytes : List ℕ) (s : Stack P R)
      → handle_packet_internal P R all_types app now motor_feedback_array_traits.cmd bytes s ≡ s
  unfolding is_request_cmd
  motor_feedback_ignored now bytes s =
      unanswerable_ignored P R all_types app now motor_feedback_array_traits.cmd bytes s refl refl
        (extract_tx_id_motor_feedback bytes)
