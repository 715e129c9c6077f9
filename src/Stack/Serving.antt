-- ===== src/Stack/Serving.antt =====
-- What include/ProtocolStack.hpp does with a request that it has not seen before.
use florid_usb_protocols.Prelude.{
  ℕ, ◌≤◌, ◌<◌, ◌≡◌, refl, true, false, some, List, [], ◌∷◌, ◌++◌, arith, ltb, leb, ==_ne, length,
  Option,
}
use florid_usb_protocols.Platform.{Platform}
use florid_usb_protocols.Rpl.{Rpl}
use florid_usb_protocols.Packet.{PacketTraits, to_bytes}
use florid_usb_protocols.Packet.Traits.{ack_packet_traits}
use florid_usb_protocols.Packet.Region.{extract_tx_id_from_raw}
use florid_usb_protocols.TxQueue.{
  max_frame_size, tx_queue_cap, TxEntry, tx_entry, is_telemetry_frame, enqueue_prebuilt_frame,
}
use florid_usb_protocols.Session.Device.{on_request, cache_response}
use florid_usb_protocols.Stack.{Stack, App, noted, handled, send_response_and_cache}
use florid_usb_protocols.Stack.Cycle.{handle_packet_internal, enqueue_ack, run_handler}
use florid_usb_protocols.Stack.Requests.{IsReliableRequest}

-- The entry of a frame that `enqueue_prebuilt_frame` appends.
abbrev pub prebuilt : List ℕ → TxEntry
prebuilt frame = tx_entry frame (is_telemetry_frame frame)

pub enqueue_prebuilt_frame_room :
    (q : List TxEntry) (frame : List ℕ)
    → length frame ≤ max_frame_size
    → length q < tx_queue_cap
    → enqueue_prebuilt_frame q frame true ≡ (true, q ++ (prebuilt frame ∷ []))
unfolding enqueue_prebuilt_frame
enqueue_prebuilt_frame_room q frame fits room =
    let short : ltb max_frame_size (length frame) ≡ false = ground (arith, fits) in
    let free : leb tx_queue_cap (length q) ≡ false = ground (arith, room) in rw (short, free) refl

-- The bytes of the acknowledgement of a request.
abbrev pub ack_bytes : (cmd_id tx_id : ℕ) → List ℕ
ack_bytes cmd_id tx_id = to_bytes 4 tx_id ++ to_bytes 2 cmd_id ++ (0 ∷ [])

module _ (P : Platform) (R : Rpl) (types : List PacketTraits) (app : App P R) where
  pub enqueue_ack_room :
      (cmd tx : ℕ) (frame : List ℕ) (s : Stack P R)
      → R.serialize max_frame_size ack_packet_traits (ack_bytes cmd tx) ≡ some frame
      → length frame ≤ max_frame_size
      → length s.tx_queue < tx_queue_cap
      → enqueue_ack P R types app cmd tx s
        ≡ record s { tx_queue = s.tx_queue ++ (prebuilt frame ∷ []) }
  unfolding enqueue_ack
  enqueue_ack_room cmd tx frame s made fits room =
      rw (made, enqueue_ack, enqueue_prebuilt_frame_room s.tx_queue frame fits room) refl

  pub request_handled :
      (now cmd tx handler : ℕ) (bytes : List ℕ) (s : Stack P R)
      → IsReliableRequest cmd
      → extract_tx_id_from_raw types cmd bytes ≡ tx
      → 0 < tx
      → (on_request P s.session cmd tx).0.is_duplicate ≡ false
      → P.find
          (Option ℕ)
          cmd
          (enqueue_ack P R types app cmd tx
            (record s { session = (on_request P s.session cmd tx).1 })).handlers
        ≡ some (some handler)
      → handle_packet_internal P R types app now cmd bytes s
        ≡ app.request_handler handler cmd tx bytes (
            noted P R (handled handler cmd tx bytes) (
              enqueue_ack P R types app cmd tx
                (record s { session = (on_request P s.session cmd tx).1 })))
  unfolding handle_packet_internal
  request_handled now cmd tx handler bytes s k e pos new found =
      rw (k.2, k.0, k.1, e, ==_ne tx 0 (ground arith), new) (rw (run_handler, found) refl)

module _ (P : Platform) (R : Rpl) where
  pub send_response_and_cache_room :
      (s : Stack P R) (req rsp : PacketTraits) (tx : ℕ) (bytes frame : List ℕ)
      → R.serialize max_frame_size rsp bytes ≡ some frame
      → length frame ≤ max_frame_size
      → length s.tx_queue < tx_queue_cap
      → send_response_and_cache P R s req rsp tx bytes ≡ (
        true,
        record s {
          tx_queue = s.tx_queue ++ (prebuilt frame ∷ []);
          session = cache_response P s.session req.cmd tx rsp.cmd frame;
        },
      )
  unfolding send_response_and_cache
  send_response_and_cache_room s req rsp tx bytes frame made fits room =
      rw (made, send_response_and_cache, enqueue_prebuilt_frame_room s.tx_queue frame fits room)
        refl
