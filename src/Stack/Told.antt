-- ===== src/Stack/Told.antt =====
-- What include/ProtocolStack.hpp does with an acknowledgement, and with a response.
use florid_usb_protocols.Prelude.{
  ℕ, ◌<◌, ◌≡◌, refl, ap, true, false, List, arith, ◌==◌, ==_ne, ==_iff, length,
}
use florid_usb_protocols.Platform.{Platform}
use florid_usb_protocols.Rpl.{Rpl}
use florid_usb_protocols.Packet.{PacketTraits, sizeof, load_tx_id}
use florid_usb_protocols.Packet.Traits.{ack_packet_traits}
use florid_usb_protocols.Packet.Region.{ack_cmd, is_request_cmd, extract_tx_id_from_raw}
use florid_usb_protocols.Session.{on_ack, on_response}
use florid_usb_protocols.Stack.{Stack, App}
use florid_usb_protocols.Stack.Cycle.{
  handle_packet_internal, handle_ack_packet, handle_response_packet, call_back,
}

module _ (P : Platform) (R : Rpl) (types : List PacketTraits) (app : App P R) where
  pub ack_handled :
      (now tx : ℕ) (bytes : List ℕ) (s : Stack P R)
      → length bytes ≡ sizeof ack_packet_traits.layout
      → load_tx_id 0 bytes ≡ tx
      → handle_packet_internal P R types app now ack_cmd bytes s
        ≡ record s { session = on_ack P s.session tx now }
  unfolding handle_packet_internal handle_ack_packet
  ack_handled now tx bytes s size id =
      let sized : (length bytes == sizeof ack_packet_traits.layout) ≡ true = (==_iff _ _).1 size in
      rw (handle_ack_packet, sized) (ap (λ i. record s { session = on_ack P s.session i now }) id)

  pub response_handled :
      (now cmd tx : ℕ) (bytes : List ℕ) (s : Stack P R)
      → (cmd == ack_cmd) ≡ false
      → is_request_cmd cmd ≡ false
      → extract_tx_id_from_raw types cmd bytes ≡ tx
      → 0 < tx
      → handle_packet_internal P R types app now cmd bytes s
        ≡ call_back P R types app
            (on_response P s.session cmd tx bytes).1
            (record s { session = (on_response P s.session cmd tx bytes).0 })
  unfolding handle_packet_internal handle_response_packet
  response_handled now cmd tx bytes s other answer id pos =
      rw (other, answer, handle_response_packet, id, ==_ne tx 0 (ground arith)) refl
