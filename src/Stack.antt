-- ===== src/Stack.antt =====
-- include/ProtocolStack.hpp: the state of the stack, what it sends, and what it answers; Stack/Cycle has
-- the packets that come in and the cycle. A std::function is a number; what the application does
-- when it is called is the record `App`.
pub mod Cycle
pub mod Invariant
pub mod Outbound
pub mod Drain
pub mod Requests
pub mod Serving
pub mod Replaying
pub mod Quiet
pub mod Receive
pub mod Told
pub mod Calls
pub mod Run
use florid_usb_protocols.Prelude.{
  ℕ, zero, suc, ◌+◌, Bool, true, false, not, ◌&&◌, Option, none, some, List, [], ◌∷◌, ◌++◌, length,
  take, ltb, leb, ◌==◌, if◌then◌else◌,
}
use florid_usb_protocols.Platform.{Platform}
use florid_usb_protocols.Rpl.{Rpl}
use florid_usb_protocols.IsrRing.{IsrRing, available, write, read, dropped_writes}
use florid_usb_protocols.IsrRing as Ring
use florid_usb_protocols.Packet.{PacketTraits, sizeof, to_bytes, load_tx_id}
use florid_usb_protocols.Packet.Traits.{ack_packet_traits}
use florid_usb_protocols.Packet.Region.{
  ack_cmd, is_request_cmd, is_reliable, extract_tx_id_from_raw,
}
use florid_usb_protocols.TxQueue.{
  TxEntry, max_frame_size, frame_of, enqueue_pending_frame, enqueue_prebuilt_frame,
}
use florid_usb_protocols.Session.Entry.{Event, RequestResult, RetransmitEntry, packet_of}
use florid_usb_protocols.Session.{
  Config, Session, init, next_tx_id, register_pending, on_ack, on_response, next_outbound,
  next_deadline,
}
use florid_usb_protocols.Session.Device.{on_request, cache_response}
use florid_usb_protocols.Session.Poll.{poll}

-- `ISRRingBuffer<4096>`
abbrev pub rx_ring_bits : ℕ
rx_ring_bits = 12

-- A call of a RequestHandler, or of a callback of the session.
pub data Call : Type 0 where
  handled : (handler cmd_id tx_id : ℕ) (bytes : List ℕ) → Call
  called_back : Event → Call

-- The sizes of `Config` that no code reads are left out. `calls` is no member of the source: it
-- lists what the stack has called of the application, the oldest first.
pub record Stack (P : Platform) (R : Rpl) : Type 0 where
  pub poll_interval : ℕ
  pub session : Session P
  pub parser : R.Parser
  pub rx_ring : IsrRing
  pub tx_queue : List TxEntry
  pub send_frame : Option ℕ
  pub handlers : P.Map (Option ℕ)
  pub calls : List Call

-- What the application does when a RequestHandler, or a callback of the session, is called.
pub record App (P : Platform) (R : Rpl) : Type 0 where
  pub request_handler : (handler cmd_id tx_id : ℕ) → List ℕ → Stack P R → Stack P R
  pub session_callback : Event → Stack P R → Stack P R

module _ (P : Platform) (R : Rpl) where
  abbrev pub noted : Call → Stack P R → Stack P R
  noted c s = record s { calls = s.calls ++ (c ∷ []) }

  unfoldable pub init_stack : Config → ℕ → Stack P R
  init_stack c poll_interval = record {
    poll_interval = poll_interval;
    session = init P c;
    parser = R.parser;
    rx_ring = Ring.cleared P.size_bits rx_ring_bits;
    tx_queue = [];
    send_frame = none;
    handlers = P.empty (Option ℕ);
    calls = [];
  }

  unfoldable pub set_send_frame : Stack P R → Option ℕ → Stack P R
  set_send_frame s fn = record s { send_frame = fn }

  unfoldable pub register_handler : Stack P R → ℕ → Option ℕ → Stack P R
  register_handler s cmd_id handler = record s {
    handlers = P.insert_or_assign (Option ℕ) cmd_id handler s.handlers;
  }

  unfoldable pub isr_feed : Stack P R → List ℕ → Stack P R
  isr_feed s bytes = record s { rx_ring = (write P.size_bits rx_ring_bits s.rx_ring bytes).1 }

  -- `payload` holds the bytes of the payload, which stand behind the transaction id.
  unfoldable pub send :
      Stack P R
      → (request response : PacketTraits) (payload : List ℕ)
      → (on_response on_error : Option ℕ) (timeout max_retries now : ℕ) → ℕ × Stack P R
  send s request response payload on_response on_error timeout max_retries now =
      let (tx_id, session) = next_tx_id P s.session in
      (
        tx_id,
        record s {
          session =
              register_pending P session tx_id request.cmd response.cmd
                (to_bytes 4 tx_id ++ payload) on_response on_error timeout max_retries now;
        },
      )

  unfoldable pub send_response_and_cache :
      Stack P R → (request response : PacketTraits) (tx_id : ℕ) (bytes : List ℕ) → Bool × Stack P R
  send_response_and_cache s request response tx_id bytes =
      elim (R.serialize max_frame_size response bytes) [
        | none ↦ (false, s)
        | some frame ↦
            let (done, queue) = enqueue_prebuilt_frame s.tx_queue frame true in
            if done
            then (
              true,
              record s {
                tx_queue = queue;
                session = cache_response P s.session request.cmd tx_id response.cmd frame;
              },
            )
            else (false, record s { tx_queue = queue })
      ]

  pub broadcast : Stack P R → PacketTraits → List ℕ → Bool × Stack P R
  broadcast s t bytes = elim (R.serialize max_frame_size t bytes) [
    | none ↦ (false, s)
    | some frame ↦
        let (done, queue) = enqueue_prebuilt_frame s.tx_queue frame false in
        (done, record s { tx_queue = queue })
  ]

  -- `accepted` is what the transport answers; the frame that it is given comes first.
  pub drain_tx : Stack P R → Bool → Option (List ℕ) × Stack P R
  drain_tx s accepted = elim s.send_frame [
    | none ↦ (none, s)
    | some fn ↦ elim s.tx_queue [
      | [] ↦ (none, s)
      | entry ∷ rest ↦ (some (frame_of entry), if accepted then record s { tx_queue = rest } else s)
    ]
  ]

  unfoldable pub next_wake_time : Stack P R → Option ℕ
  next_wake_time s = next_deadline P s.session

  pub rx_available : Stack P R → ℕ
  rx_available s = available P.size_bits rx_ring_bits s.rx_ring

  unfoldable pub rx_dropped_writes : Stack P R → ℕ
  rx_dropped_writes s = dropped_writes P.size_bits rx_ring_bits s.rx_ring

  unfoldable pub tx_queue_size : Stack P R → ℕ
  tx_queue_size s = length s.tx_queue
