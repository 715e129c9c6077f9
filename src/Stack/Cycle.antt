-- ===== src/Stack/Cycle.antt =====
-- include/ProtocolStack.hpp: the handling of the packets that come in, and the cycle of the protocol
-- task.
use florid_usb_protocols.Prelude.{
  ℕ, zero, suc, ◌+◌, ◌≡◌, Bool, true, false, not, ◌&&◌, Option, none, some, List, [], ◌∷◌, ◌++◌,
  length, take, ltb, leb, ◌==◌, if◌then◌else◌,
}
use florid_usb_protocols.Platform.{Platform}
use florid_usb_protocols.Rpl.{Rpl}
use florid_usb_protocols.IsrRing.{available, read}
use florid_usb_protocols.Packet.{PacketTraits, sizeof, to_bytes, load_tx_id}
use florid_usb_protocols.Packet.Traits.{ack_packet_traits}
use florid_usb_protocols.Packet.Region.{
  ack_cmd, is_request_cmd, is_reliable, extract_tx_id_from_raw,
}
use florid_usb_protocols.TxQueue.{max_frame_size, enqueue_pending_frame, enqueue_prebuilt_frame}
use florid_usb_protocols.Session.Entry.{Event, RequestResult, RetransmitEntry, packet_of}
use florid_usb_protocols.Session.{on_ack, on_response, next_outbound}
use florid_usb_protocols.Session.Device.{on_request}
use florid_usb_protocols.Session.Poll.{poll}
use florid_usb_protocols.Stack.{Stack, App, noted, handled, called_back, rx_ring_bits, drain_tx}

module _ (P : Platform) (R : Rpl) where
  -- `types` are the packet types of the template.
  module _ (types : List PacketTraits) where
    unfoldable pub try_serialize_raw : PacketTraits → ℕ → List ℕ → Option (List ℕ)
    try_serialize_raw t cmd_id raw =
        if t.cmd == cmd_id && length raw == sizeof t.layout
        then R.serialize max_frame_size t raw
        else none

    -- The fold over `||` ends at the first type that succeeds.
    unfoldable pub first_serialized : List PacketTraits → ℕ → List ℕ → Option (List ℕ)
    unfolding try_serialize_raw
    first_serialized [] cmd_id raw = none
    first_serialized (t ∷ ts) cmd_id raw = elim (try_serialize_raw t cmd_id raw) [
      | none ↦ first_serialized ts cmd_id raw
      | some frame ↦ some frame
    ]

    unfoldable pub serialize_raw_to_frame : ℕ → List ℕ → Option (List ℕ)
    unfolding first_serialized
    serialize_raw_to_frame cmd_id raw = first_serialized types cmd_id raw

    unfoldable pub enqueue_entry : Stack P R → RetransmitEntry → Bool × Stack P R
    unfolding serialize_raw_to_frame
    enqueue_entry s r =
        let (done, queue) =
          enqueue_pending_frame s.tx_queue r.request_cmd
            (serialize_raw_to_frame r.request_cmd (packet_of r)) in
        (done, record s { tx_queue = queue })

    -- The loop of `handle_session_outbound`; `clock i` is the reading of its round `i`.
    unfoldable pub pump_outbound : (rounds i : ℕ) → (ℕ → ℕ) → Stack P R → Stack P R
    unfolding enqueue_entry
    pump_outbound zero i clock s = s
    pump_outbound (suc n) i clock s =
        let (entry, session) = next_outbound P s.session (clock i) in
        let s' = record s { session = session } in
        elim entry [
          | none ↦ s'
          | some r ↦
              let (done, s'') = enqueue_entry s' r in
              let rest = pump_outbound n (i + 1) clock s'' in if done then rest else s''
        ]

    -- The loop as it is in the source, with no number of rounds: from the round `i` in the state `s`
    -- it ends in the state `t`, when there is no entry to send or the queue has no room for it.
    pub data OutboundRun (clock : ℕ → ℕ) : ℕ → Stack P R → Stack P R → Type 0 where
      none_left :
          {i : ℕ} {s : Stack P R}
          → (next_outbound P s.session (clock i)).0 ≡ none
          → OutboundRun clock i s (record s { session = (next_outbound P s.session (clock i)).1 })
      queue_full :
          {i : ℕ} {r : RetransmitEntry} {s t : Stack P R}
          → (next_outbound P s.session (clock i)).0 ≡ some r
          → enqueue_entry (record s { session = (next_outbound P s.session (clock i)).1 }) r
            ≡ (false, t)
          → OutboundRun clock i s t
      entry_queued :
          {i : ℕ} {r : RetransmitEntry} {s t u : Stack P R}
          → (next_outbound P s.session (clock i)).0 ≡ some r
          → enqueue_entry (record s { session = (next_outbound P s.session (clock i)).1 }) r
            ≡ (true, t)
          → OutboundRun clock (i + 1) t u
          → OutboundRun clock i s u

    -- Each round that goes on takes an id from the outbound queue.
    unfoldable pub handle_session_outbound : (ℕ → ℕ) → Stack P R → Stack P R
    unfolding pump_outbound
    handle_session_outbound clock s =
        pump_outbound (suc (length s.session.outbound_queue)) 0 clock s

    unfoldable pub enqueue_retries : List RetransmitEntry → Stack P R → Stack P R
    unfolding enqueue_entry
    enqueue_retries [] s = s
    enqueue_retries (r ∷ rs) s = enqueue_retries rs (enqueue_entry s r).1

    module _ (app : App P R) where
      unfoldable pub call_back : List Event → Stack P R → Stack P R
      call_back [] s = s
      call_back (e ∷ es) s = call_back es (app.session_callback e (noted P R (called_back e) s))

      unfoldable pub handle_session_retries : ℕ → (ℕ → ℕ) → Stack P R → Stack P R
      unfolding call_back enqueue_retries
      handle_session_retries now clock s =
          let (retries, events, session) = poll P now clock s.session in
          enqueue_retries retries (call_back events (record s { session = session }))

      unfoldable pub handle_ack_packet : ℕ → List ℕ → Stack P R → Stack P R
      handle_ack_packet now bytes s =
          if length bytes == sizeof ack_packet_traits.layout
          then record s { session = on_ack P s.session (load_tx_id 0 bytes) now }
          else s

      unfoldable pub run_handler : ℕ → ℕ → List ℕ → Stack P R → Stack P R
      run_handler cmd_id tx_id bytes s = elim (P.find (Option ℕ) cmd_id s.handlers) [
        | none ↦ s
        | some none ↦ s
        | some (some handler) ↦
            app.request_handler handler cmd_id tx_id bytes
              (noted P R (handled handler cmd_id tx_id bytes) s)
      ]

      unfoldable pub enqueue_ack : ℕ → ℕ → Stack P R → Stack P R
      enqueue_ack cmd_id tx_id s =
          elim (R.serialize max_frame_size ack_packet_traits
            (to_bytes 4 tx_id ++ to_bytes 2 cmd_id ++ (0 ∷ []))) [
              | none ↦ s
              | some frame ↦ record s {
                tx_queue = (enqueue_prebuilt_frame s.tx_queue frame true).1;
              }
            ]

      -- A duplicate is answered from the cache, if its response is there.
      unfoldable pub replay : RequestResult → Stack P R → Stack P R
      replay result s = elim result.cached_response_data [
        | none ↦ s
        | some bytes ↦
            if ltb 0 result.cached_response_len
            then record s {
              tx_queue =
                  (enqueue_prebuilt_frame s.tx_queue (take result.cached_response_len bytes)
                    true).1;
            }
            else s
      ]

      unfoldable pub handle_request_packet : ℕ → List ℕ → Stack P R → Stack P R
      unfolding run_handler enqueue_ack replay
      handle_request_packet cmd_id bytes s =
          let tx_id = extract_tx_id_from_raw types cmd_id bytes in
          let (result, session) = on_request P s.session cmd_id tx_id in
          let s' = enqueue_ack cmd_id tx_id (record s { session = session }) in
          if not (is_reliable cmd_id)
          then run_handler cmd_id tx_id bytes s
          else if tx_id == 0
          then if leb 0x6000 cmd_id && ltb cmd_id 0x6100
            then run_handler cmd_id tx_id bytes s
            else s
          else if result.is_duplicate
          then replay result s'
          else run_handler cmd_id tx_id bytes s'

      unfoldable pub handle_response_packet : ℕ → List ℕ → Stack P R → Stack P R
      unfolding call_back
      handle_response_packet cmd_id bytes s =
          let tx_id = extract_tx_id_from_raw types cmd_id bytes in
          let (session, events) = on_response P s.session cmd_id tx_id bytes in
          if tx_id == 0 then s else call_back events (record s { session = session })

      unfoldable pub handle_packet_internal : ℕ → ℕ → List ℕ → Stack P R → Stack P R
      unfolding handle_ack_packet handle_request_packet handle_response_packet
      handle_packet_internal now cmd_id bytes s =
          if cmd_id == ack_cmd
          then handle_ack_packet now bytes s
          else if is_request_cmd cmd_id
          then handle_request_packet cmd_id bytes s
          else handle_response_packet cmd_id bytes s

      -- `dispatch_after_parse` of the packets, in turn; `clock i` is the time of the packet `i`.
      unfoldable pub dispatch :
          (i : ℕ) → (ℕ → ℕ) → List (PacketTraits × List ℕ) → Stack P R → Stack P R
      unfolding handle_packet_internal
      dispatch i clock [] s = s
      dispatch i clock ((t, bytes) ∷ rest) s =
          dispatch (i + 1) clock rest (handle_packet_internal (clock i) t.cmd bytes s)

      unfoldable pub push_data : (ℕ → ℕ) → List ℕ → Stack P R → Stack P R
      unfolding dispatch
      push_data clock bytes s =
          let (parser, packets) = R.push_data s.parser bytes in
          dispatch 0 clock packets (record s { parser = parser })

      -- The loop of `drain_rx` with its buffer of 256 bytes.
      unfoldable pub drain_loop : ℕ → (ℕ → ℕ → ℕ) → Stack P R → Stack P R
      unfolding push_data
      drain_loop zero clock s = s
      drain_loop (suc n) clock s =
          let avail = available P.size_bits rx_ring_bits s.rx_ring in
          let (buf, ring) =
            read P.size_bits rx_ring_bits s.rx_ring (if ltb avail 256 then avail else 256) in
          let rest = drain_loop n clock (push_data (clock n) buf (record s { rx_ring = ring })) in
          if avail == 0 then s else if length buf == 0 then record s { rx_ring = ring } else rest

      -- Each round takes a byte at least.
      unfoldable pub drain_rx : (ℕ → ℕ → ℕ) → Stack P R → Stack P R
      unfolding drain_loop
      drain_rx clock s = drain_loop (available P.size_bits rx_ring_bits s.rx_ring) clock s

      unfoldable pub advance_write_index : (ℕ → ℕ) → List ℕ → Stack P R → Bool × Stack P R
      unfolding dispatch
      advance_write_index clock bytes s =
          let (done, parser, packets) = R.advance_write_index s.parser bytes in
          (done, dispatch 0 clock packets (record s { parser = parser }))

      -- The clocks are those of the packets, of the outbound requests, and of the retries.
      unfoldable pub run_one_cycle :
          (ℕ → ℕ → ℕ) → (ℕ → ℕ) → ℕ → (ℕ → ℕ) → Bool → Stack P R → Option (List ℕ) × Stack P R
      unfolding drain_rx handle_session_outbound handle_session_retries drain_tx
      run_one_cycle packets outbound now retries accepted s =
          drain_tx P R
            (handle_session_retries now retries
              (handle_session_outbound outbound (drain_rx packets s)))
            accepted
