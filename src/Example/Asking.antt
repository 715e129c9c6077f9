-- ===== src/Example/Asking.antt =====
-- The cycles of the host of examples/send_serial.cpp: the request goes out, the acknowledgement
-- comes in, the response comes in.
use florid_usb_protocols.Prelude.{
  ℕ, ◌+◌, ◌-◌, ◌<◌, ◌≡◌, refl, ap, ◌∙◌, true, Option, none, some, List, [], ◌∷◌, ◌++◌, arith, ◌==◌,
  ==_iff, length,
}
use florid_usb_protocols.Platform.{Platform, IsPlatform}
use florid_usb_protocols.Rpl.{Rpl}
use florid_usb_protocols.Packet.{sizeof, bit_size, tx_id_offset, offset, to_bytes}
use florid_usb_protocols.Packet.Traits.{
  ack_packet_traits, set_mit_limit_request_packet_traits, set_mit_limit_response_packet_traits,
}
use florid_usb_protocols.Packet.Region.{is_request_cmd, is_telemetry_cmd}
use florid_usb_protocols.Packet.Exchange.{id_first_lem, load_tx_id-to_bytes}
use florid_usb_protocols.TxQueue.{tx_entry}
use florid_usb_protocols.Session.{Session, on_ack, on_response, next_outbound}
use florid_usb_protocols.Session.Entry.{response, RetransmitEntry, entry_of, packet_of}
use florid_usb_protocols.Session.Answer.{stored_whole, registered, next_outbound_now}
use florid_usb_protocols.Stack.{Stack, called_back}
use florid_usb_protocols.Stack.Cycle.{
  try_serialize_raw, first_serialized, serialize_raw_to_frame, call_back, push_data, run_one_cycle,
}
use florid_usb_protocols.Stack.Serving.{ack_bytes}
use florid_usb_protocols.Stack.Told.{ack_handled, response_handled}
use florid_usb_protocols.Stack.Quiet.{sent, outbound_sends, retries_quiet}
use florid_usb_protocols.Stack.Receive.{
  IsHolding, emptied, drain_rx_quiet, drain_rx_frame, cycle_quiet, drain_tx-none, drain_tx_first,
}
use florid_usb_protocols.Example.{types, request_cmd, response_cmd, request}
use florid_usb_protocols.Example.Device.{response as response_bytes}
use florid_usb_protocols.Example.Host.{host}
use florid_usb_protocols.Example.Loop.{Times, cycle}
use florid_usb_protocols.Example.Serves.{
  IsExchange, length-request, request_small, push_data_carried,
}
use florid_usb_protocols.Example.Waiting.{
  IsFree, IsWaiting, IsWaiting-IsNoneDue, asks, next_outbound-IsWaiting, on_ack-IsWaiting,
  on_response-quiet,
}

module _ (P : Platform) (R : Rpl) where
  -- What the cycles of the host leave alone.
  pub record IsCalm (h : Stack P R) : Type 0 where
    pub idle : h.parser ≡ R.parser
    pub empty : h.tx_queue ≡ []
    pub transport : h.send_frame ≡ some 0
    pub uncalled : h.calls ≡ []

module _ (P : Platform) (L : IsPlatform P) (R : Rpl) (tx joint asked : ℕ)
    (limits request_frame ack_frame response_frame : List ℕ)
    (x : IsExchange R tx joint limits request_frame ack_frame response_frame) where
  abbrev asking : List ℕ
  asking = request tx joint limits

  pub serialized :
      serialize_raw_to_frame P R types request_cmd (
        packet_of (
          entry_of
            (registered tx request_cmd response_cmd asking (some 0) (some 1) 200000 3 asked)))
      ≡ some request_frame
  unfolding serialize_raw_to_frame first_serialized try_serialize_raw
  serialized =
      let size = length-request tx joint limits x.size in
      let whole = stored_whole asking (request_small tx joint limits x.size) in
      let sized : (length asking == sizeof set_mit_limit_request_packet_traits.layout) ≡ true =
        (==_iff _ _).1 size in
      ap (serialize_raw_to_frame P R types request_cmd) whole
      ∙ rw (serialize_raw_to_frame, first_serialized, try_serialize_raw, sized, x.asked.made) refl

  -- The session of the host, when the request has gone out at the time `now`.
  abbrev pub flown : Stack P R → ℕ → Session P
  flown h now = (next_outbound P (asks P L tx asking asked h.session) now).1

  -- The first cycle sends the request.
  pub host_sends :
      (t : Times) (h : Stack P R)
      → IsCalm P R h
      → IsFree P L tx asking asked h.session
      → IsHolding P L R h.rx_ring []
      → t.now < t.outbound 0 + 200000
      → cycle P R (host P R) t (record h { session = asks P L tx asking asked h.session })
        ≡ (some request_frame, record h { session = flown h (t.outbound 0); tx_queue = [] })
  unfolding run_one_cycle
  host_sends t h calm free holding quick =
      let h0 = record h { session = asks P L tx asking asked h.session } in
      let r =
        entry_of (registered tx request_cmd response_cmd asking (some 0) (some 1) 200000 3 asked) in
      let u = flown h (t.outbound 0) in
      let waiting = next_outbound-IsWaiting P L tx asking asked h.session (t.outbound 0) free in
      let taken : next_outbound P h0.session (t.outbound 0) ≡ (some r, u) =
        ap (λ (o : Option RetransmitEntry). (o, u))
          (ap (λ o. o.0)
            (next_outbound_now P L h.session tx request_cmd response_cmd asking (some 0) (some 1)
              200000 3 asked (t.outbound 0) free.none_queued free.room)) in
      rw
        (
          run_one_cycle,
          drain_rx_quiet P L R types (host P R) t.packets h0 holding,
          outbound_sends P L R types (host P R) t.outbound h0 r u request_frame taken
              waiting.none_queued serialized (omega (arith, ap (λ q. length q) calm.empty)),
          retries_quiet P L R types (host P R) t.now t.retries
              (sent P L R types (host P R) u r request_frame h0)
              (IsWaiting-IsNoneDue P L tx asking asked 0 (t.outbound 0 + 200000) t.now u waiting
                quick),
        )
        (drain_tx_first P L R (sent P L R types (host P R) u r request_frame h0) 0 request_frame
          (is_telemetry_cmd request_cmd) [] calm.transport
          (ap (λ q. q ++ (tx_entry request_frame (is_telemetry_cmd request_cmd) ∷ [])) calm.empty))

  -- What the parser hands the host, when the acknowledgement has come in.
  push_data-acked :
      (clock : ℕ → ℕ) (h : Stack P R)
      → h.parser ≡ R.parser
      → push_data P R types (host P R) clock ack_frame h
        ≡ record h { session = on_ack P h.session tx (clock 0) }
  unfolding sizeof bit_size to_bytes
  push_data-acked clock h idle =
      push_data_carried P R types (host P R) ack_packet_traits (ack_bytes request_cmd tx) ack_frame
        clock h x.acked idle
      ∙ ack_handled P R types (host P R) (clock 0) tx (ack_bytes request_cmd tx) h (omega arith)
          (load_tx_id-to_bytes tx (to_bytes 2 request_cmd ++ (0 ∷ [])) x.small)

  -- What the parser hands the host, when the response has come in.
  push_data-answered :
      (clock : ℕ → ℕ) (h : Stack P R)
      → h.parser ≡ R.parser
      → push_data P R types (host P R) clock response_frame h
        ≡ call_back P R types
            (host P R)
            (on_response P h.session response_cmd tx (response_bytes tx asking)).1
            (record h {
              session = (on_response P h.session response_cmd tx (response_bytes tx asking)).0;
            })
  unfolding is_request_cmd sizeof bit_size tx_id_offset offset
  push_data-answered clock h idle =
      push_data_carried P R types (host P R) set_mit_limit_response_packet_traits
        (response_bytes tx asking) response_frame clock h x.answered idle
      ∙ response_handled P R types (host P R) (clock 0) response_cmd tx (response_bytes tx asking) h
          refl refl (id_first_lem types set_mit_limit_response_packet_traits tx _ refl x.small refl)
          x.pos

  -- The acknowledgement gives the request more time.
  pub host_acked :
      (t : Times) (h : Stack P R) (retries deadline : ℕ)
      → IsCalm P R h
      → IsWaiting P L tx asking asked retries deadline h.session
      → IsHolding P L R h.rx_ring ack_frame
      → ((i j : ℕ) → t.now < t.packets i j + 200000)
      → cycle P R (host P R) t h ≡ (
        none,
        record (emptied P L R types (host P R) h ack_frame) {
          session = on_ack P h.session tx (t.packets (length ack_frame - 1) 0);
        },
      )
  host_acked t h retries deadline calm waiting holding quick =
      let at = t.packets (length ack_frame - 1) 0 in
      let t1 = record (emptied P L R types (host P R) h ack_frame) {
        session = on_ack P h.session tx at;
      } in
      let longer = on_ack-IsWaiting P L tx asking asked h.session retries deadline at waiting in
      cycle_quiet P L R types (host P R) t.packets t.outbound t.now t.retries h t1
        (drain_rx_frame P L R types (host P R) t.packets h t1 ack_frame holding x.acked.some_bytes
          x.acked.fits (push_data-acked _ (emptied P L R types (host P R) h ack_frame) calm.idle)
          refl)
        longer.none_queued
        (IsWaiting-IsNoneDue P L tx asking asked retries (at + 200000) t.now t1.session longer
          (quick (length ack_frame - 1) 0))
      ∙ drain_tx-none P L R t1 0 calm.transport calm.empty

  -- The host, when it has called back with the response.
  abbrev pub answered : Stack P R → Stack P R
  answered h = record (emptied P L R types (host P R) h response_frame) {
    session = (on_response P h.session response_cmd tx (response_bytes tx asking)).0;
    calls = h.calls ++ (called_back (response 0 (response_bytes tx asking)) ∷ []);
  }

  pub host_answered :
      (t : Times) (h : Stack P R) (retries deadline : ℕ)
      → IsCalm P R h
      → IsWaiting P L tx asking asked retries deadline h.session
      → IsHolding P L R h.rx_ring response_frame
      → cycle P R (host P R) t h ≡ (none, answered h)
  unfolding call_back
  host_answered t h retries deadline calm waiting holding =
      let quiet =
        on_response-quiet P L tx asking asked h.session retries deadline t.now
          (response_bytes tx asking) waiting in
      let full = emptied P L R types (host P R) h response_frame in
      cycle_quiet P L R types (host P R) t.packets t.outbound t.now t.retries h (answered h)
        (drain_rx_frame P L R types (host P R) t.packets h (answered h) response_frame holding
          x.answered.some_bytes x.answered.fits
          (push_data-answered _ full calm.idle
            ∙ ap
                (λ es.
                  call_back P R types (host P R) es
                    (record full { session = (answered h).session }))
                quiet.0)
          refl)
        quiet.1 quiet.2
      ∙ drain_tx-none P L R (answered h) 0 calm.transport calm.empty
