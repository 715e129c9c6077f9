-- ===== src/Example/Retrying.antt =====
-- The stack of the host of examples/send_serial.cpp, when its request is sent again or given up.
use florid_usb_protocols.Prelude.{
  ℕ, ◌≤◌, ◌<◌, ◌≡◌, refl, ap, ◌∙◌, true, none, some, List, [], ◌∷◌, ◌++◌, arith, length,
}
use florid_usb_protocols.Platform.{Platform, IsPlatform}
use florid_usb_protocols.Rpl.{Rpl}
use florid_usb_protocols.Packet.Region.{is_telemetry_cmd}
use florid_usb_protocols.TxQueue.{TxEntry, tx_entry, tx_queue_cap}
use florid_usb_protocols.Session.{Session}
use florid_usb_protocols.Session.Entry.{Event, RetransmitEntry, error, timed_out, entry_of}
use florid_usb_protocols.Stack.{Stack, called_back, drain_tx}
use florid_usb_protocols.Stack.Cycle.{
  call_back, enqueue_retries, handle_session_retries, run_one_cycle,
}
use florid_usb_protocols.Stack.Quiet.{sent, enqueue_entry_room, outbound_quiet}
use florid_usb_protocols.Stack.Receive.{IsHolding, drain_rx_quiet, drain_tx-none, drain_tx_first}
use florid_usb_protocols.Example.{types, request_cmd, request}
use florid_usb_protocols.Example.Host.{host}
use florid_usb_protocols.Example.Loop.{Times, cycle}
use florid_usb_protocols.Example.Serves.{IsExchange}
use florid_usb_protocols.Example.Waiting.{flying, IsWaiting}
use florid_usb_protocols.Example.Losing.{again, given_up, poll-again, poll_gives_up}
use florid_usb_protocols.Example.Asking.{IsCalm, serialized}

module _ (P : Platform) (L : IsPlatform P) (R : Rpl) (tx joint asked : ℕ)
    (limits request_frame ack_frame response_frame : List ℕ)
    (x : IsExchange R tx joint limits request_frame ack_frame response_frame) where
  abbrev asking : List ℕ
  asking = request tx joint limits

  -- The cycle up to `drain_tx`, when the poll leaves the stack `u`.
  cycle_polled :
      (t : Times) (h u : Stack P R)
      → IsHolding P L R h.rx_ring []
      → h.session.outbound_queue ≡ []
      → handle_session_retries P R types (host P R) t.now t.retries h ≡ u
      → cycle P R (host P R) t h ≡ drain_tx P R u true
  unfolding run_one_cycle
  cycle_polled t h u holding none_queued polled =
      rw
        (
          run_one_cycle,
          drain_rx_quiet P L R types (host P R) t.packets h holding,
          outbound_quiet P L R types (host P R) t.outbound h none_queued,
          polled,
        )
        refl

  -- The request goes out once more.
  pub host_asks_again :
      (t : Times) (h : Stack P R) (retries deadline : ℕ)
      → IsCalm P R h
      → IsWaiting P L tx asking asked retries deadline h.session
      → IsHolding P L R h.rx_ring []
      → retries < 3
      → deadline ≤ t.now
      → cycle P R (host P R) t h ≡ (
        some request_frame,
        record h {
          session = again P L tx asking asked retries deadline (t.retries tx) h.session;
          tx_queue = [];
        },
      )
  unfolding handle_session_retries enqueue_retries call_back
  host_asks_again t h retries deadline calm w holding few late =
      let r = entry_of (flying tx asking asked retries deadline) in
      let s = again P L tx asking asked retries deadline (t.retries tx) h.session in
      let u = sent P L R types (host P R) s r request_frame h in
      let room : length h.tx_queue < tx_queue_cap =
        omega (arith, ap (λ (q : List TxEntry). length q) calm.empty) in
      let step : List RetransmitEntry × List Event × Session P → Stack P R = λ o.
        enqueue_retries P R types o.0
          (call_back P R types (host P R) o.1 (record h { session = o.2 })) in
      let polled : handle_session_retries P R types (host P R) t.now t.retries h ≡ u =
        ap step
          (poll-again P L tx asking asked t.now retries deadline t.retries h.session w few late)
        ∙ ap (λ o. o.1)
            (enqueue_entry_room P L R types (host P R) (record h { session = s }) r request_frame
              (serialized P L R tx joint asked limits request_frame ack_frame response_frame x)
              room) in
      cycle_polled t h u holding w.none_queued polled
      ∙ drain_tx_first P L R u 0 request_frame (is_telemetry_cmd request_cmd) [] calm.transport
          (ap (λ q. q ++ (tx_entry request_frame (is_telemetry_cmd request_cmd) ∷ [])) calm.empty)

  -- The host, when it has called back with a timeout.
  abbrev pub failing : (deadline : ℕ) → Stack P R → Stack P R
  failing deadline h = record h {
    session = given_up P L tx asking asked 3 deadline h.session;
    calls = h.calls ++ (called_back (error 1 timed_out) ∷ []);
  }

  pub host_gives_up :
      (t : Times) (h : Stack P R) (deadline : ℕ)
      → IsCalm P R h
      → IsWaiting P L tx asking asked 3 deadline h.session
      → IsHolding P L R h.rx_ring []
      → deadline ≤ t.now
      → cycle P R (host P R) t h ≡ (none, failing deadline h)
  unfolding handle_session_retries enqueue_retries call_back
  host_gives_up t h deadline calm w holding late =
      let step : List RetransmitEntry × List Event × Session P → Stack P R = λ o.
        enqueue_retries P R types o.0
          (call_back P R types (host P R) o.1 (record h { session = o.2 })) in
      cycle_polled t h (failing deadline h) holding w.none_queued
        (ap step (poll_gives_up P L tx asking asked t.now deadline t.retries h.session w late))
      ∙ drain_tx-none P L R (failing deadline h) 0 calm.transport calm.empty
