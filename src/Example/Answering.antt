-- ===== src/Example/Answering.antt =====
-- The cycles of the device of examples/receive_serial.cpp: the request comes in, then its answers go
-- out one by one.
use florid_usb_protocols.Prelude.{
  ℕ, ◌≡◌, refl, sym, ap, ◌∙◌, inl, inr, true, none, some, List, [], ◌∷◌, ◌++◌, Bool-cases,
}
use florid_usb_protocols.Prelude.Eq.{nat_regular}
use florid_usb_protocols.Platform.{Platform, IsPlatform}
use florid_usb_protocols.Rpl.{Rpl}
use florid_usb_protocols.IdRing.{test_and_insert, compose_dedup_key, seen_id_ring_bits}
use florid_usb_protocols.Session.{Session}
use florid_usb_protocols.Session.Entry.{PendingEntry}
use florid_usb_protocols.Session.Device.{on_request, cache_response}
use florid_usb_protocols.TxQueue.{TxEntry}
use florid_usb_protocols.Stack.{Stack, drain_tx}
use florid_usb_protocols.Stack.Serving.{prebuilt}
use florid_usb_protocols.Stack.Quiet.{IsNoneDue}
use florid_usb_protocols.Stack.Receive.{
  IsHolding, emptied, drain_rx_quiet, drain_rx_frame, cycle_quiet, drain_tx_first, drain_tx-none,
}
use florid_usb_protocols.Example.{types, request_cmd, response_cmd, request}
use florid_usb_protocols.Example.Device.{device}
use florid_usb_protocols.Example.Loop.{Times, cycle}
use florid_usb_protocols.Example.Serves.{IsExchange, IsListening, served, device_serves}

module _ (P : Platform) (L : IsPlatform P) (R : Rpl) where
  -- A device that makes no requests and has a transport.
  pub record IsServing (d : Stack P R) : Type 0 where
    pub transport : d.send_frame ≡ some 0
    pub none_queued : d.session.outbound_queue ≡ []
    pub none_pending : (k : ℕ) → P.find PendingEntry k d.session.pending ≡ none

  pub none_due : (now : ℕ) (d : Stack P R) → IsServing d → IsNoneDue P L now d.session
  none_due now d v tx p found =
      absurd (let e : none ≡ some p = sym (v.none_pending tx) ∙ found in cc)

  pub device_rests :
      (t : Times) (d : Stack P R)
      → IsServing d
      → IsHolding P L R d.rx_ring []
      → cycle P R (device P R) t d ≡ drain_tx P R d true
  device_rests t d v holding =
      cycle_quiet P L R types (device P R) t.packets t.outbound t.now t.retries d d
        (drain_rx_quiet P L R types (device P R) t.packets d holding) v.none_queued
        (none_due t.now d v)

  -- What is queued goes out, a frame in each cycle.
  pub device_sends :
      (t : Times) (d : Stack P R) (frame : List ℕ) (rest : List TxEntry)
      → IsServing d
      → IsHolding P L R d.rx_ring []
      → d.tx_queue ≡ prebuilt frame ∷ rest
      → cycle P R (device P R) t d ≡ (some frame, record d { tx_queue = rest })
  device_sends t d frame rest v holding queue =
      device_rests t d v holding ∙ drain_tx_first P L R d 0 frame _ rest v.transport queue

  -- With nothing queued the device does nothing.
  pub device_waits :
      (t : Times) (d : Stack P R)
      → IsServing d
      → IsHolding P L R d.rx_ring []
      → d.tx_queue ≡ []
      → cycle P R (device P R) t d ≡ (none, d)
  device_waits t d v holding queue =
      device_rests t d v holding ∙ drain_tx-none P L R d 0 v.transport queue

  -- The session of the device, when it has answered.
  abbrev after : Session P → (tx : ℕ) → List ℕ → Session P
  after s tx frame =
      cache_response P (on_request P s request_cmd tx).1 request_cmd tx response_cmd frame

  after_lem :
      (s : Session P) (tx : ℕ) (frame : List ℕ)
      → ((after s tx frame).outbound_queue ≡ s.outbound_queue)
        × ((after s tx frame).pending ≡ s.pending)
  unfolding on_request cache_response
  after_lem s tx frame =
      elim (Bool-cases
        (test_and_insert P.size_bits seen_id_ring_bits s.seen_requests
          (compose_dedup_key request_cmd tx)).0) [
            | inl seen ↦ rw seen (refl, refl)
            | inr new ↦ rw new (refl, refl)
          ]

  module _ (tx joint : ℕ) (limits request_frame ack_frame response_frame : List ℕ)
      (x : IsExchange R tx joint limits request_frame ack_frame response_frame) where
    -- The device, when it has read the request, run the handler, and sent the acknowledgement.
    abbrev pub answering : Stack P R → Stack P R
    answering d =
        record (served P R tx (request tx joint limits) ack_frame response_frame
          (emptied P L R types (device P R) d request_frame)) {
            tx_queue = prebuilt response_frame ∷ [];
          }

    pub answering-IsServing : (d : Stack P R) → IsServing d → IsServing (answering d)
    answering-IsServing d v = record {
      transport = v.transport;
      none_queued = (after_lem d.session tx response_frame).0 ∙ v.none_queued;
      none_pending = λ k.
          ap (P.find PendingEntry k) (after_lem d.session tx response_frame).1 ∙ v.none_pending k;
    }

    pub device_answers :
        (t : Times) (d : Stack P R)
        → IsServing d
        → IsListening P R d tx
        → d.tx_queue ≡ []
        → IsHolding P L R d.rx_ring request_frame
        → cycle P R (device P R) t d ≡ (some ack_frame, answering d)
    device_answers t d v l queue holding =
        let d0 = emptied P L R types (device P R) d request_frame in
        let d1 = served P R tx (request tx joint limits) ack_frame response_frame d0 in
        let l0 : IsListening P R d0 tx = record {
          idle = l.idle;
          handled = l.handled;
          new = l.new;
          room = l.room;
        } in
        let v1 : IsServing d1 = record {
          transport = v.transport;
          none_queued = (answering-IsServing d v).none_queued;
          none_pending = (answering-IsServing d v).none_pending;
        } in
        cycle_quiet P L R types (device P R) t.packets t.outbound t.now t.retries d d1
          (drain_rx_frame P L R types (device P R) t.packets d d1 request_frame holding
            x.asked.some_bytes x.asked.fits
            (device_serves P R tx joint limits request_frame ack_frame response_frame x _ d0 l0)
            refl)
          v1.none_queued (none_due t.now d1 v1)
        ∙ drain_tx_first P L R d1 0 ack_frame _ (prebuilt response_frame ∷ []) v.transport
            (ap (λ q. (q ++ (prebuilt ack_frame ∷ [])) ++ (prebuilt response_frame ∷ [])) queue)
