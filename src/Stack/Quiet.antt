-- ===== src/Stack/Quiet.antt =====
-- The parts of the cycle of include/ProtocolStack.hpp that find nothing to do, or one thing.
use florid_usb_protocols.Prelude.{
  ℕ, zero, suc, ◌+◌, ◌<◌, ◌≡◌, refl, sym, ap, ◌∙◌, inl, inr, Bool, true, false, Option, none, some,
  List, [], ◌∷◌, ◌++◌, arith, length, get_elem?, leb, Option-cases, take_front,
}
use florid_usb_protocols.Platform.{Platform, IsPlatform}
use florid_usb_protocols.Platform.Lookup.{lookup, Uniq}
use florid_usb_protocols.Rpl.{Rpl}
use florid_usb_protocols.Packet.{PacketTraits}
use florid_usb_protocols.Packet.Region.{is_telemetry_cmd}
use florid_usb_protocols.TxQueue.{tx_entry, frame_of, tx_queue_cap, enqueue_pending_frame}
use florid_usb_protocols.Session.{Session, next_outbound, next_outbound_loop}
use florid_usb_protocols.Session.Entry.{PendingEntry, RetransmitEntry, packet_of}
use florid_usb_protocols.Session.Poll.{Polled, is_due, visit, poll_loop, poll_from, poll}
use florid_usb_protocols.Stack.{Stack, App}
use florid_usb_protocols.Stack.Cycle.{
  serialize_raw_to_frame, enqueue_entry, pump_outbound, handle_session_outbound, enqueue_retries,
  call_back, handle_session_retries,
}

-- The transport gets the bytes of the frame that was queued.
pub frame_whole : (frame : List ℕ) (b : Bool) → frame_of (tx_entry frame b) ≡ frame
frame_whole frame b = take_front frame _

lookup-get_elem? :
    {V : Type 0} (xs : List (ℕ × V)) (i k : ℕ) (v : V)
    → Uniq xs
    → get_elem? xs i ≡ some (k, v)
    → lookup k xs ≡ some v
lookup-get_elem? [] i k v u h = cc
lookup-get_elem? ((j, w) ∷ xs) zero k v u h = ground (arith, h)
lookup-get_elem? ((j, w) ∷ xs) (suc i) k v u h =
    ground (arith, lookup-get_elem? xs i k v u.1 h, u.0)

module _ (P : Platform) (L : IsPlatform P) where
  -- No entry is to be sent again, or given up.
  abbrev pub IsNoneDue : ℕ → Session P → Type 0
  IsNoneDue now s =
      (tx : ℕ) (p : PendingEntry) → P.find PendingEntry tx s.pending ≡ some p → is_due now p ≡ false

  poll_loop_quiet :
      (now : ℕ) (clock : ℕ → ℕ) (n i : ℕ) (s : Session P)
      → IsNoneDue now s
      → poll_loop P now clock n i (poll_from P now clock s) ≡ poll_from P now clock s
  unfolding poll_loop poll_from visit
  poll_loop_quiet now clock zero i s quiet = refl
  poll_loop_quiet now clock (suc n) i s quiet =
      elim (Option-cases (get_elem? (P.entries PendingEntry s.pending) i)) [
        | inl e ↦ rw (e, poll_loop) refl
        | inr ((tx, p), e) ↦
            let still : is_due now p ≡ false = quiet tx p (
              L.find-entries PendingEntry tx s.pending
              ∙ lookup-get_elem? _ i tx p (L.entries-Uniq PendingEntry s.pending) e) in
            rw (e, poll_loop, still) (poll_loop_quiet now clock n (i + 1) s quiet)
      ]

  pub poll_quiet :
      (now : ℕ) (clock : ℕ → ℕ) (s : Session P) → IsNoneDue now s → poll P now clock s ≡ ([], [], s)
  unfolding poll poll_from
  poll_quiet now clock s quiet =
      ap
        (λ (r : Polled P). (
          r.retries,
          r.callbacks,
          record s { pending = r.pending; inflight_count = r.inflight_count },
        ))
        (poll_loop_quiet now clock (length (P.entries PendingEntry s.pending)) 0 s quiet)

module _ (P : Platform) (L : IsPlatform P) (R : Rpl) (types : List PacketTraits)
    (app : App P R) where
  next_outbound_quiet :
      (s : Session P) (now : ℕ) → s.outbound_queue ≡ [] → next_outbound P s now ≡ (none, s)
  unfolding next_outbound next_outbound_loop
  next_outbound_quiet s now e =
      let with_queue : List ℕ → Option RetransmitEntry × Session P =
        λ q. (none, record s { outbound_queue = q }) in
      ap (next_outbound_loop P s now) e ∙ ap with_queue (sym e)

  pump_quiet :
      (n i : ℕ) (clock : ℕ → ℕ) (s : Stack P R)
      → s.session.outbound_queue ≡ []
      → pump_outbound P R types n i clock s ≡ s
  unfolding pump_outbound
  pump_quiet zero i clock s e = refl
  pump_quiet (suc n) i clock s e =
      let none_left = next_outbound_quiet s.session (clock i) e in
      rw (pump_outbound, ap (λ o. o.0) none_left) (ap (λ o. record s { session = o.1 }) none_left)

  pub outbound_quiet :
      (clock : ℕ → ℕ) (s : Stack P R)
      → s.session.outbound_queue ≡ []
      → handle_session_outbound P R types clock s ≡ s
  unfolding handle_session_outbound
  outbound_quiet clock s e = pump_quiet (suc (length s.session.outbound_queue)) 0 clock s e

  -- The entry of the request that `r` stands for, behind those that are queued.
  abbrev pub sent : Session P → RetransmitEntry → List ℕ → Stack P R → Stack P R
  sent t r frame s = record s {
    session = t;
    tx_queue = s.tx_queue ++ (tx_entry frame (is_telemetry_cmd r.request_cmd) ∷ []);
  }

  pub enqueue_entry_room :
      (s : Stack P R) (r : RetransmitEntry) (frame : List ℕ)
      → serialize_raw_to_frame P R types r.request_cmd (packet_of r) ≡ some frame
      → length s.tx_queue < tx_queue_cap
      → enqueue_entry P R types s r ≡ (true, sent s.session r frame s)
  unfolding enqueue_entry enqueue_pending_frame
  enqueue_entry_room s r frame made room =
      let free : leb tx_queue_cap (length s.tx_queue) ≡ false = ground (arith, room) in
      rw (enqueue_entry, enqueue_pending_frame, made, free) refl

  -- The only request that waits is queued for the transport.
  pub outbound_sends :
      (clock : ℕ → ℕ) (s : Stack P R) (r : RetransmitEntry) (t : Session P) (frame : List ℕ)
      → next_outbound P s.session (clock 0) ≡ (some r, t)
      → t.outbound_queue ≡ []
      → serialize_raw_to_frame P R types r.request_cmd (packet_of r) ≡ some frame
      → length s.tx_queue < tx_queue_cap
      → handle_session_outbound P R types clock s ≡ sent t r frame s
  unfolding handle_session_outbound pump_outbound
  outbound_sends clock s r t frame taken none_left made room =
      let u = (next_outbound P s.session (clock 0)).1 in
      let same : u ≡ t = ap (λ o. o.1) taken in
      let queued = enqueue_entry_room (record s { session = u }) r frame made room in
      rw (pump_outbound, ap (λ o. o.0) taken, ap (λ o. o.0) queued, ap (λ o. o.1) queued)
        (pump_quiet (length s.session.outbound_queue) 1 clock (sent u r frame s)
            (ap (λ (v : Session P). v.outbound_queue) same ∙ none_left)
          ∙ ap (λ v. sent v r frame s) same)

  pub retries_quiet :
      (now : ℕ) (clock : ℕ → ℕ) (s : Stack P R)
      → IsNoneDue P L now s.session
      → handle_session_retries P R types app now clock s ≡ s
  unfolding handle_session_retries enqueue_retries call_back
  retries_quiet now clock s quiet =
      rw (handle_session_retries, poll_quiet P L now clock s.session quiet) refl
