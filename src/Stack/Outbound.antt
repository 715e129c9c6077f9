-- ===== src/Stack/Outbound.antt =====
-- The loop of `handle_session_outbound` in include/ProtocolStack.hpp.
use florid_usb_protocols.Prelude.{
  ℕ, zero, suc, ◌+◌, ◌<◌, ◌≡◌, refl, ap, inl, inr, Bool, List, arith, length, Option-cases,
  Bool-cases,
}
use florid_usb_protocols.Platform.{Platform}
use florid_usb_protocols.Rpl.{Rpl}
use florid_usb_protocols.Packet.{PacketTraits}
use florid_usb_protocols.Session.{Session, next_outbound}
use florid_usb_protocols.Session.Entry.{RetransmitEntry}
use florid_usb_protocols.Session.Outbound.{next_outbound_shrinks}
use florid_usb_protocols.Stack.{Stack}
use florid_usb_protocols.Stack.Cycle.{
  enqueue_entry, pump_outbound, handle_session_outbound, OutboundRun, none_left, queue_full,
  entry_queued,
}

module _ (P : Platform) (R : Rpl) (types : List PacketTraits) where
  abbrev waiting : Stack P R → ℕ
  waiting s = length s.session.outbound_queue

  queue-enqueue_entry :
      (s : Stack P R) (r : RetransmitEntry) → (enqueue_entry P R types s r).1.session ≡ s.session
  unfolding enqueue_entry
  queue-enqueue_entry s r = refl

  -- One round for each id that waits, and one more, are enough to end at an exit of the loop.
  pump-OutboundRun :
      (n i : ℕ) (clock : ℕ → ℕ) (s : Stack P R)
      → waiting s < n
      → OutboundRun P R types clock i s (pump_outbound P R types n i clock s)
  unfolding pump_outbound
  pump-OutboundRun zero i clock s h = absurd (omega arith)
  pump-OutboundRun (suc n) i clock s h =
      let session = (next_outbound P s.session (clock i)).1 in
      elim (Option-cases (next_outbound P s.session (clock i)).0) [
        | inl e ↦ rw (e, pump_outbound) (none_left e)
        | inr (r, e) ↦
            let t = (enqueue_entry P R types (record s { session = session }) r).1 in
            elim (Bool-cases (enqueue_entry P R types (record s { session = session }) r).0) [
              | inl taken ↦
                  rw (e, pump_outbound, taken)
                    (entry_queued e (ap (λ (d : Bool). (d, t)) taken) (
                      pump-OutboundRun n (i + 1) clock t (
                        omega (
                          arith,
                          ap (λ (x : Session P). length x.outbound_queue)
                              (queue-enqueue_entry (record s { session = session }) r),
                          next_outbound_shrinks P s.session (clock i) r e,
                        ))))
              | inr full ↦
                  rw (e, pump_outbound, full) (queue_full e (ap (λ (d : Bool). (d, t)) full))
            ]
      ]

  -- The loop of `handle_session_outbound` terminates: run without any bound on its rounds, it comes
  -- to one of its two exits, where there is no entry to send or the transmit queue refuses one, in
  -- the state that `handle_session_outbound` returns.
  pub handle_session_outbound-OutboundRun :
      (clock : ℕ → ℕ) (s : Stack P R)
      → OutboundRun P R types clock 0 s (handle_session_outbound P R types clock s)
  unfolding handle_session_outbound
  handle_session_outbound-OutboundRun clock s =
      pump-OutboundRun (suc (waiting s)) 0 clock s (omega arith)
