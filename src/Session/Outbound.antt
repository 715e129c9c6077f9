-- ===== src/Session/Outbound.antt =====
-- What `next_outbound` of include/ReliableSession.hpp takes from the outbound queue.
use florid_usb_protocols.Prelude.{ℕ, ◌<◌, ◌≡◌, some, List, [], ◌∷◌, arith, length}
use florid_usb_protocols.Platform.{Platform}
use florid_usb_protocols.Session.{Session, next_outbound, next_outbound_loop}
use florid_usb_protocols.Session.Entry.{RetransmitEntry}

module _ (P : Platform) where
  loop_shrinks :
      (s : Session P) (now : ℕ) (queue : List ℕ) (r : RetransmitEntry)
      → (next_outbound_loop P s now queue).0 ≡ some r
      → length (next_outbound_loop P s now queue).1.outbound_queue < length queue
  unfolding next_outbound_loop
  loop_shrinks s now [] r h = cc
  loop_shrinks s now (tx ∷ queue) r h = ground (arith, h, loop_shrinks s now queue r)

  -- An entry that is handed out has left the outbound queue.
  pub next_outbound_shrinks :
      (s : Session P) (now : ℕ) (r : RetransmitEntry)
      → (next_outbound P s now).0 ≡ some r
      → length (next_outbound P s now).1.outbound_queue < length s.outbound_queue
  unfolding next_outbound
  next_outbound_shrinks s now r h = loop_shrinks s now s.outbound_queue r h
