-- ===== src/Session/Invariant/Outbound.antt =====
-- `next_outbound` of include/ReliableSession.hpp: it keeps a valid session valid.
use florid_usb_protocols.Prelude.{
  ℕ, ◌+◌, refl, sym, ◌∙◌, inl, inr, true, ltb→lt, ==_refl, List, [], ◌∷◌, arith, ltb, Bool-cases,
  Option-cases,
}
use florid_usb_protocols.Platform.{Platform, IsPlatform}
use florid_usb_protocols.Platform.Total.{total-insert}
use florid_usb_protocols.Prelude.Eq.{nat_regular}
use florid_usb_protocols.Session.Entry.{PendingEntry}
use florid_usb_protocols.Session.{Session, next_outbound, next_outbound_loop}
use florid_usb_protocols.Session.Poll.Effect.{inflight_weight}
use florid_usb_protocols.Session.Invariant.{IsValid, AreIdle, Keyed-insert, AreIdle-insert}

module _ (P : Platform) (L : IsPlatform P) where
  -- A request goes out only while the window has room, and takes one slot.
  next_outbound_loop-IsValid :
      (s : Session P) (now : ℕ) (queue : List ℕ)
      → IsValid P (record s { outbound_queue = queue })
      → IsValid P (next_outbound_loop P s now queue).1
  unfolding next_outbound_loop
  next_outbound_loop-IsValid s now [] v = v
  next_outbound_loop-IsValid s now (tx ∷ queue) v =
      elim (Bool-cases (ltb s.inflight_count s.config.window_size)) [
        | inl room ↦ elim (Option-cases (P.find PendingEntry tx s.pending)) [
          | inl e ↦
              rw (room, e)
                (next_outbound_loop-IsValid s now queue (record {
                  counted = v.counted;
                  windowed = v.windowed;
                  open_window = v.open_window;
                  keyed = v.keyed;
                  distinct = v.distinct.1;
                  idle = others tx queue v.idle;
                }))
          | inr (p, e) ↦
              rw (room, e)
                (record {
                  counted = ground (
                    arith,
                    e,
                    v.counted,
                    v.idle tx p (rw (==_refl tx) refl) e,
                    total-insert P L PendingEntry inflight_weight tx
                        (record p { inflight = true; deadline = now + p.timeout }) s.pending,
                  );
                  windowed = omega (arith, ltb→lt s.inflight_count s.config.window_size room);
                  open_window = v.open_window;
                  keyed = Keyed-insert P L tx _ s.pending (v.keyed tx p e) v.keyed;
                  distinct = v.distinct.1;
                  idle =
                      AreIdle-insert P L queue tx _ s.pending (λ h. sym h ∙ v.distinct.0)
                        (others tx queue v.idle);
                })
        ]
        | inr shut ↦ rw shut v
      ]
    where
      others :
          (tx : ℕ) (queue : List ℕ) → AreIdle P (tx ∷ queue) s.pending → AreIdle P queue s.pending
      others tx queue old j q h e = old j q (ground arith) e

  -- With a map that behaves as documented, `next_outbound` keeps a valid session valid: the count
  -- is that of the entries in flight, which fit the window, and no id of the outbound queue is in
  -- flight.
  pub next_outbound-IsValid :
      (s : Session P) (now : ℕ) → IsValid P s → IsValid P (next_outbound P s now).1
  unfolding next_outbound
  next_outbound-IsValid s now v = next_outbound_loop-IsValid s now s.outbound_queue v
