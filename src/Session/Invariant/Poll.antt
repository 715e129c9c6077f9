-- ===== src/Session/Invariant/Poll.antt =====
-- `poll` of include/ReliableSession.hpp: it keeps a valid session valid.
use florid_usb_protocols.Prelude.{ℕ, ◌≡◌, refl, sym, ◌∙◌, Option, none, some, arith}
use florid_usb_protocols.Platform.{Platform, IsPlatform}
use florid_usb_protocols.Prelude.Eq.{nat_regular}
use florid_usb_protocols.Session.Entry.{PendingEntry}
use florid_usb_protocols.Session.{Session}
use florid_usb_protocols.Session.Poll.{poll}
use florid_usb_protocols.Session.Poll.Effect.{polled}
use florid_usb_protocols.Session.Poll.Outcome.{find-poll, poll-counted, inflight_count-poll-le}
use florid_usb_protocols.Session.Invariant.{IsValid}

module _ (P : Platform) (L : IsPlatform P) where
  -- What `poll` leaves in the map was there before, with the same ids and in flight as before.
  kept_by_poll :
      (now reread : ℕ) (o : Option PendingEntry) {q : PendingEntry}
      → polled now reread o ≡ some q
      → (p : PendingEntry) × (o ≡ some p) × (q.tx_id ≡ p.tx_id) × (q.inflight ≡ p.inflight)
  kept_by_poll now reread none h = cc
  kept_by_poll now reread (some p) h = (p, refl, ground arith, ground arith)

  -- With a map that behaves as documented, `poll` keeps a valid session valid.
  pub poll-IsValid :
      (s : Session P) (now : ℕ) (clock : ℕ → ℕ) → IsValid P s → IsValid P (poll P now clock s).2
  unfolding poll
  poll-IsValid s now clock v = record {
    counted = poll-counted P L now clock s v.counted;
    windowed = omega (arith, inflight_count-poll-le P L now clock s, v.windowed);
    open_window = v.open_window;
    keyed = λ j q h.
        let (p, e, id, _) = kept_by_poll now (clock j) _ (sym (find-poll P L now clock s j) ∙ h) in
        id ∙ v.keyed j p e;
    distinct = v.distinct;
    idle = λ j q h e.
        let (p, e', _, same) =
          kept_by_poll now (clock j) _ (sym (find-poll P L now clock s j) ∙ e) in
        same ∙ v.idle j p h e';
  }
