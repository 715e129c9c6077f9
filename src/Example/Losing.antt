-- ===== src/Example/Losing.antt =====
-- The cycles of the host of examples/send_serial.cpp in which nothing comes in and the request is due:
-- it is sent again, or given up.
use florid_usb_protocols.Prelude.{
  ℕ, ◌+◌, ◌%◌, ◌^◌, ◌≤◌, ◌<◌, ◌≡◌, refl, sym, ap, ◌∙◌, false, some, List, [], ◌∷◌, arith, ltb, leb,
  ==_refl, length, get_elem?,
}
use florid_usb_protocols.Platform.{Platform, IsPlatform}
use florid_usb_protocols.Platform.Lookup.{lookup_single}
use florid_usb_protocols.Session.{Session, release_slot}
use florid_usb_protocols.Session.Entry.{PendingEntry, error, timed_out, entry_of}
use florid_usb_protocols.Session.Poll.{retried, visit, poll_loop, poll_from, poll, Polled}
use florid_usb_protocols.Example.Waiting.{flying, IsWaiting}

module _ (P : Platform) (L : IsPlatform P) (tx : ℕ) (asking : List ℕ) (asked : ℕ) where
  -- The map of a session that waits holds the one entry.
  waiting-entries :
      (retries deadline : ℕ) (s : Session P)
      → IsWaiting P L tx asking asked retries deadline s
      → P.entries PendingEntry s.pending ≡ (tx, flying tx asking asked retries deadline) ∷ []
  waiting-entries retries deadline s w =
      lookup_single tx (flying tx asking asked retries deadline) (P.entries PendingEntry s.pending)
        (L.entries-Uniq PendingEntry s.pending)
        (sym (L.find-entries PendingEntry tx s.pending) ∙ w.here)
        (λ k other. sym (L.find-entries PendingEntry k s.pending) ∙ w.alone k other)

  -- The session, when the request is sent again.
  abbrev pub again : (retries deadline now : ℕ) → Session P → Session P
  again retries deadline now s = record s {
    pending =
        P.insert_or_assign PendingEntry tx (retried now (flying tx asking asked retries deadline))
          s.pending;
  }

  poll_one :
      (now : ℕ) (clock : ℕ → ℕ) (p : PendingEntry) (s : Session P)
      → P.entries PendingEntry s.pending ≡ (tx, p) ∷ []
      → poll_loop P now clock
          (length (P.entries PendingEntry s.pending))
          0
          (poll_from P now clock s)
        ≡ (visit P now clock tx p (poll_from P now clock s)).1
  unfolding poll_loop poll_from
  poll_one now clock p s e =
      ap
        (λ (es : List (ℕ × PendingEntry)).
          poll_loop P now clock (length es) 0 (poll_from P now clock s))
        e
      ∙ rw (poll_loop, ap (λ (es : List (ℕ × PendingEntry)). get_elem? es 0) e) refl

  pub poll-again :
      (now retries deadline : ℕ) (clock : ℕ → ℕ) (s : Session P)
      → IsWaiting P L tx asking asked retries deadline s
      → retries < 3
      → deadline ≤ now
      → poll P now clock s ≡ (
        entry_of (flying tx asking asked retries deadline) ∷ [],
        [],
        again retries deadline (clock tx) s,
      )
  unfolding poll poll_from visit
  poll-again now retries deadline clock s w few late =
      let due : ltb now deadline ≡ false = ground (arith, late) in
      let left : leb 3 retries ≡ false = ground (arith, few) in
      ap
        (λ (r : Polled P). (
          r.retries,
          r.callbacks,
          record s { pending = r.pending; inflight_count = r.inflight_count },
        ))
        (poll_one now clock (flying tx asking asked retries deadline) s
            (waiting-entries retries deadline s w)
          ∙ rw (visit, due, left) refl)

  pub again-IsWaiting :
      (retries deadline now : ℕ) (s : Session P)
      → IsWaiting P L tx asking asked retries deadline s
      → retries < 3
      → IsWaiting P L tx asking asked (retries + 1) (now + 200000) (again retries deadline now s)
  again-IsWaiting retries deadline now s w few = record {
    none_queued = w.none_queued;
    here =
        L.find-insert PendingEntry tx tx _ _
        ∙ rw (==_refl tx) (
            ap (λ (n : ℕ). some (flying tx asking asked n (now + 200000)))
              (let small : (retries + 1) % 2 ^ 8 ≡ retries + 1 = omega (arith, few) in small));
    alone = λ k other. L.find-insert PendingEntry k tx _ _ ∙ rw other (w.alone k other);
    unseen = w.unseen;
  }

  -- The session, when the request is given up.
  abbrev pub given_up : (retries deadline : ℕ) → Session P → Session P
  given_up retries deadline s = record s {
    pending = P.erase PendingEntry tx s.pending;
    inflight_count = release_slot (flying tx asking asked retries deadline) s.inflight_count;
  }

  pub poll_gives_up :
      (now deadline : ℕ) (clock : ℕ → ℕ) (s : Session P)
      → IsWaiting P L tx asking asked 3 deadline s
      → deadline ≤ now
      → poll P now clock s ≡ ([], error 1 timed_out ∷ [], given_up 3 deadline s)
  unfolding poll poll_from visit
  poll_gives_up now deadline clock s w late =
      let due : ltb now deadline ≡ false = ground (arith, late) in
      ap
        (λ (r : Polled P). (
          r.retries,
          r.callbacks,
          record s { pending = r.pending; inflight_count = r.inflight_count },
        ))
        (poll_one now clock (flying tx asking asked 3 deadline) s (waiting-entries 3 deadline s w)
          ∙ rw (visit, due) refl)
