-- ===== src/Session/Poll/Outcome.antt =====
-- What `poll` of include/ReliableSession.hpp has done when it returns, for every transaction.
use florid_usb_protocols.Prelude.{
  ℕ, ◌≤◌, ◌≡◌, refl, ap, sym, ◌∙◌, inl, inr, some, [], arith, Option-cases, length,
}
use florid_usb_protocols.Platform.{Platform, IsPlatform}
use florid_usb_protocols.Platform.Lookup.{lookup}
use florid_usb_protocols.Platform.Total.{total, total_unique}
use florid_usb_protocols.Session.{Session}
use florid_usb_protocols.Session.Entry.{PendingEntry}
use florid_usb_protocols.Session.Poll.{poll_loop, poll, poll_from, Polled, PollRun}
use florid_usb_protocols.Session.Poll.Visits.{Visits, loop-Visits, loop-PollRun}
use florid_usb_protocols.Session.Poll.Effect.{
  polled, resent, retries_for, timeouts_of, gives_up, inflight_weight, Current, find-visit_all,
  retries-visit_all, timeouts-visit_all, Counted-visit_all, inflight_count-visit_all,
}

module _ (P : Platform) (L : IsPlatform P) (now : ℕ) (clock : ℕ → ℕ) (s : Session P) where
  pub whole : Visits P now clock (P.entries PendingEntry s.pending) (poll_from P now clock s) (
      poll_loop P now clock (length (P.entries PendingEntry s.pending)) 0 (poll_from P now clock s))
  unfolding poll_from
  whole = loop-Visits P now clock L _ [] _ _ refl (omega arith)

  abbrev looked : (tx : ℕ) → lookup tx whole.visited ≡ P.find PendingEntry tx s.pending
  looked tx = whole.same tx ∙ sym (L.find-entries PendingEntry tx s.pending)

  pub current : Current P L now clock whole.visited (poll_from P now clock s)
  unfolding poll_from
  current j q h = sym (looked j) ∙ h

  -- With a map that behaves as documented, whatever its order, the loop of `poll` over the map that
  -- it changes terminates: run without any bound on its rounds from the begin of the map, it comes
  -- to the end of the map, and what `poll` returns is made of the state in which it does.
  pub poll-PollRun :
      (r : Polled P) × PollRun P now clock 0 (poll_from P now clock s) r
      × (poll P now clock s ≡ (
        r.retries,
        r.callbacks,
        record s { pending = r.pending; inflight_count = r.inflight_count },
      ))
  unfolding poll poll_from
  poll-PollRun = (
    poll_loop P now clock (length (P.entries PendingEntry s.pending)) 0 (poll_from P now clock s),
    loop-PollRun P now clock L _ [] (P.entries PendingEntry s.pending) _ refl (omega arith),
    refl,
  )

  -- With a map that behaves as documented, whatever its order: `poll` leaves an entry alone that is
  -- not in flight or not due, drops one that is due and out of retries, and counts a retry of any
  -- other and gives it a new deadline; it adds none.
  pub find-poll :
      (tx : ℕ)
      → P.find PendingEntry tx (poll P now clock s).2.pending
        ≡ polled now (clock tx) (P.find PendingEntry tx s.pending)
  unfolding poll poll_from
  find-poll tx =
      ap (λ r. P.find PendingEntry tx r.pending) whole.all
      ∙ find-visit_all P L now clock whole.visited (poll_from P now clock s) tx whole.once current
      ∙ elim (Option-cases (P.find PendingEntry tx s.pending)) [
        | inl e ↦ ground (arith, looked tx, e)
        | inr (p, e) ↦ ground (arith, looked tx, e)
      ]

  -- With a map that behaves as documented, where each entry stands under its own transaction id:
  -- `poll` hands back the request of a transaction exactly once if its entry is in flight, due and
  -- not out of retries, and not at all otherwise.
  pub retries-poll :
      (tx : ℕ)
      → ((j : ℕ) (p : PendingEntry) → P.find PendingEntry j s.pending ≡ some p → p.tx_id ≡ j)
      → retries_for tx (poll P now clock s).0 ≡ resent now (P.find PendingEntry tx s.pending)
  unfolding poll poll_from
  retries-poll tx keyed =
      ap (λ r. retries_for tx r.retries) whole.all
      ∙ retries-visit_all P L now clock whole.visited (poll_from P now clock s) tx whole.once
          (λ j q h. keyed j q (sym (looked j) ∙ h))
      ∙ ap (resent now) (looked tx)

  -- With a map that behaves as documented: an error callback is called by `poll` once for each
  -- entry of its own that is in flight, due and out of retries, and for no other.
  pub timeouts-poll :
      (cb : ℕ)
      → timeouts_of cb (poll P now clock s).1
        ≡ total (gives_up now cb) (P.entries PendingEntry s.pending)
  unfolding poll poll_from
  timeouts-poll cb =
      ap (λ r. timeouts_of cb r.callbacks) whole.all
      ∙ timeouts-visit_all P L now clock whole.visited (poll_from P now clock s) cb
      ∙ omega (
        arith,
        total_unique (gives_up now cb) whole.visited (P.entries PendingEntry s.pending) whole.once
            (L.entries-Uniq PendingEntry s.pending) whole.same,
      )

  -- With a map that behaves as documented, `poll` keeps a right count of the entries in flight
  -- right.
  pub poll-counted :
      s.inflight_count ≡ total inflight_weight (P.entries PendingEntry s.pending)
      → (poll P now clock s).2.inflight_count
        ≡ total inflight_weight (P.entries PendingEntry (poll P now clock s).2.pending)
  unfolding poll poll_from
  poll-counted h =
      ap (λ r. r.inflight_count) whole.all
      ∙ Counted-visit_all P L now clock whole.visited (poll_from P now clock s) whole.once current h
      ∙ ap (λ r. total inflight_weight (P.entries PendingEntry r.pending)) (sym whole.all)

  pub inflight_count-poll-le : (poll P now clock s).2.inflight_count ≤ s.inflight_count
  unfolding poll poll_from
  inflight_count-poll-le = omega (
    arith,
    ap (λ r. r.inflight_count) whole.all,
    inflight_count-visit_all P L now clock whole.visited (poll_from P now clock s),
  )
