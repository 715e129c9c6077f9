-- ===== src/Session/Poll/Expiry.antt =====
-- Calls of `poll` of include/ReliableSession.hpp one after the other, as an application makes them
-- while no peer answers.
use florid_usb_protocols.Prelude.{
  ℕ, ◌+◌, ◌^◌, ◌≤◌, ◌<◌, ◌≡◌, refl, ap, ◌∙◌, inl, inr, true, none, some, List, [], ◌∷◌, ◌++◌, arith,
  length, Bool-cases,
}
use florid_usb_protocols.Platform.{Platform, IsPlatform}
use florid_usb_protocols.Platform.Total.{total, weight_of, total-erase}
use florid_usb_protocols.Session.{Session}
use florid_usb_protocols.Session.Entry.{PendingEntry, RetransmitEntry, Event}
use florid_usb_protocols.Session.Invariant.{IsValid}
use florid_usb_protocols.Session.Invariant.Poll.{poll-IsValid}
use florid_usb_protocols.Session.Poll.{poll, is_due, is_exhausted, retried}
use florid_usb_protocols.Session.Poll.Effect.{
  polled, resent, retries_for, retries_for-append, timeouts_of, timeouts_of-append, gives_up,
}
use florid_usb_protocols.Session.Poll.Outcome.{find-poll, retries-poll, timeouts-poll}

-- A call of `poll`: its first reading of the clock, and its readings for the entries.
abbrev pub Reading : Type 0
Reading = ℕ × (ℕ → ℕ)

unfoldable pub poll_all :
    (P : Platform) → List Reading → Session P → List RetransmitEntry × List Event × Session P
poll_all P [] s = ([], [], s)
poll_all P ((now, clock) ∷ rest) s =
    let (retries, events, s') = poll P now clock s in
    let (more, later, t) = poll_all P rest s' in (retries ++ more, events ++ later, t)

-- Every call finds the deadline of the entry `p` of `tx` passed, also after its retries.
abbrev pub IsLate : ℕ → PendingEntry → List Reading → Type 0
IsLate tx p [] = Unit
IsLate tx p ((now, clock) ∷ rest) = (p.deadline ≤ now) × IsLate tx (retried (clock tx) p) rest

module _ (P : Platform) (L : IsPlatform P) where
  -- An entry that is gone is not sent again, and does not come back.
  gone :
      (tx : ℕ) (polls : List Reading) (s : Session P)
      → IsValid P s
      → P.find PendingEntry tx s.pending ≡ none
      → (P.find PendingEntry tx (poll_all P polls s).2.pending ≡ none)
        × (retries_for tx (poll_all P polls s).0 ≡ [])
  unfolding poll_all
  gone tx [] s v h = (h, refl)
  gone tx ((now, clock) ∷ rest) s v h =
      let out = find-poll P L now clock s tx ∙ ap (polled now (clock tx)) h in
      let (still, none_sent) =
        gone tx rest (poll P now clock s).2 (poll-IsValid P L s now clock v) out in
      (
        still,
        ground (
          arith,
          retries_for-append tx (poll P now clock s).0 (poll_all P rest (poll P now clock s).2).0,
          retries-poll P L now clock s tx v.keyed,
          h,
          none_sent,
        ),
      )

  -- An entry counts for one in a sum over the map.
  total-entry :
      (weight : PendingEntry → ℕ) (tx : ℕ) (p : PendingEntry) (m : P.Map PendingEntry)
      → P.find PendingEntry tx m ≡ some p
      → weight p ≤ total weight (P.entries PendingEntry m)
  total-entry weight tx p m h =
      omega (arith, total-erase P L PendingEntry weight tx m, ap (weight_of weight) h)

  -- What has become of a request when `polls` are over: dropped, sent again as often as it had
  -- retries left, and its error callback told.
  pub record IsGivenUp (tx : ℕ) (p : PendingEntry)
      (r : List RetransmitEntry × List Event × Session P) : Type 0 where
    pub dropped : P.find PendingEntry tx r.2.pending ≡ none
    pub resends : length (retries_for tx r.0) + p.retry_count ≡ p.max_retries
    pub told : (cb : ℕ) → p.on_error ≡ some cb → 1 ≤ timeouts_of cb r.1

  pub unanswered-IsGivenUp :
      (tx : ℕ) (p : PendingEntry) (polls : List Reading) (s : Session P)
      → IsValid P s
      → P.find PendingEntry tx s.pending ≡ some p
      → p.inflight ≡ true
      → p.retry_count ≤ p.max_retries
      → p.max_retries < 2 ^ 8
      → p.max_retries < p.retry_count + length polls
      → IsLate tx p polls
      → IsGivenUp tx p (poll_all P polls s)
  unfolding poll_all
  unanswered-IsGivenUp tx p [] s v h flying low few enough late = ground (arith, low, enough)
  unanswered-IsGivenUp tx p ((now, clock) ∷ rest) s v h flying low few enough late =
      let due : is_due now p ≡ true = ground (arith, flying, late.0) in
      let after = find-poll P L now clock s tx ∙ ap (polled now (clock tx)) h in
      let sent = retries-poll P L now clock s tx v.keyed ∙ ap (resent now) h in
      let valid = poll-IsValid P L s now clock v in
      let s' = (poll P now clock s).2 in
      let split =
        retries_for-append tx (poll P now clock s).0 (poll_all P rest (poll P now clock s).2).0 in
      elim (Bool-cases (is_exhausted p)) [
        | inl dead ↦
            let end = gone tx rest s' valid (ground (arith, after, due, dead)) in
            record {
              dropped = end.0;
              resends = ground (arith, split, sent, due, dead, end.1, low);
              told = λ cb e. ground (
                arith,
                e,
                due,
                dead,
                timeouts_of-append cb (poll P now clock s).1 (poll_all P rest s').1,
                timeouts-poll P L now clock s cb,
                total-entry (gives_up now cb) tx p s.pending h,
              );
            }
        | inr alive ↦
            let q = retried (clock tx) p in
            let up : q.retry_count ≡ p.retry_count + 1 = ground (arith, alive, low, few) in
            let end =
              unanswered-IsGivenUp tx q rest s' valid (ground (arith, after, due, alive)) flying
                (ground (arith, alive, few)) few (ground (arith, alive, few, enough)) late.1 in
            record {
              dropped = end.dropped;
              resends = ground (arith, split, sent, due, alive, end.resends, up);
              told = λ cb e. omega (
                arith,
                timeouts_of-append cb (poll P now clock s).1 (poll_all P rest s').1,
                end.told cb e,
              );
            }
      ]
