-- ===== src/Session/Poll.antt =====
-- `poll` of include/ReliableSession.hpp. `now` is its first reading of the clock, and `clock tx` the
-- one that it makes when it retries the entry of `tx`. The pointers of its results lead into the
-- map: the loop moves no entry that it has passed, so they are shown as the bytes behind them.
pub mod Visits
pub mod Effect
pub mod Outcome
pub mod Expiry
use florid_usb_protocols.Prelude.{
  ℕ, zero, suc, ◌+◌, ◌%◌, ◌^◌, Bool, true, false, not, ◌||◌, ◌≡◌, none, some, List, [], ◌∷◌, ◌++◌,
  length, get_elem?, ltb, leb, if◌then◌else◌,
}
use florid_usb_protocols.Platform.{Platform}
use florid_usb_protocols.Session.Entry.{
  PendingEntry, RetransmitEntry, timed_out, Event, failed, entry_of,
}
use florid_usb_protocols.Session.{Session, release_slot}

-- What the loop changes.
pub record Polled (P : Platform) : Type 0 where
  pub pending : P.Map PendingEntry
  pub inflight_count : ℕ
  pub retries : List RetransmitEntry
  pub callbacks : List Event

-- An entry that `poll` does not skip.
abbrev pub is_due : ℕ → PendingEntry → Bool
is_due now p = not (not p.inflight || ltb now p.deadline)

abbrev pub is_exhausted : PendingEntry → Bool
is_exhausted p = leb p.max_retries p.retry_count

abbrev pub retried : ℕ → PendingEntry → PendingEntry
retried now p = record p { retry_count = (p.retry_count + 1) % 2 ^ 8; deadline = now + p.timeout }

module _ (P : Platform) (now : ℕ) (clock : ℕ → ℕ) where
  -- The body of the loop at the entry `p` of `tx`: whether it is erased, and what changes.
  unfoldable pub visit : ℕ → PendingEntry → Polled P → Bool × Polled P
  visit tx p s =
      if not (is_due now p)
      then (false, s)
      else if is_exhausted p
      then (
        true,
        record s {
          pending = P.erase PendingEntry tx s.pending;
          inflight_count = release_slot p s.inflight_count;
          callbacks = s.callbacks ++ failed p.on_error timed_out;
        },
      )
      else (
        false,
        record s {
          pending = P.insert_or_assign PendingEntry tx (retried (clock tx) p) s.pending;
          retries = s.retries ++ (entry_of p ∷ []);
        },
      )

  -- `it` is the position `i`; `erase` returns the same position. Each round brings the end nearer
  -- by one, so the number of entries is enough rounds.
  unfoldable pub poll_loop : (rounds i : ℕ) → Polled P → Polled P
  poll_loop zero i s = s
  poll_loop (suc n) i s = elim (get_elem? (P.entries PendingEntry s.pending) i) [
    | none ↦ s
    | some (tx, p) ↦ let (erased, s') = visit tx p s in poll_loop n (if erased then i else i + 1) s'
  ]

  -- The loop as it is in the source, with no number of rounds: from the position `i` in the state
  -- `s` it ends in the state `t`, when `it` is at the end of the map.
  pub data PollRun : ℕ → Polled P → Polled P → Type 0 where
    at_end :
        {i : ℕ} {s : Polled P}
        → get_elem? (P.entries PendingEntry s.pending) i ≡ none
        → PollRun i s s
    visited :
        {i tx : ℕ} {p : PendingEntry} {s t : Polled P}
        → get_elem? (P.entries PendingEntry s.pending) i ≡ some (tx, p)
        → PollRun (if (visit tx p s).0 then i else i + 1) (visit tx p s).1 t
        → PollRun i s t

  unfoldable pub poll_from : Session P → Polled P
  poll_from s = record {
    pending = s.pending;
    inflight_count = s.inflight_count;
    retries = [];
    callbacks = [];
  }

  -- The callbacks run when the loop is done, in its order.
  unfoldable pub poll : Session P → List RetransmitEntry × List Event × Session P
  unfolding poll_from
  poll s =
      let r = poll_loop (length (P.entries PendingEntry s.pending)) 0 (poll_from s) in
      (r.retries, r.callbacks, record s { pending = r.pending; inflight_count = r.inflight_count })
