-- ===== src/Session/Poll/Effect.antt =====
-- What one visit of `poll` does, and the effect of the whole loop, in
-- include/ReliableSession.hpp.
use florid_usb_protocols.Prelude.{
  ℕ, ◌+◌, ◌≤◌, ◌≡◌, refl, sym, Bool, false, not, ◌&&◌, Option, none, some, List, [], ◌∷◌, ◌++◌,
  append-nil, arith, ◌==◌, ==_refl, if◌then◌else◌,
}
use florid_usb_protocols.Platform.{Platform, IsPlatform}
use florid_usb_protocols.Platform.Lookup.{lookup, Uniq}
use florid_usb_protocols.Platform.Total.{total, total-insert, total-erase}
use florid_usb_protocols.Session.Entry.{
  PendingEntry, RetransmitEntry, timed_out, transport_failure, Event, response, error, failed,
  entry_of,
}
use florid_usb_protocols.Session.Poll.{Polled, is_due, is_exhausted, retried, visit}
use florid_usb_protocols.Session.Poll.Visits.{visit_all}

-- What becomes of an entry: kept, dropped when out of retries, or counted and given more time.
abbrev pub polled_entry : (now reread : ℕ) → PendingEntry → Option PendingEntry
polled_entry now reread p =
    if is_due now p then (if is_exhausted p then none else some (retried reread p)) else some p

abbrev pub polled : (now reread : ℕ) → Option PendingEntry → Option PendingEntry
polled now reread none = none
polled now reread (some p) = polled_entry now reread p

-- What is sent again for an entry: its request, once, if it is due and has retries left.
abbrev pub resent : ℕ → Option PendingEntry → List RetransmitEntry
resent now none = []
resent now (some p) = if is_due now p && not (is_exhausted p) then entry_of p ∷ [] else []

-- The results that are for the transaction `tx`.
abbrev pub retries_for : ℕ → List RetransmitEntry → List RetransmitEntry
retries_for tx [] = []
retries_for tx (r ∷ rs) = if r.tx_id == tx then r ∷ retries_for tx rs else retries_for tx rs

-- How often the callback `cb` is told of a timeout.
abbrev pub timeouts_of : ℕ → List Event → ℕ
timeouts_of cb [] = 0
timeouts_of cb (response c bytes ∷ es) = timeouts_of cb es
timeouts_of cb (error c timed_out ∷ es) = (if c == cb then 1 else 0) + timeouts_of cb es
timeouts_of cb (error c transport_failure ∷ es) = timeouts_of cb es

abbrev pub is_callback : ℕ → Option ℕ → Bool
is_callback cb none = false
is_callback cb (some c) = c == cb

-- 1 for an entry that is due, out of retries, and has the error callback `cb`.
abbrev pub gives_up : (now cb : ℕ) → PendingEntry → ℕ
gives_up now cb p =
    if is_due now p && is_exhausted p then (if is_callback cb p.on_error then 1 else 0) else 0

abbrev pub inflight_weight : PendingEntry → ℕ
inflight_weight p = if p.inflight then 1 else 0

pub retries_for-append :
    (tx : ℕ) (xs ys : List RetransmitEntry)
    → retries_for tx (xs ++ ys) ≡ retries_for tx xs ++ retries_for tx ys
retries_for-append tx [] ys = refl
retries_for-append tx (x ∷ xs) ys = ground (arith, retries_for-append tx xs ys)

pub timeouts_of-append :
    (cb : ℕ) (xs ys : List Event)
    → timeouts_of cb (xs ++ ys) ≡ timeouts_of cb xs + timeouts_of cb ys
timeouts_of-append cb [] ys = omega arith
timeouts_of-append cb (response c bytes ∷ xs) ys = timeouts_of-append cb xs ys
timeouts_of-append cb (error c timed_out ∷ xs) ys = omega (arith, timeouts_of-append cb xs ys)
timeouts_of-append cb (error c transport_failure ∷ xs) ys = timeouts_of-append cb xs ys

timeouts_of-failed :
    (cb : ℕ) (o : Option ℕ)
    → timeouts_of cb (failed o timed_out) ≡ (if is_callback cb o then 1 else 0)
timeouts_of-failed cb none = refl
timeouts_of-failed cb (some c) = omega arith

module _ (P : Platform) (L : IsPlatform P) (now : ℕ) (clock : ℕ → ℕ) where
  -- The entry of another transaction stays, and that of `tx` becomes as `polled_entry` says.
  find-visit :
      (j tx : ℕ) (p : PendingEntry) (s : Polled P)
      → P.find PendingEntry tx s.pending ≡ some p
      → P.find PendingEntry j (visit P now clock tx p s).1.pending
        ≡ (if tx == j then polled_entry now (clock tx) p else P.find PendingEntry j s.pending)
  unfolding visit
  find-visit j tx p s h = ground (
    arith,
    h,
    L.find-insert PendingEntry j tx (retried (clock tx) p) s.pending,
    L.find-erase PendingEntry j tx s.pending,
  )

  -- The list has the values that the entries have in the map.
  abbrev pub Current : List (ℕ × PendingEntry) → Polled P → Type 0
  Current vs s =
      (j : ℕ) (q : PendingEntry) → lookup j vs ≡ some q → P.find PendingEntry j s.pending ≡ some q

  pub Current-head :
      (tx : ℕ) (p : PendingEntry) (vs : List (ℕ × PendingEntry)) (s : Polled P)
      → Current ((tx, p) ∷ vs) s
      → P.find PendingEntry tx s.pending ≡ some p
  Current-head tx p vs s c = c tx p (rw (==_refl tx) refl)

  pub Current-visit :
      (tx : ℕ) (p : PendingEntry) (vs : List (ℕ × PendingEntry)) (s : Polled P)
      → Uniq ((tx, p) ∷ vs)
      → Current ((tx, p) ∷ vs) s
      → Current vs (visit P now clock tx p s).1
  Current-visit tx p vs s u c j q h =
      ground (arith, u.0, find-visit j tx p s (Current-head tx p vs s c), c j q)

  pub find-visit_all :
      (vs : List (ℕ × PendingEntry)) (s : Polled P) (j : ℕ)
      → Uniq vs
      → Current vs s
      → P.find PendingEntry j (visit_all P now clock vs s).pending ≡ elim (lookup j vs) [
        | none ↦ P.find PendingEntry j s.pending
        | some q ↦ polled_entry now (clock j) q
      ]
  unfolding visit_all
  find-visit_all [] s j u c = refl
  find-visit_all ((tx, p) ∷ vs) s j u c = ground (
    arith,
    u.0,
    find-visit j tx p s (Current-head tx p vs s c),
    find-visit_all vs (visit P now clock tx p s).1 j u.1 (Current-visit tx p vs s u c),
  )

  retries-visit :
      (j tx : ℕ) (p : PendingEntry) (s : Polled P)
      → p.tx_id ≡ tx
      → retries_for j (visit P now clock tx p s).1.retries
        ≡ retries_for j s.retries ++ (if tx == j then resent now (some p) else [])
  unfolding visit
  retries-visit j tx p s h = ground (
    arith,
    retries_for-append j s.retries (entry_of p ∷ []),
    append-nil (retries_for j s.retries),
  )

  pub retries-visit_all :
      (vs : List (ℕ × PendingEntry)) (s : Polled P) (j : ℕ)
      → Uniq vs
      → ((tx : ℕ) (q : PendingEntry) → lookup tx vs ≡ some q → q.tx_id ≡ tx)
      → retries_for j (visit_all P now clock vs s).retries
        ≡ retries_for j s.retries ++ resent now (lookup j vs)
  unfolding visit_all
  retries-visit_all [] s j u c = sym (append-nil _)
  retries-visit_all ((tx, p) ∷ vs) s j u c = ground (
    arith,
    u.0,
    retries-visit_all vs (visit P now clock tx p s).1 j u.1
        (λ k q h. c k q (ground (arith, u.0, h))),
    retries-visit j tx p s (c tx p (rw (==_refl tx) refl)),
    append-nil (retries_for j s.retries),
    append-nil (retries_for j s.retries ++ resent now (some p)),
  )

  pub timeouts-visit_all :
      (vs : List (ℕ × PendingEntry)) (s : Polled P) (cb : ℕ)
      → timeouts_of cb (visit_all P now clock vs s).callbacks
        ≡ timeouts_of cb s.callbacks + total (gives_up now cb) vs
  unfolding visit_all visit
  timeouts-visit_all [] s cb = omega arith
  timeouts-visit_all ((tx, p) ∷ vs) s cb = ground (
    arith,
    timeouts-visit_all vs (visit P now clock tx p s).1 cb,
    timeouts_of-append cb s.callbacks (failed p.on_error timed_out),
    timeouts_of-failed cb p.on_error,
  )

  abbrev pub Counted : Polled P → Type 0
  Counted s = s.inflight_count ≡ total inflight_weight (P.entries PendingEntry s.pending)

  Counted-visit :
      (tx : ℕ) (p : PendingEntry) (s : Polled P)
      → P.find PendingEntry tx s.pending ≡ some p
      → Counted s
      → Counted (visit P now clock tx p s).1
  unfolding visit
  Counted-visit tx p s h c = ground (
    arith,
    h,
    total-insert P L PendingEntry inflight_weight tx (retried (clock tx) p) s.pending,
    total-erase P L PendingEntry inflight_weight tx s.pending,
  )

  pub Counted-visit_all :
      (vs : List (ℕ × PendingEntry)) (s : Polled P)
      → Uniq vs
      → Current vs s
      → Counted s
      → Counted (visit_all P now clock vs s)
  unfolding visit_all
  Counted-visit_all [] s u c h = h
  Counted-visit_all ((tx, p) ∷ vs) s u c h =
      Counted-visit_all vs (visit P now clock tx p s).1 u.1 (Current-visit tx p vs s u c)
        (Counted-visit tx p s (Current-head tx p vs s c) h)

  -- No visit takes a slot.
  pub inflight_count-visit_all :
      (vs : List (ℕ × PendingEntry)) (s : Polled P)
      → (visit_all P now clock vs s).inflight_count ≤ s.inflight_count
  unfolding visit_all visit
  inflight_count-visit_all [] s = omega arith
  inflight_count-visit_all ((tx, p) ∷ vs) s =
      ground (arith, inflight_count-visit_all vs (visit P now clock tx p s).1)
