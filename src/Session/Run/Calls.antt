-- ===== src/Session/Run/Calls.antt =====
-- How often the operations of include/ReliableSession.hpp call a callback: what an operation calls
-- is paid for by the entries that it drops.
use florid_usb_protocols.Prelude.{
  ℕ, ◌+◌, ◌≤◌, ◌≡◌, refl, ap, inl, inr, ◌||◌, Option, none, some, List, [], ◌∷◌, ◌++◌, arith, ltb,
  ◌==◌, Bool-cases, Option-cases, if◌then◌else◌,
}
use florid_usb_protocols.Prelude.Eq.{nat_regular}
use florid_usb_protocols.Platform.{Platform, IsPlatform}
use florid_usb_protocols.Platform.Lookup.{Uniq}
use florid_usb_protocols.Platform.Total.{total, weight_of, total-insert, total-erase}
use florid_usb_protocols.IdRing.{test_and_insert, compose_dedup_key, seen_id_ring_bits}
use florid_usb_protocols.Session.{
  Session, on_ack, on_response, on_response_entry, next_outbound, next_outbound_loop,
}
use florid_usb_protocols.Session.Entry.{
  PendingEntry, SessionError, timed_out, Event, response, error, responded, failed,
}
use florid_usb_protocols.Session.Poll.{Polled, visit, poll, poll_from, retried}
use florid_usb_protocols.Session.Poll.Visits.{visit_all}
use florid_usb_protocols.Session.Poll.Effect.{is_callback, Current, Current-head, Current-visit}
use florid_usb_protocols.Session.Poll.Outcome.{whole, current}

-- How often the callback `cb` is called.
abbrev pub calls_of : ℕ → List Event → ℕ
calls_of cb [] = 0
calls_of cb (response c bytes ∷ es) = (if c == cb then 1 else 0) + calls_of cb es
calls_of cb (error c e ∷ es) = (if c == cb then 1 else 0) + calls_of cb es

-- 1 for two callbacks of which one is `cb`.
abbrev pub names : ℕ → Option ℕ × Option ℕ → ℕ
names cb (ok, err) = if is_callback cb ok || is_callback cb err then 1 else 0

-- 1 for an entry that has the callback `cb`.
abbrev pub uses : ℕ → PendingEntry → ℕ
uses cb p = names cb (p.on_response, p.on_error)

-- How many requests came with the callback `cb`.
abbrev pub sends_of : ℕ → List (Option ℕ × Option ℕ) → ℕ
sends_of cb [] = 0
sends_of cb (r ∷ rs) = names cb r + sends_of cb rs

pub calls_of-append :
    (cb : ℕ) (xs ys : List Event) → calls_of cb (xs ++ ys) ≡ calls_of cb xs + calls_of cb ys
calls_of-append cb [] ys = omega arith
calls_of-append cb (response c bytes ∷ xs) ys = omega (arith, calls_of-append cb xs ys)
calls_of-append cb (error c e ∷ xs) ys = omega (arith, calls_of-append cb xs ys)

calls_of-failed :
    (cb : ℕ) (ok o : Option ℕ) (e : SessionError) → calls_of cb (failed o e) ≤ names cb (ok, o)
calls_of-failed cb ok none e = ground arith
calls_of-failed cb ok (some c) e = ground arith

calls_of-responded :
    (cb : ℕ) (o err : Option ℕ) (bytes : List ℕ)
    → calls_of cb (responded o bytes) ≤ names cb (o, err)
calls_of-responded cb none err bytes = ground arith
calls_of-responded cb (some c) err bytes = ground arith

-- The pending entries that have the callback `cb`.
abbrev pub waiting : (P : Platform) → ℕ → P.Map PendingEntry → ℕ
waiting P cb m = total (uses cb) (P.entries PendingEntry m)

module _ (P : Platform) (L : IsPlatform P) (cb : ℕ) where
  abbrev pub spent : Session P × List Event → ℕ
  spent (s, events) = calls_of cb events + waiting P cb s.pending

  pub waiting-insert :
      (tx : ℕ) (p : PendingEntry) (m : P.Map PendingEntry)
      → waiting P cb (P.insert_or_assign PendingEntry tx p m) ≤ waiting P cb m + uses cb p
  waiting-insert tx p m = omega (arith, total-insert P L PendingEntry (uses cb) tx p m)

  -- An entry that keeps its callbacks.
  waiting-update :
      (tx : ℕ) (p q : PendingEntry) (m : P.Map PendingEntry)
      → P.find PendingEntry tx m ≡ some p
      → uses cb q ≡ uses cb p
      → waiting P cb (P.insert_or_assign PendingEntry tx q m) ≡ waiting P cb m
  waiting-update tx p q m e same =
      omega
        (arith, total-insert P L PendingEntry (uses cb) tx q m, ap (weight_of (uses cb)) e, same)

  waiting-erase :
      (tx : ℕ) (p : PendingEntry) (m : P.Map PendingEntry)
      → P.find PendingEntry tx m ≡ some p
      → waiting P cb (P.erase PendingEntry tx m) + uses cb p ≡ waiting P cb m
  waiting-erase tx p m e =
      omega (arith, total-erase P L PendingEntry (uses cb) tx m, ap (weight_of (uses cb)) e)

  pub waiting-on_ack :
      (s : Session P) (tx now : ℕ)
      → waiting P cb (on_ack P s tx now).pending ≡ waiting P cb s.pending
  unfolding on_ack
  waiting-on_ack s tx now = elim (Option-cases (P.find PendingEntry tx s.pending)) [
    | inl e ↦ rw e refl
    | inr (p, e) ↦ rw e (elim (Bool-cases p.inflight) [
      | inl flying ↦ simp flying (waiting-update tx p _ s.pending e refl)
      | inr idle ↦ simp idle refl
    ])
  ]

  -- A response calls the callback of the entry that it drops, or none.
  pub spent-on_response :
      (s : Session P) (cmd tx : ℕ) (bytes : List ℕ)
      → spent (on_response P s cmd tx bytes) ≤ waiting P cb s.pending
  unfolding on_response on_response_entry
  spent-on_response s cmd tx bytes =
      elim (Bool-cases
        (test_and_insert P.size_bits seen_id_ring_bits s.seen_responses
          (compose_dedup_key cmd tx)).0) [
            | inl seen ↦ rw seen (omega arith)
            | inr new ↦ rw new (elim (Option-cases (P.find PendingEntry tx s.pending)) [
              | inl e ↦ rw e (omega arith)
              | inr (p, e) ↦ rw e (
                  ground (
                    arith,
                    waiting-erase tx p s.pending e,
                    calls_of-responded cb p.on_response p.on_error bytes,
                  ))
            ])
          ]

  loop-waiting :
      (s : Session P) (now : ℕ) (queue : List ℕ)
      → waiting P cb (next_outbound_loop P s now queue).1.pending ≡ waiting P cb s.pending
  unfolding next_outbound_loop
  loop-waiting s now [] = refl
  loop-waiting s now (tx ∷ queue) = elim (Bool-cases (ltb s.inflight_count s.config.window_size)) [
    | inl room ↦ elim (Option-cases (P.find PendingEntry tx s.pending)) [
      | inl e ↦ rw (room, e) (loop-waiting s now queue)
      | inr (p, e) ↦ rw (room, e) (waiting-update tx p _ s.pending e refl)
    ]
    | inr shut ↦ rw shut refl
  ]

  pub waiting-next_outbound :
      (s : Session P) (now : ℕ)
      → waiting P cb (next_outbound P s now).1.pending ≡ waiting P cb s.pending
  unfolding next_outbound
  waiting-next_outbound s now = loop-waiting s now s.outbound_queue

  module _ (now : ℕ) (clock : ℕ → ℕ) where
    abbrev spent_by : Polled P → ℕ
    spent_by s = calls_of cb s.callbacks + waiting P cb s.pending

    spent-visit :
        (tx : ℕ) (p : PendingEntry) (s : Polled P)
        → P.find PendingEntry tx s.pending ≡ some p
        → spent_by (visit P now clock tx p s).1 ≤ spent_by s
    unfolding visit
    spent-visit tx p s e = ground (
      arith,
      calls_of-append cb s.callbacks (failed p.on_error timed_out),
      calls_of-failed cb p.on_response p.on_error timed_out,
      waiting-erase tx p s.pending e,
      waiting-update tx p (retried (clock tx) p) s.pending e refl,
    )

    spent-visit_all :
        (vs : List (ℕ × PendingEntry)) (s : Polled P)
        → Uniq vs
        → Current P L now clock vs s
        → spent_by (visit_all P now clock vs s) ≤ spent_by s
    unfolding visit_all
    spent-visit_all [] s u c = omega arith
    spent-visit_all ((tx, p) ∷ vs) s u c = omega (
      arith,
      spent-visit tx p s (Current-head P L now clock tx p vs s c),
      spent-visit_all vs (visit P now clock tx p s).1 u.1
          (Current-visit P L now clock tx p vs s u c),
    )

    -- `poll` calls the error callbacks of the entries that it drops.
    pub spent-poll :
        (s : Session P)
        → calls_of cb (poll P now clock s).1 + waiting P cb (poll P now clock s).2.pending
          ≤ waiting P cb s.pending
    unfolding poll poll_from
    spent-poll s = omega (
      arith,
      ap spent_by (whole P L now clock s).all,
      spent-visit_all (whole P L now clock s).visited (poll_from P now clock s)
          (whole P L now clock s).once (current P L now clock s),
    )
