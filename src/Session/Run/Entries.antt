-- ===== src/Session/Run/Entries.antt =====
-- Predicates on all entries that are pending in include/ReliableSession.hpp, from one operation to the
-- next.
use florid_usb_protocols.Prelude.{
  ℕ, ◌+◌, ◌≡◌, refl, subst, sym, ◌∙◌, inl, inr, true, false, Option, none, some, List, [], ◌∷◌,
  arith, ltb, ◌==◌, ==_iff, Bool-cases, Option-cases,
}
use florid_usb_protocols.Prelude.Eq.{nat_regular}
use florid_usb_protocols.Platform.{Platform, IsPlatform}
use florid_usb_protocols.IdRing.{test_and_insert, compose_dedup_key, seen_id_ring_bits}
use florid_usb_protocols.Session.{
  Session, on_ack, on_response, on_response_entry, next_outbound, next_outbound_loop,
}
use florid_usb_protocols.Session.Entry.{PendingEntry}
use florid_usb_protocols.Session.Poll.{poll, retried, is_due, is_exhausted}
use florid_usb_protocols.Session.Poll.Effect.{polled}
use florid_usb_protocols.Session.Poll.Outcome.{find-poll}

module _ (P : Platform) (Q : ℕ → PendingEntry → Type 0) where
  abbrev pub AllPending : P.Map PendingEntry → Type 0
  AllPending m = (tx : ℕ) (p : PendingEntry) → P.find PendingEntry tx m ≡ some p → Q tx p

module _ (P : Platform) (L : IsPlatform P) (Q : ℕ → PendingEntry → Type 0) where
  pub AllPending-insert :
      (tx : ℕ) (p : PendingEntry) (m : P.Map PendingEntry)
      → Q tx p
      → AllPending P Q m
      → AllPending P Q (P.insert_or_assign PendingEntry tx p m)
  AllPending-insert tx p m new old j q h = elim (Bool-cases (tx == j)) [
    | inl e ↦
        let same : tx ≡ j = (==_iff tx j).0 e in
        let here : p ≡ q = ground (arith, h, e, L.find-insert PendingEntry j tx p m) in
        subst (λ i. Q i q) same (subst (Q tx) here new)
    | inr e ↦ old j q (ground (arith, h, e, L.find-insert PendingEntry j tx p m))
  ]

  pub AllPending-erase :
      (tx : ℕ) (m : P.Map PendingEntry)
      → AllPending P Q m
      → AllPending P Q (P.erase PendingEntry tx m)
  AllPending-erase tx m old j q h = old j q (ground (arith, h, L.find-erase PendingEntry j tx m))

  -- A predicate that a place in the window, more time and a counted retry do not break.
  pub record IsKept : Type 0 where
    pub fly :
        (tx now : ℕ) (p : PendingEntry)
        → Q tx p
        → Q tx (record p { inflight = true; deadline = now + p.timeout })
    pub retry :
        (tx now : ℕ) (p : PendingEntry) → is_exhausted p ≡ false → Q tx p → Q tx (retried now p)

  module _ (keep : IsKept) where
    pub AllPending-on_ack :
        (s : Session P) (tx now : ℕ)
        → AllPending P Q s.pending
        → AllPending P Q (on_ack P s tx now).pending
    unfolding on_ack
    AllPending-on_ack s tx now h = elim (Option-cases (P.find PendingEntry tx s.pending)) [
      | inl e ↦ rw e h
      | inr (p, e) ↦ rw e (elim (Bool-cases p.inflight) [
        | inl flying ↦ simp flying (
            AllPending-insert tx (record p { inflight = true; deadline = now + p.timeout })
              s.pending (keep.fly tx now p (h tx p e)) h)
        | inr idle ↦ simp idle h
      ])
    ]

    pub AllPending-on_response :
        (s : Session P) (cmd tx : ℕ) (bytes : List ℕ)
        → AllPending P Q s.pending
        → AllPending P Q (on_response P s cmd tx bytes).0.pending
    unfolding on_response on_response_entry
    AllPending-on_response s cmd tx bytes h =
        elim (Bool-cases
          (test_and_insert P.size_bits seen_id_ring_bits s.seen_responses
            (compose_dedup_key cmd tx)).0) [
              | inl seen ↦ rw seen h
              | inr new ↦ rw new (elim (Option-cases (P.find PendingEntry tx s.pending)) [
                | inl e ↦ rw e h
                | inr (p, e) ↦ rw e (AllPending-erase tx s.pending h)
              ])
            ]

    loop-AllPending :
        (s : Session P) (now : ℕ) (queue : List ℕ)
        → AllPending P Q s.pending
        → AllPending P Q (next_outbound_loop P s now queue).1.pending
    unfolding next_outbound_loop
    loop-AllPending s now [] h = h
    loop-AllPending s now (tx ∷ queue) h =
        elim (Bool-cases (ltb s.inflight_count s.config.window_size)) [
          | inl room ↦ elim (Option-cases (P.find PendingEntry tx s.pending)) [
            | inl e ↦ rw (room, e) (loop-AllPending s now queue h)
            | inr (p, e) ↦
                rw (room, e) (AllPending-insert tx _ s.pending (keep.fly tx now p (h tx p e)) h)
          ]
          | inr shut ↦ rw shut h
        ]

    pub AllPending-next_outbound :
        (s : Session P) (now : ℕ)
        → AllPending P Q s.pending
        → AllPending P Q (next_outbound P s now).1.pending
    unfolding next_outbound
    AllPending-next_outbound s now h = loop-AllPending s now s.outbound_queue h

    pub AllPending-poll :
        (s : Session P) (now : ℕ) (clock : ℕ → ℕ)
        → AllPending P Q s.pending
        → AllPending P Q (poll P now clock s).2.pending
    AllPending-poll s now clock h tx q e =
        go (P.find PendingEntry tx s.pending) refl (sym (find-poll P L now clock s tx) ∙ e)
      where
        go :
            (o : Option PendingEntry)
            → P.find PendingEntry tx s.pending ≡ o
            → polled now (clock tx) o ≡ some q
            → Q tx q
        go none was now_is = cc
        go (some p) was now_is = elim (Bool-cases (is_due now p)) [
          | inl due ↦ elim (Bool-cases (is_exhausted p)) [
            | inl dead ↦ ground (arith, due, dead, now_is)
            | inr alive ↦
                let here : retried (clock tx) p ≡ q = ground (arith, due, alive, now_is) in
                subst (Q tx) here (keep.retry tx (clock tx) p alive (h tx p was))
          ]
          | inr early ↦
              let here : p ≡ q = ground (arith, early, now_is) in subst (Q tx) here (h tx p was)
        ]
