-- ===== src/Session/Run/Numbers.antt =====
-- The counter of transaction ids and the outbound queue of include/ReliableSession.hpp: which
-- operations leave them alone.
use florid_usb_protocols.Prelude.{
  ℕ, ◌≡◌, refl, inl, inr, true, List, [], ◌∷◌, arith, ltb, Bool-cases, Option-cases,
}
use florid_usb_protocols.Prelude.Eq.{nat_regular}
use florid_usb_protocols.Platform.{Platform}
use florid_usb_protocols.IdRing.{test_and_insert, compose_dedup_key, seen_id_ring_bits}
use florid_usb_protocols.Session.{
  Session, on_ack, on_response, on_response_entry, next_outbound, next_outbound_loop,
}
use florid_usb_protocols.Session.Entry.{PendingEntry}
use florid_usb_protocols.Session.Device.{on_request}
use florid_usb_protocols.Session.Invariant.{is_queued}

module _ (P : Platform) where
  -- Two sessions with the same counter and the same queue.
  abbrev pub SameNumbers : Session P → Session P → Type 0
  SameNumbers s t = (s.next_tx_id ≡ t.next_tx_id) × (s.outbound_queue ≡ t.outbound_queue)

  pub numbers-on_ack : (s : Session P) (tx now : ℕ) → SameNumbers (on_ack P s tx now) s
  unfolding on_ack
  numbers-on_ack s tx now = elim (Option-cases (P.find PendingEntry tx s.pending)) [
    | inl e ↦ rw e (refl, refl)
    | inr (p, e) ↦ rw e (elim (Bool-cases p.inflight) [
      | inl flying ↦ simp flying (refl, refl)
      | inr idle ↦ simp idle (refl, refl)
    ])
  ]

  pub numbers-on_response :
      (s : Session P) (cmd tx : ℕ) (bytes : List ℕ) → SameNumbers (on_response P s cmd tx bytes).0 s
  unfolding on_response on_response_entry
  numbers-on_response s cmd tx bytes =
      elim (Bool-cases
        (test_and_insert P.size_bits seen_id_ring_bits s.seen_responses
          (compose_dedup_key cmd tx)).0) [
            | inl seen ↦ rw seen (refl, refl)
            | inr new ↦ rw new (elim (Option-cases (P.find PendingEntry tx s.pending)) [
              | inl e ↦ rw e (refl, refl)
              | inr (p, e) ↦ rw e (refl, refl)
            ])
          ]

  pub numbers-on_request :
      (s : Session P) (cmd tx : ℕ)
      → SameNumbers (on_request P s cmd tx).1 s × ((on_request P s cmd tx).1.pending ≡ s.pending)
  unfolding on_request
  numbers-on_request s cmd tx =
      elim (Bool-cases
        (test_and_insert P.size_bits seen_id_ring_bits s.seen_requests
          (compose_dedup_key cmd tx)).0) [
            | inl e ↦ rw e ((refl, refl), refl)
            | inr e ↦ rw e ((refl, refl), refl)
          ]

  loop_numbers :
      (s : Session P) (now : ℕ) (queue : List ℕ)
      → ((next_outbound_loop P s now queue).1.next_tx_id ≡ s.next_tx_id)
        × ((tx : ℕ)
            → is_queued tx (next_outbound_loop P s now queue).1.outbound_queue ≡ true
            → is_queued tx queue ≡ true)
  unfolding next_outbound_loop
  loop_numbers s now [] = (refl, λ tx h. h)
  loop_numbers s now (x ∷ queue) = elim (Bool-cases (ltb s.inflight_count s.config.window_size)) [
    | inl room ↦ elim (Option-cases (P.find PendingEntry x s.pending)) [
      | inl e ↦
          rw (room, e)
            (
              (loop_numbers s now queue).0,
              λ tx h. ground (arith, (loop_numbers s now queue).1 tx h),
            )
      | inr (p, e) ↦ rw (room, e) ((refl, λ tx h. ground (arith, h)))
    ]
    | inr shut ↦ rw shut ((refl, λ tx h. h))
  ]

  -- `next_outbound` only takes ids out of the queue.
  pub numbers-next_outbound :
      (s : Session P) (now : ℕ)
      → ((next_outbound P s now).1.next_tx_id ≡ s.next_tx_id)
        × ((tx : ℕ)
            → is_queued tx (next_outbound P s now).1.outbound_queue ≡ true
            → is_queued tx s.outbound_queue ≡ true)
  unfolding next_outbound
  numbers-next_outbound s now = loop_numbers s now s.outbound_queue
