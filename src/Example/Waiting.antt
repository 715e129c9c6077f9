-- ===== src/Example/Waiting.antt =====
-- The session of the host of examples/send_serial.cpp while it waits for a response.
use florid_usb_protocols.Prelude.{
  ℕ, ◌+◌, ◌<◌, ◌≡◌, refl, sym, ◌∙◌, inl, inr, true, false, none, some, List, [], ◌∷◌, arith, ◌==◌,
  ==_refl, Bool-cases,
}
use florid_usb_protocols.Prelude.Eq.{nat_regular}
use florid_usb_protocols.Platform.{Platform, IsPlatform}
use florid_usb_protocols.IdRing.{test_and_insert, compose_dedup_key, seen_id_ring_bits}
use florid_usb_protocols.Session.{Session, register_pending, on_ack, on_response, next_outbound}
use florid_usb_protocols.Session.Entry.{PendingEntry, response}
use florid_usb_protocols.Session.Answer.{registered, next_outbound_now, on_response_taken}
use florid_usb_protocols.Stack.Quiet.{IsNoneDue}
use florid_usb_protocols.Example.{request_cmd, response_cmd}

-- The entry of the request of `host_asks`, once it has gone out, and again so many times.
abbrev pub flying : (tx : ℕ) → List ℕ → (asked retries deadline : ℕ) → PendingEntry
flying tx asking asked retries deadline =
    record (registered tx request_cmd response_cmd asking (some 0) (some 1) 200000 3 asked) {
      retry_count = retries;
      inflight = true;
      deadline = deadline;
    }

module _ (P : Platform) (L : IsPlatform P) (tx : ℕ) (asking : List ℕ) (asked : ℕ) where
  -- The response of the transaction has not come in.
  abbrev pub IsUnseen : Session P → Type 0
  IsUnseen s =
      (test_and_insert P.size_bits seen_id_ring_bits s.seen_responses
        (compose_dedup_key response_cmd tx)).0
      ≡ false

  -- The request of the transaction is the only one, and has gone out.
  pub record IsWaiting (retries deadline : ℕ) (s : Session P) : Type 0 where
    pub none_queued : s.outbound_queue ≡ []
    pub here : P.find PendingEntry tx s.pending ≡ some (flying tx asking asked retries deadline)
    pub alone : (k : ℕ) → (tx == k) ≡ false → P.find PendingEntry k s.pending ≡ none
    pub unseen : IsUnseen s

  -- A session that waits for nothing, and has room for a request.
  pub record IsFree (s : Session P) : Type 0 where
    pub none_queued : s.outbound_queue ≡ []
    pub none_pending : (k : ℕ) → P.find PendingEntry k s.pending ≡ none
    pub room : s.inflight_count < s.config.window_size
    pub unseen : IsUnseen s

  pub IsWaiting-IsNoneDue :
      (retries deadline now : ℕ) (s : Session P)
      → IsWaiting retries deadline s
      → now < deadline
      → IsNoneDue P L now s
  IsWaiting-IsNoneDue retries deadline now s w early k p found = elim (Bool-cases (tx == k)) [
    | inl same ↦ ground (arith, same, w.here, found, early)
    | inr other ↦ absurd (let e : none ≡ some p = sym (w.alone k other) ∙ found in cc)
  ]

  abbrev pub asks : Session P → Session P
  asks s = register_pending P s tx request_cmd response_cmd asking (some 0) (some 1) 200000 3 asked

  pub next_outbound-IsWaiting :
      (s : Session P) (now : ℕ)
      → IsFree s
      → IsWaiting 0 (now + 200000) (next_outbound P (asks s) now).1
  unfolding register_pending
  next_outbound-IsWaiting s now f =
      let out =
        next_outbound_now P L s tx request_cmd response_cmd asking (some 0) (some 1) 200000 3 asked
          now f.none_queued f.room in
      rw out record {
        none_queued = refl;
        here = L.find-insert PendingEntry tx tx _ _ ∙ rw (==_refl tx) refl;
        alone = λ k other.
            L.find-insert PendingEntry k tx _ _
            ∙ rw other (L.find-insert PendingEntry k tx _ _ ∙ rw other (f.none_pending k));
        unseen = f.unseen;
      }

  pub on_ack-IsWaiting :
      (s : Session P) (retries deadline now : ℕ)
      → IsWaiting retries deadline s
      → IsWaiting retries (now + 200000) (on_ack P s tx now)
  unfolding on_ack
  on_ack-IsWaiting s retries deadline now w =
      rw (on_ack, w.here)
        record {
          none_queued = w.none_queued;
          here = L.find-insert PendingEntry tx tx _ _ ∙ rw (==_refl tx) refl;
          alone = λ k other. L.find-insert PendingEntry k tx _ _ ∙ rw other (w.alone k other);
          unseen = w.unseen;
        }

  -- The response calls the callback, and leaves nothing behind.
  pub on_response-quiet :
      (s : Session P) (retries deadline now : ℕ) (bytes : List ℕ)
      → IsWaiting retries deadline s
      → ((on_response P s response_cmd tx bytes).1 ≡ response 0 bytes ∷ [])
        × ((on_response P s response_cmd tx bytes).0.outbound_queue ≡ [])
        × IsNoneDue P L now (on_response P s response_cmd tx bytes).0
  on_response-quiet s retries deadline now bytes w =
      rw
        (on_response_taken P L s response_cmd tx bytes (flying tx asking asked retries deadline)
          w.unseen w.here refl)
        (refl, w.none_queued, λ k p found. absurd (erased k p found))
    where
      erased :
          (k : ℕ) (p : PendingEntry)
          → P.find PendingEntry k (P.erase PendingEntry tx s.pending) ≡ some p
          → ⊥
      erased k p found = elim (Bool-cases (tx == k)) [
        | inl same ↦
            let e : none ≡ some p =
              sym (L.find-erase PendingEntry k tx s.pending ∙ rw same refl) ∙ found in
            cc
        | inr other ↦
            let e : none ≡ some p =
              sym (L.find-erase PendingEntry k tx s.pending ∙ rw other (w.alone k other)) ∙ found in
            cc
      ]
