-- ===== src/Session/Run/Safety.antt =====
-- What holds in every state that a session of include/ReliableSession.hpp can get into.
use florid_usb_protocols.Prelude.{
  ℕ, ◌+◌, ◌^◌, ◌≤◌, ◌<◌, ◌≡◌, refl, ap, subst, sym, ◌∙◌, inl, inr, true, [], ◌∷◌, arith, Bool-cases,
  Option-cases,
}
use florid_usb_protocols.Prelude.Eq.{nat_regular}
use florid_usb_protocols.Platform.{Platform, IsPlatform}
use florid_usb_protocols.Platform.Total.{total-empty}
use florid_usb_protocols.Session.{Config, Session, init, next_tx_id, register_pending, on_response}
use florid_usb_protocols.Session.Entry.{PendingEntry}
use florid_usb_protocols.Session.Device.{cache_response, reset_device_state}
use florid_usb_protocols.Session.Poll.{poll}
use florid_usb_protocols.Session.Invariant.{
  IsValid, IsFresh, is_queued, is_queued-append, init-IsValid, register_pending-IsValid,
  on_ack-IsValid, on_response-IsValid,
}
use florid_usb_protocols.Session.Invariant.Outbound.{next_outbound-IsValid}
use florid_usb_protocols.Session.Invariant.Poll.{poll-IsValid}
use florid_usb_protocols.Session.Invariant.Device.{
  on_request-IsValid, cache_response-IsValid, next_tx_id-IsValid, reset_device_state-IsValid,
}
use florid_usb_protocols.Session.Run.{
  World, Step, send, ack, respond, pump, check, request, answer, reset, begin, Reach, start, later,
}
use florid_usb_protocols.Session.Run.Entries.{
  AllPending, AllPending-insert, IsKept, AllPending-on_ack, AllPending-on_response,
  AllPending-next_outbound, AllPending-poll,
}
use florid_usb_protocols.Session.Run.Calls.{
  calls_of, sends_of, uses, waiting, calls_of-append, waiting-insert, waiting-on_ack,
  spent-on_response, waiting-next_outbound, spent-poll,
}
use florid_usb_protocols.Session.Run.Numbers.{
  numbers-on_ack, numbers-on_response, numbers-on_request, numbers-next_outbound,
}

-- An entry with a transaction id that was handed out, and no more retries than it may have.
abbrev pub Issued : ℕ → ℕ → PendingEntry → Type 0
Issued next tx p = (tx < next) × (p.retry_count ≤ p.max_retries) × (p.max_retries < 2 ^ 8)

pub record IsNumbered (P : Platform) (s : Session P) : Type 0 where
  pub issued : AllPending P (Issued s.next_tx_id) s.pending
  pub queued : (tx : ℕ) → is_queued tx s.outbound_queue ≡ true → tx < s.next_tx_id

Issued-IsKept : (P : Platform) (L : IsPlatform P) (next : ℕ) → IsKept P L (Issued next)
Issued-IsKept P L next = record {
  fly = λ tx now p h. h;
  retry = λ tx now p alive h. (h.0, ground (arith, alive, h.1, h.2), h.2);
}

module _ (P : Platform) (L : IsPlatform P) where
  -- The next transaction id is new.
  IsNumbered-IsFresh : (s : Session P) → IsNumbered P s → IsFresh P s s.next_tx_id
  IsNumbered-IsFresh s n = (
    elim (Option-cases (P.find PendingEntry s.next_tx_id s.pending)) [
      | inl e ↦ e
      | inr (p, e) ↦ ground (arith, (n.issued s.next_tx_id p e).0)
    ],
    elim (Bool-cases (is_queued s.next_tx_id s.outbound_queue)) [
      | inl e ↦ ground (arith, n.queued s.next_tx_id e)
      | inr e ↦ e
    ],
  )

  pub Step-IsValid :
      {s t : World P}
      → Step P s t
      → IsNumbered P s.session
      → IsValid P s.session
      → IsValid P t.session
  unfolding next_tx_id
  Step-IsValid {s} (send req rsp bytes ok err timeout tries now low few) n v =
      register_pending-IsValid P L (next_tx_id P s.session).1 s.session.next_tx_id req rsp bytes ok
        err timeout tries now (IsNumbered-IsFresh s.session n) (next_tx_id-IsValid P s.session v)
  Step-IsValid {s} (ack tx now) n v = on_ack-IsValid P L s.session tx now v
  Step-IsValid {s} (respond cmd tx bytes) n v = on_response-IsValid P L s.session cmd tx bytes v
  Step-IsValid {s} (pump now) n v = next_outbound-IsValid P L s.session now v
  Step-IsValid {s} (check now clock) n v = poll-IsValid P L s.session now clock v
  Step-IsValid {s} (request cmd tx) n v = on_request-IsValid P s.session v cmd tx
  Step-IsValid {s} (answer cmd tx rsp bytes) n v =
      cache_response-IsValid P s.session v cmd tx rsp bytes
  Step-IsValid {s} reset n v = reset_device_state-IsValid P s.session v

  -- A session with the entries and the queue of another, and its counter.
  with_numbers :
      {s t : Session P}
      → t.next_tx_id ≡ s.next_tx_id
      → ((tx : ℕ) → is_queued tx t.outbound_queue ≡ true → is_queued tx s.outbound_queue ≡ true)
      → AllPending P (Issued s.next_tx_id) t.pending
      → IsNumbered P s
      → IsNumbered P t
  with_numbers {s} {t} same fewer entries n = record {
    issued = subst (λ i. AllPending P (Issued i) t.pending) (sym same) entries;
    queued = λ tx h. ground (arith, n.queued tx (fewer tx h), same);
  }

  pub Step-IsNumbered :
      {s t : World P} → Step P s t → IsNumbered P s.session → IsNumbered P t.session
  unfolding next_tx_id register_pending cache_response reset_device_state poll
  Step-IsNumbered {s} (send req rsp bytes ok err timeout tries now low few) n = record {
    issued =
        AllPending-insert P L (Issued _) s.session.next_tx_id _ s.session.pending
          (omega (arith, low), omega arith, few)
          (λ j q h.
            (ground (arith, low, (n.issued j q h).0), (n.issued j q h).1, (n.issued j q h).2));
    queued = λ tx h. ground (
      arith,
      low,
      h,
      n.queued tx,
      is_queued-append tx s.session.outbound_queue (s.session.next_tx_id ∷ []),
    );
  }
  Step-IsNumbered {s} (ack tx now) n =
      with_numbers (numbers-on_ack P s.session tx now).0
        (λ j h. ap (is_queued j) (sym (numbers-on_ack P s.session tx now).1) ∙ h)
        (AllPending-on_ack P L _ (Issued-IsKept P L _) s.session tx now n.issued) n
  Step-IsNumbered {s} (respond cmd tx bytes) n =
      with_numbers (numbers-on_response P s.session cmd tx bytes).0
        (λ j h. ap (is_queued j) (sym (numbers-on_response P s.session cmd tx bytes).1) ∙ h)
        (AllPending-on_response P L _ (Issued-IsKept P L _) s.session cmd tx bytes n.issued) n
  Step-IsNumbered {s} (pump now) n =
      with_numbers (numbers-next_outbound P s.session now).0
        (numbers-next_outbound P s.session now).1
        (AllPending-next_outbound P L _ (Issued-IsKept P L _) s.session now n.issued) n
  Step-IsNumbered {s} (check now clock) n =
      with_numbers refl (λ j h. h)
        (AllPending-poll P L _ (Issued-IsKept P L _) s.session now clock n.issued) n
  Step-IsNumbered {s} (request cmd tx) n =
      let same = numbers-on_request P s.session cmd tx in
      with_numbers same.0.0 (λ j h. ap (is_queued j) (sym same.0.1) ∙ h)
        (subst (AllPending P (Issued _)) (sym same.1) n.issued) n
  Step-IsNumbered {s} (answer cmd tx rsp bytes) n = with_numbers refl (λ j h. h) n.issued n
  Step-IsNumbered {s} reset n = with_numbers refl (λ j h. h) n.issued n

  -- What has been called, and what may still be, was brought in.
  abbrev IsPaid : World P → Type 0
  IsPaid s = (cb : ℕ) → calls_of cb s.called + waiting P cb s.session.pending ≤ sends_of cb s.sent

  Step-IsPaid : {s t : World P} → Step P s t → IsPaid s → IsPaid t
  unfolding next_tx_id register_pending cache_response reset_device_state
  Step-IsPaid {s} (send req rsp bytes ok err timeout tries now low few) h cb =
      omega (arith, h cb, waiting-insert P L cb s.session.next_tx_id _ s.session.pending)
  Step-IsPaid {s} (ack tx now) h cb = omega (arith, h cb, waiting-on_ack P L cb s.session tx now)
  Step-IsPaid {s} (respond cmd tx bytes) h cb = omega (
    arith,
    h cb,
    calls_of-append cb s.called (on_response P s.session cmd tx bytes).1,
    spent-on_response P L cb s.session cmd tx bytes,
  )
  Step-IsPaid {s} (pump now) h cb = omega (arith, h cb, waiting-next_outbound P L cb s.session now)
  Step-IsPaid {s} (check now clock) h cb = omega (
    arith,
    h cb,
    calls_of-append cb s.called (poll P now clock s.session).1,
    spent-poll P L cb now clock s.session,
  )
  Step-IsPaid {s} (request cmd tx) h cb =
      omega (arith, h cb, ap (waiting P cb) (numbers-on_request P s.session cmd tx).1)
  Step-IsPaid {s} (answer cmd tx rsp bytes) h cb = h cb
  Step-IsPaid {s} reset h cb = h cb

  module _ (c : Config) where
    begin-IsNumbered : IsNumbered P (begin P c).session
    unfolding init
    begin-IsNumbered = record {
      issued = λ tx p h. ground (arith, h, L.find-empty PendingEntry tx);
      queued = λ tx h. ground (arith, h);
    }

    pub Reach-IsNumbered : {s : World P} → Reach P c s → IsNumbered P s.session
    Reach-IsNumbered start = begin-IsNumbered
    Reach-IsNumbered (later r st) = Step-IsNumbered st (Reach-IsNumbered r)

    -- With a map that behaves as documented, in every state that a run of a session's operations
    -- can get into, in any order, while the 32-bit transaction ids last: the count of the requests
    -- in flight is right and fits the window, each entry stands under its own id, and the ids of
    -- the outbound queue are distinct and none is in flight.
    pub Reach-IsValid : {s : World P} → Reach P c s → IsValid P s.session
    Reach-IsValid start = init-IsValid P L c
    Reach-IsValid (later r st) = Step-IsValid st (Reach-IsNumbered r) (Reach-IsValid r)

    Reach-IsPaid : {s : World P} → Reach P c s → IsPaid s
    unfolding init
    Reach-IsPaid start cb = omega (arith, total-empty P L PendingEntry (uses cb))
    Reach-IsPaid (later r st) cb = Step-IsPaid st (Reach-IsPaid r) cb

    -- With a map that behaves as documented: after any run of a session's operations, in any order,
    -- where at most 2^32 - 2 transaction ids are handed out and a request has at most 255 retries,
    -- a callback has been called, with a response or with an error, no more often than requests
    -- have brought it in.
    pub callbacks_once :
        {s : World P} (cb : ℕ) → Reach P c s → calls_of cb s.called ≤ sends_of cb s.sent
    callbacks_once cb r = omega (arith, Reach-IsPaid r cb)
