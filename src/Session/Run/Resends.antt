-- ===== src/Session/Run/Resends.antt =====
-- How often include/ReliableSession.hpp has a request sent again, over a whole run.
use florid_usb_protocols.Prelude.{
  ℕ, ◌+◌, ◌^◌, ◌≤◌, ◌<◌, ◌≡◌, refl, ap, sym, ◌∙◌, subst, inl, inr, some, arith, length, ◌==◌,
  if◌then◌else◌, Bool-cases, Option-cases,
}
use florid_usb_protocols.Platform.{Platform, IsPlatform}
use florid_usb_protocols.Session.{
  Config, Session, init, next_tx_id, register_pending, on_ack, on_response, next_outbound,
}
use florid_usb_protocols.Session.Entry.{PendingEntry}
use florid_usb_protocols.Session.Device.{on_request, cache_response, reset_device_state}
use florid_usb_protocols.Session.Invariant.{IsValid}
use florid_usb_protocols.Session.Poll.{poll, is_due, is_exhausted, retried}
use florid_usb_protocols.Session.Poll.Effect.{polled, resent, retries_for}
use florid_usb_protocols.Session.Poll.Outcome.{find-poll, retries-poll}
use florid_usb_protocols.Session.Run.{
  World, Step, send, ack, respond, pump, check, request, answer, reset, Reach, start, later,
}
use florid_usb_protocols.Session.Run.Entries.{
  AllPending, AllPending-insert, IsKept, AllPending-on_ack, AllPending-on_response,
  AllPending-next_outbound,
}
use florid_usb_protocols.Session.Run.Numbers.{numbers-on_request}
use florid_usb_protocols.Session.Run.Safety.{Reach-IsValid}

module _ (P : Platform) where
  -- How often a step hands back the request of `tx`, to be sent again.
  abbrev pub resends_by : (tx : ℕ) {s t : World P} → Step P s t → ℕ
  resends_by tx {s} (check now clock) = length (retries_for tx (poll P now clock s.session).0)
  resends_by tx _ = 0

  -- The retries that a step grants to `tx`: those of a request that is registered under this id.
  abbrev pub grants_by : (tx : ℕ) {s t : World P} → Step P s t → ℕ
  grants_by tx {s} (send req rsp bytes ok err timeout tries now low few) =
      if s.session.next_tx_id == tx then tries else 0
  grants_by tx _ = 0

  module _ (c : Config) where
    -- Both, over a run.
    abbrev pub resends : (tx : ℕ) {s : World P} → Reach P c s → ℕ
    resends tx start = 0
    resends tx (later r st) = resends tx r + resends_by tx st

    abbrev pub grants : (tx : ℕ) {s : World P} → Reach P c s → ℕ
    grants tx start = 0
    grants tx (later r st) = grants tx r + grants_by tx st

  -- With `n` resends out of `g` granted, an entry of `tx` has no more left than its count says.
  abbrev Within : (tx n g : ℕ) → ℕ → PendingEntry → Type 0
  Within tx n g j p =
      (p.retry_count ≤ p.max_retries)
      × (p.max_retries < 2 ^ 8)
      × (j ≡ tx → n + p.max_retries ≤ g + p.retry_count)

  abbrev InBudget : (tx n g : ℕ) → Session P → Type 0
  InBudget tx n g s = (n ≤ g) × AllPending P (Within tx n g) s.pending

module _ (P : Platform) (L : IsPlatform P) (tx n g : ℕ) where
  Within-IsKept : IsKept P L (Within P tx n g)
  Within-IsKept = record {
    fly = λ j now p h. h;
    retry = λ j now p alive h.
        (ground (arith, alive, h.0, h.1), h.1, λ e. ground (arith, alive, h.0, h.1, h.2 e));
  }

  -- What is left of an entry that `poll` has gone by.
  polled-Within :
      (now reread j : ℕ) (p q : PendingEntry)
      → Within P tx n g j p
      → polled now reread (some p) ≡ some q
      → Within P tx (n + length (resent now (some p))) g j q
  polled-Within now reread j p q h e =
      let m = n + length (resent now (some p)) in
      elim (Bool-cases (is_due now p)) [
        | inl due ↦ elim (Bool-cases (is_exhausted p)) [
          | inl dead ↦ ground (arith, e, due, dead)
          | inr alive ↦
              let same : retried reread p ≡ q = ground (arith, e, due, alive) in
              subst (Within P tx m g j) same (
                ground (arith, alive, h.0, h.1),
                h.1,
                λ (i : j ≡ tx). ground (arith, due, alive, h.0, h.1, h.2 i),
              )
        ]
        | inr early ↦
            let same : p ≡ q = ground (arith, e, early) in
            subst (Within P tx m g j) same (h.0, h.1, λ (i : j ≡ tx). ground (arith, early, h.2 i))
      ]

  check-InBudget :
      (s : Session P) (now : ℕ) (clock : ℕ → ℕ)
      → IsValid P s
      → InBudget P tx n g s
      → InBudget P tx (n + length (retries_for tx (poll P now clock s).0)) g (poll P now clock s).2
  check-InBudget s now clock v h =
      let sent = ap (λ rs. length rs) (retries-poll P L now clock s tx v.keyed) in
      let sent_for : (j : ℕ) (p : PendingEntry)
          → P.find PendingEntry j s.pending ≡ some p
          → j ≡ tx
          → length (retries_for tx (poll P now clock s).0) ≡ length (resent now (some p)) =
        λ j p e i.
          sent
          ∙ ap (λ o. length (resent now o))
              (ap (λ k. P.find PendingEntry k s.pending) (sym i) ∙ e) in
      (
        elim (Option-cases (P.find PendingEntry tx s.pending)) [
          | inl e ↦ ground (arith, h.0, sent, e)
          | inr (p, e) ↦ ground (arith, h.0, sent, e, h.1 tx p e)
        ],
        λ j q found. elim (Option-cases (P.find PendingEntry j s.pending)) [
          | inl e ↦ ground (arith, found, e, find-poll P L now clock s j)
          | inr (p, e) ↦
              let w =
                polled-Within now (clock j) j p q (h.1 j p e)
                  (ap (polled now (clock j)) (sym e) ∙ sym (find-poll P L now clock s j) ∙ found) in
              (w.0, w.1, λ (i : j ≡ tx). omega (arith, w.2 i, sent_for j p e i))
        ],
      )

module _ (P : Platform) (L : IsPlatform P) (tx : ℕ) where
  -- A budget that stays.
  same-InBudget :
      {n g : ℕ} (s t : Session P)
      → t.pending ≡ s.pending
      → InBudget P tx n g s
      → InBudget P tx (n + 0) (g + 0) t
  same-InBudget s t same h = (
    omega (arith, h.0),
    λ j q found.
        let old = h.1 j q (ap (P.find PendingEntry j) (sym same) ∙ found) in
        (old.0, old.1, λ (i : j ≡ tx). omega (arith, old.2 i)),
  )

  kept-InBudget :
      {n g : ℕ} (t : Session P)
      → n ≤ g
      → AllPending P (Within P tx n g) t.pending
      → InBudget P tx (n + 0) (g + 0) t
  kept-InBudget t low all = same-InBudget t t refl (low, all)

  Step-InBudget :
      {n g : ℕ} {s t : World P} (st : Step P s t)
      → IsValid P s.session
      → InBudget P tx n g s.session
      → InBudget P tx (n + resends_by P tx st) (g + grants_by P tx st) t.session
  unfolding next_tx_id register_pending cache_response reset_device_state
  Step-InBudget {n} {g} {s} (send req rsp bytes ok err timeout tries now low few) v h = (
    ground (arith, h.0),
    AllPending-insert P L
        (Within P tx (n + 0) (g + (if s.session.next_tx_id == tx then tries else 0)))
        s.session.next_tx_id _ s.session.pending
        (omega arith, few, λ (i : s.session.next_tx_id ≡ tx). ground (arith, i, h.0))
        (λ j q found. (
          (h.1 j q found).0,
          (h.1 j q found).1,
          λ (i : j ≡ tx). ground (arith, (h.1 j q found).2 i),
        )),
  )
  Step-InBudget {n} {g} {s} (ack id now) v h =
      kept-InBudget (on_ack P s.session id now) h.0
        (AllPending-on_ack P L _ (Within-IsKept P L tx n g) s.session id now h.1)
  Step-InBudget {n} {g} {s} (respond cmd id bytes) v h =
      kept-InBudget (on_response P s.session cmd id bytes).0 h.0
        (AllPending-on_response P L _ (Within-IsKept P L tx n g) s.session cmd id bytes h.1)
  Step-InBudget {n} {g} {s} (pump now) v h =
      kept-InBudget (next_outbound P s.session now).1 h.0
        (AllPending-next_outbound P L _ (Within-IsKept P L tx n g) s.session now h.1)
  Step-InBudget {n} {g} {s} (check now clock) v h =
      let (low, all) = check-InBudget P L tx n g s.session now clock v h in
      (
        omega (arith, low),
        λ j q found. let w = all j q found in (w.0, w.1, λ (i : j ≡ tx). omega (arith, w.2 i)),
      )
  Step-InBudget {s = s} (request cmd id) v h =
      same-InBudget s.session (on_request P s.session cmd id).1
        (numbers-on_request P s.session cmd id).1 h
  Step-InBudget {s = s} (answer cmd id rsp bytes) v h =
      same-InBudget s.session (cache_response P s.session cmd id rsp bytes) refl h
  Step-InBudget {s = s} reset v h = same-InBudget s.session (reset_device_state P s.session) refl h

  module _ (c : Config) where
    Reach-InBudget :
        {s : World P} (r : Reach P c s)
        → InBudget P tx (resends P c tx r) (grants P c tx r) s.session
    unfolding init
    Reach-InBudget start =
        (omega arith, λ j q found. ground (arith, found, L.find-empty PendingEntry j))
    Reach-InBudget (later r st) = Step-InBudget st (Reach-IsValid P L c r) (Reach-InBudget r)

    -- With a map that behaves as documented: in any run of a session's operations, in any order,
    -- where the 32-bit transaction ids last and a request has at most 255 retries, and for every
    -- transaction id, the calls of `poll` have handed back the request of that id to be sent again,
    -- all together, no more often than the retries that the requests registered under that id were
    -- given.
    pub resends_bounded : {s : World P} (r : Reach P c s) → resends P c tx r ≤ grants P c tx r
    resends_bounded r = (Reach-InBudget r).0
