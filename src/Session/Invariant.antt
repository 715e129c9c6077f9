-- ===== src/Session/Invariant.antt =====
-- The host side of include/ReliableSession.hpp: the count of the requests in flight, and the window.
pub mod Device
pub mod Outbound
pub mod Poll
use florid_usb_protocols.Prelude.{
  ℕ, ◌+◌, ◌≤◌, ◌<◌, ◌≡◌, refl, ap, sym, ◌∙◌, inl, inr, Bool, true, false, ◌||◌, ltb→lt, ==_refl,
  Option, none, some, List, [], ◌∷◌, ◌++◌, arith, ltb, ◌==◌, Bool-cases, Option-cases,
}
use florid_usb_protocols.Platform.{Platform, IsPlatform}
use florid_usb_protocols.Platform.Total.{total, weight_of, total-empty, total-insert, total-erase}
use florid_usb_protocols.Platform.Lookup.{lookup}
use florid_usb_protocols.Prelude.Eq.{nat_regular}
use florid_usb_protocols.IdRing.{IdRing, test_and_insert, compose_dedup_key, seen_id_ring_bits}
use florid_usb_protocols.Session.Entry.{PendingEntry}
use florid_usb_protocols.Session.{
  Config, Session, init, register_pending, on_ack, on_response, on_response_entry, next_outbound,
  next_outbound_loop,
}
use florid_usb_protocols.Session.Poll.{poll}
use florid_usb_protocols.Session.Poll.Effect.{inflight_weight, polled}
use florid_usb_protocols.Session.Poll.Outcome.{find-poll, poll-counted, inflight_count-poll-le}

abbrev pub Keyed : (P : Platform) → P.Map PendingEntry → Type 0
Keyed P m = (tx : ℕ) (p : PendingEntry) → P.find PendingEntry tx m ≡ some p → p.tx_id ≡ tx

-- Transaction ids waiting in `m_outbound_queue`.
abbrev pub is_queued : ℕ → List ℕ → Bool
is_queued tx [] = false
is_queued tx (x ∷ xs) = x == tx || is_queued tx xs

abbrev pub AreDistinct : List ℕ → Type 0
AreDistinct [] = Unit
AreDistinct (x ∷ xs) = (is_queued x xs ≡ false) × AreDistinct xs

-- No entry in flight has a transaction id of the queue.
abbrev pub AreIdle : (P : Platform) → List ℕ → P.Map PendingEntry → Type 0
AreIdle P queue m =
    (tx : ℕ) (p : PendingEntry)
    → is_queued tx queue ≡ true
    → P.find PendingEntry tx m ≡ some p
    → p.inflight ≡ false

pub is_queued-append :
    (tx : ℕ) (xs ys : List ℕ) → is_queued tx (xs ++ ys) ≡ (is_queued tx xs || is_queued tx ys)
is_queued-append tx [] ys = refl
is_queued-append tx (x ∷ xs) ys = ground (arith, is_queued-append tx xs ys)

AreDistinct-append :
    (xs : List ℕ) (tx : ℕ)
    → is_queued tx xs ≡ false
    → AreDistinct xs
    → AreDistinct (xs ++ (tx ∷ []))
AreDistinct-append [] tx h d = (refl, tt)
AreDistinct-append (x ∷ xs) tx h d =
    ground (arith, is_queued-append x xs (tx ∷ []), AreDistinct-append xs tx (ground arith) d.1)

-- The count of `m_inflight_count` is the number of entries in flight, which fit the window;
-- each entry stands under its own transaction id; the ids of the outbound queue are distinct, and
-- none of them is in flight.
pub record IsValid (P : Platform) (s : Session P) : Type 0 where
  pub counted : s.inflight_count ≡ total inflight_weight (P.entries PendingEntry s.pending)
  pub windowed : s.inflight_count ≤ s.config.window_size
  pub open_window : 0 < s.config.window_size
  pub keyed : Keyed P s.pending
  pub distinct : AreDistinct s.outbound_queue
  pub idle : AreIdle P s.outbound_queue s.pending

-- A transaction id that is neither pending nor queued.
abbrev pub IsFresh : (P : Platform) → Session P → ℕ → Type 0
IsFresh P s tx = (P.find PendingEntry tx s.pending ≡ none) × (is_queued tx s.outbound_queue ≡ false)

module _ (P : Platform) (L : IsPlatform P) where
  pub init-IsValid : (c : Config) → IsValid P (init P c)
  unfolding init
  init-IsValid c = record {
    counted = sym (total-empty P L PendingEntry inflight_weight);
    windowed = omega arith;
    open_window = ground arith;
    keyed = λ tx p h. ground (arith, h, L.find-empty PendingEntry tx);
    distinct = tt;
    idle = λ tx p q h. cc q;
  }

  pub Keyed-insert :
      (tx : ℕ) (p : PendingEntry) (m : P.Map PendingEntry)
      → p.tx_id ≡ tx
      → Keyed P m
      → Keyed P (P.insert_or_assign PendingEntry tx p m)
  Keyed-insert tx p m e k j q h = ground (arith, L.find-insert PendingEntry j tx p m, k j q)

  Keyed-erase : (tx : ℕ) (m : P.Map PendingEntry) → Keyed P m → Keyed P (P.erase PendingEntry tx m)
  Keyed-erase tx m k j q h = ground (arith, L.find-erase PendingEntry j tx m, k j q)

  pub AreIdle-insert :
      (queue : List ℕ) (tx : ℕ) (p : PendingEntry) (m : P.Map PendingEntry)
      → (is_queued tx queue ≡ true → p.inflight ≡ false)
      → AreIdle P queue m
      → AreIdle P queue (P.insert_or_assign PendingEntry tx p m)
  AreIdle-insert queue tx p m new old j q h e = elim (Bool-cases (tx == j)) [
    | inl eq ↦ ground (arith, eq, e, h, L.find-insert PendingEntry j tx p m, new (ground arith))
    | inr ne ↦ old j q h (ground (arith, ne, e, L.find-insert PendingEntry j tx p m))
  ]

  AreIdle-erase :
      (queue : List ℕ) (tx : ℕ) (m : P.Map PendingEntry)
      → AreIdle P queue m
      → AreIdle P queue (P.erase PendingEntry tx m)
  AreIdle-erase queue tx m old j q h e =
      old j q h (ground (arith, e, L.find-erase PendingEntry j tx m))

  -- With a map that behaves as documented, a request that is registered under a transaction id
  -- neither pending nor queued keeps a valid session valid.
  pub register_pending-IsValid :
      (s : Session P) (tx req rsp : ℕ) (bytes : List ℕ) (ok err : Option ℕ) (timeout tries now : ℕ)
      → IsFresh P s tx
      → IsValid P s
      → IsValid P (register_pending P s tx req rsp bytes ok err timeout tries now)
  unfolding register_pending
  register_pending-IsValid s tx req rsp bytes ok err timeout tries now fresh v = record {
    counted = omega (
      arith,
      v.counted,
      total-insert P L PendingEntry inflight_weight tx _ s.pending,
      ap (weight_of inflight_weight) fresh.0,
    );
    windowed = v.windowed;
    open_window = v.open_window;
    keyed = Keyed-insert tx _ s.pending refl v.keyed;
    distinct = AreDistinct-append s.outbound_queue tx fresh.1 v.distinct;
    idle =
        AreIdle-insert _ tx _ s.pending (λ h. refl)
          (λ j q h e.
            ground
              (arith, is_queued-append j s.outbound_queue (tx ∷ []), v.idle j q, fresh.0, h, e));
  }

  -- An acknowledgement moves a deadline at most.
  pub on_ack-IsValid : (s : Session P) (tx now : ℕ) → IsValid P s → IsValid P (on_ack P s tx now)
  unfolding on_ack
  on_ack-IsValid s tx now v = elim (Option-cases (P.find PendingEntry tx s.pending)) [
    | inl e ↦ rw e v
    | inr (p, e) ↦ rw e (elim (Bool-cases p.inflight) [
      | inl flying ↦ rw flying (record {
        counted = ground (
          arith,
          e,
          flying,
          v.counted,
          total-insert P L PendingEntry inflight_weight tx
              (record p { inflight = true; deadline = now + p.timeout }) s.pending,
        );
        windowed = v.windowed;
        open_window = v.open_window;
        keyed = Keyed-insert tx _ s.pending (v.keyed tx p e) v.keyed;
        distinct = v.distinct;
        idle =
            AreIdle-insert s.outbound_queue tx
              (record p { inflight = true; deadline = now + p.timeout }) s.pending
              (λ h. sym flying ∙ v.idle tx p h e) v.idle;
      })
      | inr idle ↦ rw idle v
    ])
  ]

  -- A response frees the slot of its entry.
  on_response_entry-IsValid :
      (s : Session P) (cmd tx : ℕ) (bytes : List ℕ)
      → IsValid P s
      → IsValid P (on_response_entry P s cmd tx bytes (P.find PendingEntry tx s.pending)).0
  unfolding on_response_entry
  on_response_entry-IsValid s cmd tx bytes v =
      elim (Option-cases (P.find PendingEntry tx s.pending)) [
        | inl e ↦ rw e v
        | inr (p, e) ↦ rw e (record {
          counted =
              ground
                (arith, e, v.counted, total-erase P L PendingEntry inflight_weight tx s.pending);
          windowed = ground (arith, v.windowed);
          open_window = v.open_window;
          keyed = Keyed-erase tx s.pending v.keyed;
          distinct = v.distinct;
          idle = AreIdle-erase s.outbound_queue tx s.pending v.idle;
        })
      ]

  -- With a map that behaves as documented, `on_response` keeps a valid session valid: the entry of
  -- the response is dropped, and its slot in the window is freed if it had one.
  pub on_response-IsValid :
      (s : Session P) (cmd tx : ℕ) (bytes : List ℕ)
      → IsValid P s
      → IsValid P (on_response P s cmd tx bytes).0
  unfolding on_response
  on_response-IsValid s cmd tx bytes v =
      elim (Bool-cases
        (test_and_insert P.size_bits seen_id_ring_bits s.seen_responses
          (compose_dedup_key cmd tx)).0) [
            | inl seen ↦ rw seen (again s v)
            | inr new ↦ rw new (on_response_entry-IsValid _ cmd tx bytes (again s v))
          ]
    where
      again :
          (s : Session P) {r : IdRing ℕ} → IsValid P s → IsValid P (record s { seen_responses = r })
      again s w = record {
        counted = w.counted;
        windowed = w.windowed;
        open_window = w.open_window;
        keyed = w.keyed;
        distinct = w.distinct;
        idle = w.idle;
      }
