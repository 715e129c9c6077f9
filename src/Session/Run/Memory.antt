-- ===== src/Session/Run/Memory.antt =====
-- What a device of include/ReliableSession.hpp remembers, in every state that a session can get into.
use florid_usb_protocols.Prelude.{
  ℕ, ◌^◌, ◌≤◌, ◌<◌, ◌≡◌, refl, ◌∷◌, inl, inr, false, List, [], arith, ltb, length, Bool-cases,
  Option-cases,
}
use florid_usb_protocols.Prelude.Eq.{nat_regular}
use florid_usb_protocols.Platform.{Platform, IsPlatform}
use florid_usb_protocols.IdRing.{
  cleared, contains, test_and_insert, compose_dedup_key, seen_id_ring_bits,
}
use florid_usb_protocols.IdRing.Order.{IsValid as IsIdRingValid}
use florid_usb_protocols.IdRing.Window.{cleared_lem, test_and_insert-IsValid}
use florid_usb_protocols.Session.{
  Config, Session, init, next_tx_id, register_pending, on_ack, on_response, on_response_entry,
  next_outbound, next_outbound_loop,
}
use florid_usb_protocols.Session.Entry.{PendingEntry, CompletedResponse}
use florid_usb_protocols.Session.Device.{on_request, cache_response, reset_device_state}
use florid_usb_protocols.Session.Device.Cache.{IsCacheValid, cache_response-IsCacheValid}
use florid_usb_protocols.Session.Device.Again.{IsReplayOf, on_request-IsReplayOf}
use florid_usb_protocols.Session.Device.Retain.{Traffic, asked_keys, answered_keys, serve}
use florid_usb_protocols.Session.Poll.{poll}
use florid_usb_protocols.Session.Run.{
  World, Step, send, ack, respond, pump, check, request, answer, reset, Reach, start, later,
}

-- The rings of the ids that were seen, and the cache of responses, are well formed.
pub record Remembers (P : Platform) (s : Session P) : Type 0 where
  pub requests_ring : IsIdRingValid seen_id_ring_bits s.seen_requests
  pub responses_ring : IsIdRingValid seen_id_ring_bits s.seen_responses
  pub cache : IsCacheValid P s

module _ (P : Platform) (L : IsPlatform P) where
  fits : seen_id_ring_bits ≤ P.size_bits
  fits = omega (arith, L.wide)

  -- The pending entries, the window, the queue and the counter of ids do not matter.
  host_side :
      (s : Session P) (id count : ℕ) (pending : P.Map PendingEntry) (queue : List ℕ)
      → Remembers P s
      → Remembers P (record s {
        next_tx_id = id;
        inflight_count = count;
        pending = pending;
        outbound_queue = queue;
      })
  host_side s id count pending queue v = record {
    requests_ring = v.requests_ring;
    responses_ring = v.responses_ring;
    cache = record { bounded = v.cache.bounded; ordered = v.cache.ordered };
  }

  on_ack-Remembers : (s : Session P) (tx now : ℕ) → Remembers P s → Remembers P (on_ack P s tx now)
  unfolding on_ack
  on_ack-Remembers s tx now v = elim (Option-cases (P.find PendingEntry tx s.pending)) [
    | inl e ↦ rw e v
    | inr (p, e) ↦ rw e (elim (Bool-cases p.inflight) [
      | inl flying ↦ simp flying (host_side s _ _ _ _ v)
      | inr idle ↦ simp idle v
    ])
  ]

  loop-Remembers :
      (s : Session P) (now : ℕ) (queue : List ℕ)
      → Remembers P s
      → Remembers P (next_outbound_loop P s now queue).1
  unfolding next_outbound_loop
  loop-Remembers s now [] v = host_side s _ _ _ _ v
  loop-Remembers s now (tx ∷ queue) v =
      elim (Bool-cases (ltb s.inflight_count s.config.window_size)) [
        | inl room ↦ elim (Option-cases (P.find PendingEntry tx s.pending)) [
          | inl e ↦ rw (room, e) (loop-Remembers s now queue v)
          | inr (p, e) ↦ rw (room, e) (host_side s _ _ _ _ v)
        ]
        | inr shut ↦ rw shut (host_side s _ _ _ _ v)
      ]

  -- A response is recorded, whether it is new or not.
  on_response-Remembers :
      (s : Session P) (cmd tx : ℕ) (bytes : List ℕ)
      → Remembers P s
      → Remembers P (on_response P s cmd tx bytes).0
  unfolding on_response on_response_entry
  on_response-Remembers s cmd tx bytes v =
      let key = compose_dedup_key cmd tx in
      let seen = record s {
        seen_responses = (test_and_insert P.size_bits seen_id_ring_bits s.seen_responses key).1;
      } in
      let w : Remembers P seen = record {
        requests_ring = v.requests_ring;
        responses_ring =
            test_and_insert-IsValid P.size_bits seen_id_ring_bits fits s.seen_responses key
              v.responses_ring;
        cache = record { bounded = v.cache.bounded; ordered = v.cache.ordered };
      } in
      elim (Bool-cases (test_and_insert P.size_bits seen_id_ring_bits s.seen_responses key).0) [
        | inl old ↦ rw old w
        | inr new ↦ rw new (elim (Option-cases (P.find PendingEntry tx s.pending)) [
          | inl e ↦ rw e w
          | inr (p, e) ↦ rw e (host_side seen _ _ _ _ w)
        ])
      ]

  on_request-Remembers :
      (s : Session P) (cmd tx : ℕ) → Remembers P s → Remembers P (on_request P s cmd tx).1
  unfolding on_request
  on_request-Remembers s cmd tx v =
      let key = compose_dedup_key cmd tx in
      let w : Remembers P (record s {
        seen_requests = (test_and_insert P.size_bits seen_id_ring_bits s.seen_requests key).1;
      }) =
        record {
          requests_ring =
              test_and_insert-IsValid P.size_bits seen_id_ring_bits fits s.seen_requests key
                v.requests_ring;
          responses_ring = v.responses_ring;
          cache = record { bounded = v.cache.bounded; ordered = v.cache.ordered };
        } in
      elim (Bool-cases (test_and_insert P.size_bits seen_id_ring_bits s.seen_requests key).0) [
        | inl old ↦ rw old w
        | inr new ↦ rw new w
      ]

  cache_response-Remembers :
      (s : Session P) (cmd tx rsp : ℕ) (bytes : List ℕ)
      → Remembers P s
      → Remembers P (cache_response P s cmd tx rsp bytes)
  unfolding cache_response
  cache_response-Remembers s cmd tx rsp bytes v = record {
    requests_ring = v.requests_ring;
    responses_ring = v.responses_ring;
    cache = cache_response-IsCacheValid P L s cmd tx rsp bytes v.cache;
  }

  -- Nothing is remembered of a client that is forgotten, or before there is one.
  blank :
      (s : Session P)
      → s.seen_requests ≡ cleared seen_id_ring_bits
      → s.seen_responses ≡ cleared seen_id_ring_bits
      → s.completed_cache ≡ P.empty CompletedResponse
      → s.completed_order ≡ []
      → Remembers P s
  blank s a b c d = record {
    requests_ring = rw a (cleared_lem seen_id_ring_bits).0;
    responses_ring = rw b (cleared_lem seen_id_ring_bits).0;
    cache = record {
      bounded = rw d (omega arith);
      ordered = λ k r h. ground (arith, h, c, L.find-empty CompletedResponse k);
    };
  }

  Step-Remembers : {s t : World P} → Step P s t → Remembers P s.session → Remembers P t.session
  unfolding next_tx_id register_pending next_outbound poll reset_device_state
  Step-Remembers {s} (send req rsp bytes ok err timeout tries now low few) v =
      host_side s.session _ _ _ _ v
  Step-Remembers {s} (ack tx now) v = on_ack-Remembers s.session tx now v
  Step-Remembers {s} (respond cmd tx bytes) v = on_response-Remembers s.session cmd tx bytes v
  Step-Remembers {s} (pump now) v = loop-Remembers s.session now s.session.outbound_queue v
  Step-Remembers {s} (check now clock) v = host_side s.session _ _ _ _ v
  Step-Remembers {s} (request cmd tx) v = on_request-Remembers s.session cmd tx v
  Step-Remembers {s} (answer cmd tx rsp bytes) v =
      cache_response-Remembers s.session cmd tx rsp bytes v
  Step-Remembers {s} reset v = blank (reset_device_state P s.session) refl refl refl refl

  pub Reach-Remembers : {c : Config} {s : World P} → Reach P c s → Remembers P s.session
  unfolding init
  Reach-Remembers {c} start = blank (init P c) refl refl refl refl
  Reach-Remembers (later r st) = Step-Remembers st (Reach-Remembers r)

  -- With a map that behaves as documented, in every state that a run of a session's operations can
  -- get into: once a request that is new, and of which no older response is in the order of the
  -- cache, has its response of at most 256 bytes cached, the same request is a duplicate that is
  -- answered with the bytes of that response and its command, after any sequence of requests, fewer
  -- than 64, and of cached responses to requests with other keys, fewer than the capacity of the
  -- cache, have come in between.
  pub reached_replays :
      {c : Config} {s : World P}
      → (cmd tx rsp : ℕ) (bytes : List ℕ) (others : List Traffic) → Reach P c s
      → contains s.session.completed_order (compose_dedup_key cmd tx) ≡ false
      → (on_request P s.session cmd tx).0.is_duplicate ≡ false
      → length bytes ≤ 256
      → length (asked_keys others) < 2 ^ seen_id_ring_bits
      → length (answered_keys others) < s.session.config.device_cache_capacity
      → contains (answered_keys others) (compose_dedup_key cmd tx) ≡ false
      → let t = cache_response P (on_request P s.session cmd tx).1 cmd tx rsp bytes in
        IsReplayOf P rsp bytes (on_request P (serve P t others) cmd tx).0
  reached_replays {c} {s} cmd tx rsp bytes others r absent new fits few room apart =
      let v = Reach-Remembers r in
      on_request-IsReplayOf P L s.session cmd tx rsp bytes others v.requests_ring v.cache absent new
        fits few room apart
