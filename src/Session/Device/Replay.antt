-- ===== src/Session/Device/Replay.antt =====
-- Repeated requests on the device side of include/ReliableSession.hpp.
use florid_usb_protocols.Prelude.{
  ℕ, ◌^◌, ◌<◌, ◌≡◌, refl, ap, sym, ◌∙◌, true, false, some, List, [], ◌∷◌, arith, length, length-map,
  map, Bool-cases, inl, inr,
}
use florid_usb_protocols.Prelude.Eq.{nat_regular}
use florid_usb_protocols.Platform.{Platform, IsPlatform}
use florid_usb_protocols.IdRing.{
  DedupKey, compose_dedup_key, contains, test_and_insert, seen_id_ring_bits,
}
use florid_usb_protocols.IdRing.Order.{IsValid}
use florid_usb_protocols.IdRing.Retention.{insert_all, test_and_insert_remembers}
use florid_usb_protocols.Session.{Session}
use florid_usb_protocols.Session.Entry.{
  CompletedResponse, completed_response, store_packet, stored_len,
}
use florid_usb_protocols.Session.Device.{on_request, cached_result, cache_response}
use florid_usb_protocols.Session.Device.Cache.{IsCacheValid, find-cache_response}

module _ (P : Platform) where
  -- Requests that come in one after the other, each a command and a transaction id.
  unfoldable pub requests : Session P → List (ℕ × ℕ) → Session P
  requests s [] = s
  requests s ((cmd, tx) ∷ rest) = requests (on_request P s cmd tx).1 rest

  abbrev pub key_of : ℕ × ℕ → DedupKey
  key_of r = compose_dedup_key r.0 r.1

  -- A request changes nothing but the ring of the requests seen.
  pub on_request_frame :
      (s : Session P) (cmd tx : ℕ)
      → (on_request P s cmd tx).1 ≡ record s {
        seen_requests =
            (test_and_insert P.size_bits seen_id_ring_bits s.seen_requests
              (compose_dedup_key cmd tx)).1;
      }
  unfolding on_request
  on_request_frame s cmd tx = ground arith

  requests_frame :
      (rest : List (ℕ × ℕ)) (s : Session P)
      → ((requests s rest).completed_cache ≡ s.completed_cache)
        × ((requests s rest).seen_requests
            ≡ insert_all P.size_bits seen_id_ring_bits s.seen_requests (map key_of rest))
  unfolding requests insert_all
  requests_frame [] s = (refl, refl)
  requests_frame ((cmd, tx) ∷ rest) s = (
    (requests_frame rest (on_request P s cmd tx).1).0
        ∙ ap (λ t. t.completed_cache) (on_request_frame s cmd tx),
    (requests_frame rest (on_request P s cmd tx).1).1
        ∙ ap (λ t. insert_all P.size_bits seen_id_ring_bits t.seen_requests (map key_of rest))
            (on_request_frame s cmd tx),
  )

  -- A request is a duplicate if its key is in the ring.
  pub is_duplicate-on_request :
      (s : Session P) (cmd tx : ℕ)
      → (on_request P s cmd tx).0.is_duplicate
        ≡ (test_and_insert P.size_bits seen_id_ring_bits s.seen_requests
            (compose_dedup_key cmd tx)).0
  unfolding on_request cached_result
  is_duplicate-on_request s cmd tx = ground arith

  -- A duplicate changes nothing.
  pub on_request_seen :
      (s : Session P) (cmd tx : ℕ)
      → (on_request P s cmd tx).0.is_duplicate ≡ true
      → (on_request P s cmd tx).1 ≡ s
  unfolding on_request test_and_insert
  on_request_seen s cmd tx dup =
      elim (Bool-cases (contains s.seen_requests.ids (compose_dedup_key cmd tx))) [
        | inl seen ↦ simp seen
        | inr new ↦ absurd (
            let e : (on_request P s cmd tx).0.is_duplicate ≡ false = rw new refl in
            let f : true ≡ false = sym dup ∙ e in cc)
      ]

  pub on_request_cached :
      (s : Session P) (cmd tx : ℕ) (c : CompletedResponse)
      → (test_and_insert P.size_bits seen_id_ring_bits s.seen_requests (compose_dedup_key cmd tx)).0
        ≡ true
      → P.find CompletedResponse (compose_dedup_key cmd tx) s.completed_cache ≡ some c
      → (on_request P s cmd tx).0 ≡ record {
        should_ack = true;
        is_duplicate = true;
        cached_response_data = some c.response_bytes;
        cached_response_len = c.response_len;
        cached_response_cmd = c.response_cmd;
      }
  unfolding on_request cached_result
  on_request_cached s cmd tx c seen found = rw (seen, found) refl

  -- With a map that behaves as documented, a valid ring of the requests seen, and a valid cache
  -- that can hold a response and has none in its order for the request: once a request that is new
  -- has its response cached, the same request is a duplicate that is answered with that response,
  -- whatever other requests, fewer than 64, have come in between.
  pub on_request_replays :
      IsPlatform P
      → (s : Session P) (cmd tx rsp : ℕ) (bytes : List ℕ) (others : List (ℕ × ℕ))
      → IsValid seen_id_ring_bits s.seen_requests
      → IsCacheValid P s
      → 0 < s.config.device_cache_capacity
      → contains s.completed_order (compose_dedup_key cmd tx) ≡ false
      → (on_request P s cmd tx).0.is_duplicate ≡ false
      → length others < 2 ^ seen_id_ring_bits
      → (on_request P
          (requests (cache_response P (on_request P s cmd tx).1 cmd tx rsp bytes) others)
          cmd
          tx).0
        ≡ record {
          should_ack = true;
          is_duplicate = true;
          cached_response_data = some (store_packet bytes);
          cached_response_len = stored_len bytes;
          cached_response_cmd = rsp;
        }
  unfolding cache_response
  on_request_replays L s cmd tx rsp bytes others ring cache pos absent new few =
      rw (on_request_frame s cmd tx) (
        on_request_cached (requests t others) cmd tx (completed_response rsp bytes)
          (ap (λ r. (test_and_insert P.size_bits seen_id_ring_bits r dk).0)
              (requests_frame others t).1
            ∙ test_and_insert_remembers P.size_bits seen_id_ring_bits (omega (arith, L.wide))
                s.seen_requests dk (map key_of others) ring
                (sym (is_duplicate-on_request s cmd tx) ∙ new)
                (omega (arith, length-map others key_of)))
          (ap (P.find CompletedResponse dk) (requests_frame others t).0
            ∙ find-cache_response P L s' cmd tx rsp bytes
                (record { bounded = cache.bounded; ordered = cache.ordered }) pos absent))
    where
      dk : DedupKey
      dk = compose_dedup_key cmd tx

      s' : Session P
      s' = record s {
        seen_requests = (test_and_insert P.size_bits seen_id_ring_bits s.seen_requests dk).1;
      }

      t : Session P
      t = cache_response P s' cmd tx rsp bytes
