-- ===== src/Session/Device/Again.antt =====
-- A repeated request of include/ReliableSession.hpp after other requests were answered.
use florid_usb_protocols.Prelude.{
  ℕ, ◌^◌, ◌≤◌, ◌<◌, ◌≡◌, refl, ap, sym, ◌∙◌, true, false, none, some, List, [], ◌∷◌, arith, length,
  take, Option,
}
use florid_usb_protocols.Prelude.Eq.{nat_regular}
use florid_usb_protocols.Platform.{Platform, IsPlatform}
use florid_usb_protocols.IdRing.{
  DedupKey, compose_dedup_key, contains, test_and_insert, seen_id_ring_bits,
}
use florid_usb_protocols.IdRing.Order.{IsValid}
use florid_usb_protocols.IdRing.Retention.{insert_all, test_and_insert_remembers}
use florid_usb_protocols.Session.{Session}
use florid_usb_protocols.Session.Answer.{stored_whole}
use florid_usb_protocols.Session.Entry.{RequestResult, completed_response}
use florid_usb_protocols.Session.Device.{on_request, cache_response}
use florid_usb_protocols.Session.Device.Cache.{IsCacheValid}
use florid_usb_protocols.Session.Device.Replay.{
  on_request_frame, on_request_cached, is_duplicate-on_request,
}
use florid_usb_protocols.Session.Device.Retain.{
  Traffic, asked, answered, asked_keys, answered_keys, serve, fresh-IsKept, serve-IsKept,
}

module _ (P : Platform) where
  -- The ring of the requests seen has the keys of those that came in.
  seen-serve :
      (others : List Traffic) (s : Session P)
      → (serve P s others).seen_requests
        ≡ insert_all P.size_bits seen_id_ring_bits s.seen_requests (asked_keys others)
  unfolding serve insert_all
  seen-serve [] s = refl
  seen-serve (asked cmd tx ∷ rest) s =
      seen-serve rest (on_request P s cmd tx).1
      ∙ ap (λ t. insert_all P.size_bits seen_id_ring_bits t.seen_requests (asked_keys rest))
          (on_request_frame P s cmd tx)
  seen-serve (answered cmd tx rsp bytes ∷ rest) s =
      seen-serve rest (cache_response P s cmd tx rsp bytes) ∙ unfold cache_response in refl

  -- What a reader of the result finds in its buffer.
  abbrev pub replayed_bytes : RequestResult → Option (List ℕ)
  replayed_bytes r = elim r.cached_response_data [
    | none ↦ none
    | some kept ↦ some (take r.cached_response_len kept)
  ]

  -- The result tells of a duplicate, with a response of the command `rsp` and these bytes.
  pub record IsReplayOf (rsp : ℕ) (bytes : List ℕ) (r : RequestResult) : Type 0 where
    pub duplicate : r.is_duplicate ≡ true
    pub acked : r.should_ack ≡ true
    pub command : r.cached_response_cmd ≡ rsp
    pub whole : replayed_bytes r ≡ some bytes

  -- The response of a new request is handed out again while fewer others came in than the ring has
  -- slots, and fewer were answered than the cache has places.
  pub on_request-IsReplayOf :
      IsPlatform P
      → (s : Session P) (cmd tx rsp : ℕ) (bytes : List ℕ) (others : List Traffic)
      → IsValid seen_id_ring_bits s.seen_requests
      → IsCacheValid P s
      → contains s.completed_order (compose_dedup_key cmd tx) ≡ false
      → (on_request P s cmd tx).0.is_duplicate ≡ false
      → length bytes ≤ 256
      → length (asked_keys others) < 2 ^ seen_id_ring_bits
      → length (answered_keys others) < s.config.device_cache_capacity
      → contains (answered_keys others) (compose_dedup_key cmd tx) ≡ false
      → IsReplayOf rsp bytes
          (on_request P
            (serve P (cache_response P (on_request P s cmd tx).1 cmd tx rsp bytes) others)
            cmd
            tx).0
  unfolding cache_response
  on_request-IsReplayOf L s cmd tx rsp bytes others ring cache absent new fits few room apart =
      rw
        (
          on_request_frame P s cmd tx,
          on_request_cached P (serve P t others) cmd tx (completed_response rsp bytes)
              (ap (λ r. (test_and_insert P.size_bits seen_id_ring_bits r dk).0)
                  (seen-serve others t)
                ∙ test_and_insert_remembers P.size_bits seen_id_ring_bits (omega (arith, L.wide))
                    s.seen_requests dk (asked_keys others) ring
                    (sym (is_duplicate-on_request P s cmd tx) ∙ new) few)
              (serve-IsKept P L dk (completed_response rsp bytes) others 0 t
                (fresh-IsKept P L s' cmd tx rsp bytes
                  (record { bounded = cache.bounded; ordered = cache.ordered }) (omega arith)
                  absent)
                apart (omega arith)).found,
        )
        (record {
          duplicate = refl;
          acked = refl;
          command = refl;
          whole = ap some (stored_whole bytes fits);
        })
    where
      dk : DedupKey
      dk = compose_dedup_key cmd tx

      s' : Session P
      s' = record s {
        seen_requests = (test_and_insert P.size_bits seen_id_ring_bits s.seen_requests dk).1;
      }

      t : Session P
      t = cache_response P s' cmd tx rsp bytes
