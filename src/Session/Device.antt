-- ===== src/Session/Device.antt =====
-- The device side of include/ReliableSession.hpp: duplicate requests, and the cache of responses.
pub mod Cache
pub mod Replay
pub mod Retain
pub mod Again
pub mod Reset
use florid_usb_protocols.Prelude.{
  ℕ, true, false, Option, none, some, List, [], ◌∷◌, ◌++◌, length, ltb, if◌then◌else◌,
}
use florid_usb_protocols.Prelude.Eq.{nat_regular}
use florid_usb_protocols.Platform.{Platform}
use florid_usb_protocols.IdRing.{
  DedupKey, test_and_insert, cleared, compose_dedup_key, seen_id_ring_bits,
}
use florid_usb_protocols.Session.Entry.{CompletedResponse, RequestResult, completed_response}
use florid_usb_protocols.Session.{Session}

module _ (P : Platform) where
  -- What `on_request` answers to a request that it has seen, from the cache.
  cached_result : Option CompletedResponse → RequestResult
  cached_result none = record {
    should_ack = true;
    is_duplicate = true;
    cached_response_data = none;
    cached_response_len = 0;
    cached_response_cmd = 0;
  }
  cached_result (some c) = record {
    should_ack = true;
    is_duplicate = true;
    cached_response_data = some c.response_bytes;
    cached_response_len = c.response_len;
    cached_response_cmd = c.response_cmd;
  }

  unfoldable pub on_request : Session P → (cmd_id tx_id : ℕ) → RequestResult × Session P
  unfolding cached_result
  on_request s cmd_id tx_id =
      let dk = compose_dedup_key cmd_id tx_id in
      let (seen, ring) = test_and_insert P.size_bits seen_id_ring_bits s.seen_requests dk in
      let s' = record s { seen_requests = ring } in
      if seen then (cached_result (P.find CompletedResponse dk s.completed_cache), s') else (
        record {
          should_ack = true;
          is_duplicate = false;
          cached_response_data = none;
          cached_response_len = 0;
          cached_response_cmd = 0;
        },
        s',
      )

  -- The loop of `shrink_device_cache`, over `m_completed_order` and `m_completed_cache`.
  unfoldable pub shrink :
      ℕ → List DedupKey → P.Map CompletedResponse → List DedupKey × P.Map CompletedResponse
  shrink capacity [] cache = ([], cache)
  shrink capacity (oldest ∷ order) cache =
      let rest = shrink capacity order (P.erase CompletedResponse oldest cache) in
      if ltb capacity (length (oldest ∷ order)) then rest else (oldest ∷ order, cache)

  -- `response` holds the `response_len` bytes behind `response_bytes`.
  unfoldable pub cache_response :
      Session P → (cmd_id tx_id response_cmd : ℕ) (response : List ℕ) → Session P
  unfolding shrink
  cache_response s cmd_id tx_id response_cmd response =
      let dk = compose_dedup_key cmd_id tx_id in
      let (order, cache) = shrink s.config.device_cache_capacity (s.completed_order ++ (dk ∷ [])) (
        P.insert_or_assign CompletedResponse dk (completed_response response_cmd response)
          s.completed_cache) in
      record s { completed_order = order; completed_cache = cache }

  unfoldable pub reset_device_state : Session P → Session P
  reset_device_state s = record s {
    seen_requests = cleared seen_id_ring_bits;
    seen_responses = cleared seen_id_ring_bits;
    completed_cache = P.empty CompletedResponse;
    completed_order = [];
  }
