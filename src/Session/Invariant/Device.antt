-- ===== src/Session/Invariant/Device.antt =====
-- The operations of include/ReliableSession.hpp that leave the host side of a session alone.
use florid_usb_protocols.Prelude.{ℕ, inl, inr, List, Bool-cases}
use florid_usb_protocols.Prelude.Eq.{nat_regular}
use florid_usb_protocols.Platform.{Platform}
use florid_usb_protocols.IdRing.{
  IdRing, DedupKey, test_and_insert, compose_dedup_key, seen_id_ring_bits,
}
use florid_usb_protocols.Session.Entry.{CompletedResponse}
use florid_usb_protocols.Session.{Session, next_tx_id}
use florid_usb_protocols.Session.Device.{on_request, cache_response, reset_device_state}
use florid_usb_protocols.Session.Invariant.{IsValid}

module _ (P : Platform) (s : Session P) (v : IsValid P s) where
  -- The rings, the cache and the counter of transaction ids are not of the host side.
  device_side-IsValid :
      (id : ℕ) (requests responses : IdRing ℕ) (cache : P.Map CompletedResponse)
      → (order : List DedupKey)
      → IsValid P (record s {
        next_tx_id = id;
        seen_requests = requests;
        seen_responses = responses;
        completed_cache = cache;
        completed_order = order;
      })
  device_side-IsValid id requests responses cache order = record {
    counted = v.counted;
    windowed = v.windowed;
    open_window = v.open_window;
    keyed = v.keyed;
    distinct = v.distinct;
    idle = v.idle;
  }

  pub on_request-IsValid : (cmd tx : ℕ) → IsValid P (on_request P s cmd tx).1
  unfolding on_request
  on_request-IsValid cmd tx =
      elim (Bool-cases
        (test_and_insert P.size_bits seen_id_ring_bits s.seen_requests
          (compose_dedup_key cmd tx)).0) [
            | inl e ↦ rw e (device_side-IsValid _ _ _ _ _)
            | inr e ↦ rw e (device_side-IsValid _ _ _ _ _)
          ]

  pub cache_response-IsValid :
      (cmd tx rsp : ℕ) (bytes : List ℕ) → IsValid P (cache_response P s cmd tx rsp bytes)
  unfolding cache_response
  cache_response-IsValid cmd tx rsp bytes = device_side-IsValid _ _ _ _ _

  pub next_tx_id-IsValid : IsValid P (next_tx_id P s).1
  unfolding next_tx_id
  next_tx_id-IsValid = device_side-IsValid _ _ _ _ _

  pub reset_device_state-IsValid : IsValid P (reset_device_state P s)
  unfolding reset_device_state
  reset_device_state-IsValid = device_side-IsValid _ _ _ _ _
