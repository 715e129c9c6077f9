-- ===== src/Session/Entry.antt =====
-- The records of include/ReliableSession.hpp beside the session itself.
use florid_usb_protocols.Prelude.{
  ℕ, ◌-◌, Bool, Option, none, some, List, [], ◌∷◌, ◌++◌, length, take, replicate, leb,
  if◌then◌else◌,
}

pub data SessionError : Type 0 where
  transport_failure timed_out : SessionError

-- A call of a ResponseCallback with the bytes, or of an ErrorCallback.
pub data Event : Type 0 where
  response : ℕ → List ℕ → Event
  error : ℕ → SessionError → Event

-- `if (cb) cb(…)`
abbrev pub responded : Option ℕ → List ℕ → List Event
responded none bytes = []
responded (some cb) bytes = response cb bytes ∷ []

abbrev pub failed : Option ℕ → SessionError → List Event
failed none e = []
failed (some cb) e = error cb e ∷ []

abbrev pub max_packet_size : ℕ
max_packet_size = 256

-- `std::array<uint8_t, MAX_PACKET_SIZE>{}` after memcpy of as many bytes as fit, and their number.
abbrev pub stored_len : List ℕ → ℕ
stored_len bytes = if leb (length bytes) max_packet_size then length bytes else max_packet_size

abbrev pub store_packet : List ℕ → List ℕ
store_packet bytes = take n bytes ++ replicate (max_packet_size - n) 0
  where
    n : ℕ
    n = stored_len bytes

pub record PendingEntry : Type 0 where
  pub tx_id : ℕ
  pub request_cmd : ℕ
  pub response_cmd : ℕ
  pub request_bytes : List ℕ
  pub request_len : ℕ
  pub on_response : Option ℕ
  pub on_error : Option ℕ
  pub timeout : ℕ
  pub max_retries : ℕ
  pub retry_count : ℕ
  pub inflight : Bool
  pub deadline : ℕ

pub record CompletedResponse : Type 0 where
  pub response_cmd : ℕ
  pub response_bytes : List ℕ
  pub response_len : ℕ

abbrev pub completed_response : ℕ → List ℕ → CompletedResponse
completed_response cmd bytes = record {
  response_cmd = cmd;
  response_bytes = store_packet bytes;
  response_len = stored_len bytes;
}

pub record RequestResult : Type 0 where
  pub should_ack : Bool
  pub is_duplicate : Bool
  pub cached_response_data : Option (List ℕ)
  pub cached_response_len : ℕ
  pub cached_response_cmd : ℕ

-- `request_bytes` is the array that the pointer leads to.
pub record RetransmitEntry : Type 0 where
  pub tx_id : ℕ
  pub request_cmd : ℕ
  pub request_bytes : List ℕ
  pub request_len : ℕ

abbrev pub entry_of : PendingEntry → RetransmitEntry
entry_of p = record {
  tx_id = p.tx_id;
  request_cmd = p.request_cmd;
  request_bytes = p.request_bytes;
  request_len = p.request_len;
}

-- The `request_len` bytes that a caller of the entry reads.
abbrev pub packet_of : RetransmitEntry → List ℕ
packet_of r = take r.request_len r.request_bytes
