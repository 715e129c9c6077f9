-- ===== src/Session.antt =====
-- include/ReliableSession.hpp: the state of a session and its operations.
-- Time is a number: `now` is what `Clock::now()` returns in a call. A callback is the number of a
-- std::function, `none` an empty one; what an operation calls is its list of events.
pub mod Entry
pub mod Device
pub mod Poll
pub mod Invariant
pub mod Outbound
pub mod Deadline
pub mod Answer
pub mod Run
use florid_usb_protocols.Prelude.{
  ℕ, zero, suc, ◌+◌, ◌-◌, ◌%◌, ◌^◌, Bool, true, false, not, ◌&&◌, ◌||◌, Option, none, some, List,
  [], ◌∷◌, ◌++◌, length, get_elem?, take, replicate, ltb, ◌==◌, if◌then◌else◌,
}
use florid_usb_protocols.Prelude.Eq.{nat_regular}
use florid_usb_protocols.Platform.{Platform}
use florid_usb_protocols.IdRing.{
  IdRing, DedupKey, test_and_insert, cleared, compose_dedup_key, seen_id_ring_bits,
}
use Entry.{
  PendingEntry, CompletedResponse, RequestResult, RetransmitEntry, SessionError, timed_out, Event,
  responded, failed, store_packet, stored_len, entry_of,
}

pub record Config : Type 0 where
  pub window_size : ℕ
  pub timeout : ℕ
  pub max_retries : ℕ
  pub device_cache_capacity : ℕ

pub record Session (P : Platform) : Type 0 where
  pub config : Config
  pub next_tx_id : ℕ
  pub inflight_count : ℕ
  pub pending : P.Map PendingEntry
  pub outbound_queue : List ℕ
  pub completed_cache : P.Map CompletedResponse
  pub completed_order : List DedupKey
  pub seen_requests : IdRing ℕ
  pub seen_responses : IdRing ℕ

-- `if (!earliest.has_value() || pending.deadline < *earliest) earliest = pending.deadline;`
unfoldable pub sooner : ℕ → Option ℕ → Option ℕ
sooner deadline none = some deadline
sooner deadline (some d) = if ltb deadline d then some deadline else some d

unfoldable pub earliest : Option ℕ → List (ℕ × PendingEntry) → Option ℕ
unfolding sooner
earliest best [] = best
earliest best ((tx_id, p) ∷ rest) =
    earliest (if p.inflight then sooner p.deadline best else best) rest

-- `m_inflight_count -= 1`, where the entry was in flight and the count is not 0.
abbrev pub release_slot : PendingEntry → ℕ → ℕ
release_slot p count = if p.inflight && ltb 0 count then count - 1 else count

module _ (P : Platform) where
  -- The constructor: a window of 0 becomes 1.
  unfoldable pub init : Config → Session P
  init c = record {
    config = if c.window_size == 0 then record c { window_size = 1 } else c;
    next_tx_id = 1;
    inflight_count = 0;
    pending = P.empty PendingEntry;
    outbound_queue = [];
    completed_cache = P.empty CompletedResponse;
    completed_order = [];
    seen_requests = cleared seen_id_ring_bits;
    seen_responses = cleared seen_id_ring_bits;
  }

  -- `return m_next_tx_id++;` on a uint32_t.
  unfoldable pub next_tx_id : Session P → ℕ × Session P
  next_tx_id s = (s.next_tx_id, record s { next_tx_id = (s.next_tx_id + 1) % 2 ^ 32 })

  unfoldable pub set_next_tx_id : Session P → ℕ → Session P
  set_next_tx_id s id = record s { next_tx_id = if id == 0 then 1 else id }

  -- `request` holds the `request_len` bytes behind `request_bytes`.
  unfoldable pub register_pending :
      Session P
      → (tx_id request_cmd response_cmd : ℕ) (request : List ℕ)
      → (on_response on_error : Option ℕ) (timeout max_retries now : ℕ) → Session P
  register_pending s tx_id request_cmd response_cmd request on_response on_error timeout max_retries
        now =
      record s {
        pending = P.insert_or_assign PendingEntry tx_id entry s.pending;
        outbound_queue = s.outbound_queue ++ (tx_id ∷ []);
      }
    where
      entry : PendingEntry
      entry = record {
        tx_id = tx_id;
        request_cmd = request_cmd;
        response_cmd = response_cmd;
        request_bytes = store_packet request;
        request_len = stored_len request;
        on_response = on_response;
        on_error = on_error;
        timeout = timeout;
        max_retries = max_retries;
        retry_count = 0;
        inflight = false;
        deadline = now + timeout;
      }

  on_ack_entry : Session P → ℕ → ℕ → Option PendingEntry → Session P
  on_ack_entry s tx_id now none = s
  on_ack_entry s tx_id now (some p) = if not p.inflight then s else record s {
    pending =
        P.insert_or_assign PendingEntry tx_id (record p { deadline = now + p.timeout }) s.pending;
  }

  unfoldable pub on_ack : Session P → (tx_id now : ℕ) → Session P
  unfolding on_ack_entry
  on_ack s tx_id now = on_ack_entry s tx_id now (P.find PendingEntry tx_id s.pending)

  on_response_entry :
      Session P → (cmd_id tx_id : ℕ) (bytes : List ℕ) → Option PendingEntry → Session P × List Event
  on_response_entry s cmd_id tx_id bytes none = (s, [])
  on_response_entry s cmd_id tx_id bytes (some p) = (
    record s {
      inflight_count = release_slot p s.inflight_count;
      pending = P.erase PendingEntry tx_id s.pending;
    },
    if p.response_cmd == cmd_id then responded p.on_response bytes else [],
  )

  unfoldable pub on_response :
      Session P → (cmd_id tx_id : ℕ) (bytes : List ℕ) → Session P × List Event
  unfolding on_response_entry
  on_response s cmd_id tx_id bytes =
      let (seen, ring) =
        test_and_insert P.size_bits seen_id_ring_bits s.seen_responses
          (compose_dedup_key cmd_id tx_id) in
      let s' = record s { seen_responses = ring } in
      if seen
      then (s', [])
      else on_response_entry s' cmd_id tx_id bytes (P.find PendingEntry tx_id s.pending)

  -- The loop of `next_outbound`; the list is `m_outbound_queue`.
  unfoldable pub next_outbound_loop : Session P → ℕ → List ℕ → Option RetransmitEntry × Session P
  next_outbound_loop s now [] = (none, record s { outbound_queue = [] })
  next_outbound_loop s now (tx_id ∷ queue) =
      if ltb s.inflight_count s.config.window_size
      then elim (P.find PendingEntry tx_id s.pending) [
        | none ↦ next_outbound_loop s now queue
        | some p ↦ (
          some (entry_of p),
          record s {
            inflight_count = s.inflight_count + 1;
            outbound_queue = queue;
            pending =
                P.insert_or_assign PendingEntry tx_id
                  (record p { inflight = true; deadline = now + p.timeout }) s.pending;
          },
        )
      ]
      else (none, record s { outbound_queue = tx_id ∷ queue })

  unfoldable pub next_outbound : Session P → ℕ → Option RetransmitEntry × Session P
  unfolding next_outbound_loop
  next_outbound s now = next_outbound_loop s now s.outbound_queue

  unfoldable pub next_deadline : Session P → Option ℕ
  unfolding earliest
  next_deadline s = earliest none (P.entries PendingEntry s.pending)
