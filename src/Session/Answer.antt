-- ===== src/Session/Answer.antt =====
-- A request of include/ReliableSession.hpp from `register_pending` to its response.
use florid_usb_protocols.Prelude.{
  ℕ, ◌+◌, ◌-◌, ◌≤◌, ◌<◌, ◌≡◌, refl, ap, ◌∙◌, true, false, Option, none, some, List, [], ◌++◌, arith,
  ltb, leb, ==_refl, length, take, replicate, take_all, take_front,
}
use florid_usb_protocols.Prelude.Eq.{nat_regular}
use florid_usb_protocols.Platform.{Platform, IsPlatform}
use florid_usb_protocols.IdRing.{test_and_insert, compose_dedup_key, seen_id_ring_bits}
use florid_usb_protocols.Session.{
  Session, register_pending, on_response, on_response_entry, next_outbound, next_outbound_loop,
  release_slot,
}
use florid_usb_protocols.Session.Entry.{PendingEntry, responded, store_packet, stored_len, entry_of}

-- A packet of 256 bytes at most is read back whole from its buffer.
pub stored_whole :
    (frame : List ℕ) → length frame ≤ 256 → take (stored_len frame) (store_packet frame) ≡ frame
stored_whole frame h =
    let fits : leb (length frame) 256 ≡ true = ground arith in
    rw fits (
      ap (λ xs. take (length frame) (xs ++ replicate (256 - length frame) 0))
        (take_all (length frame) frame (omega arith))
      ∙ take_front frame _)

-- The entry that `register_pending` makes.
abbrev pub registered :
    (tx req rsp : ℕ) → List ℕ → (ok err : Option ℕ) (timeout tries now : ℕ) → PendingEntry
registered tx req rsp bytes ok err timeout tries now = record {
  tx_id = tx;
  request_cmd = req;
  response_cmd = rsp;
  request_bytes = store_packet bytes;
  request_len = stored_len bytes;
  on_response = ok;
  on_error = err;
  timeout = timeout;
  max_retries = tries;
  retry_count = 0;
  inflight = false;
  deadline = now + timeout;
}

module _ (P : Platform) (L : IsPlatform P) where
  -- With nothing queued and room in the window, a request goes out at the next call.
  pub next_outbound_now :
      (s : Session P) (tx req rsp : ℕ) (bytes : List ℕ) (ok err : Option ℕ)
      → (timeout tries now later : ℕ) → s.outbound_queue ≡ []
      → s.inflight_count < s.config.window_size
      → let p = registered tx req rsp bytes ok err timeout tries now in
        let s1 = register_pending P s tx req rsp bytes ok err timeout tries now in
        next_outbound P s1 later ≡ (
          some (entry_of p),
          record s1 {
            inflight_count = s.inflight_count + 1;
            outbound_queue = [];
            pending =
                P.insert_or_assign PendingEntry tx
                  (record p { inflight = true; deadline = later + timeout })
                  s1.pending;
          },
        )
  unfolding next_outbound next_outbound_loop register_pending
  next_outbound_now s tx req rsp bytes ok err timeout tries now later idle room =
      let p = registered tx req rsp bytes ok err timeout tries now in
      let free : ltb s.inflight_count s.config.window_size ≡ true = ground (arith, room) in
      let here : P.find PendingEntry tx (P.insert_or_assign PendingEntry tx p s.pending) ≡ some p =
        L.find-insert PendingEntry tx tx p s.pending ∙ rw (==_refl tx) refl in
      rw (next_outbound, idle, next_outbound_loop, free, here) refl

  -- A response for an entry in flight, with the command that it waits for.
  pub on_response_taken :
      (s : Session P) (cmd tx : ℕ) (bytes : List ℕ) (p : PendingEntry)
      → let seen =
          test_and_insert P.size_bits seen_id_ring_bits s.seen_responses
            (compose_dedup_key cmd tx) in
        seen.0 ≡ false
        → P.find PendingEntry tx s.pending ≡ some p
        → p.response_cmd ≡ cmd
        → on_response P s cmd tx bytes ≡ (
          record s {
            seen_responses = seen.1;
            inflight_count = release_slot p s.inflight_count;
            pending = P.erase PendingEntry tx s.pending;
          },
          responded p.on_response bytes,
        )
  unfolding on_response on_response_entry
  on_response_taken s cmd tx bytes p new is same = rw (new, is) (rw (same, ==_refl cmd) refl)

  -- What becomes of the entry.
  pub on_response_pending :
      (s : Session P) (cmd tx : ℕ) (bytes : List ℕ) (p : PendingEntry)
      → (test_and_insert P.size_bits seen_id_ring_bits s.seen_responses
          (compose_dedup_key cmd tx)).0
        ≡ false
      → P.find PendingEntry tx s.pending ≡ some p
      → p.response_cmd ≡ cmd
      → ((on_response P s cmd tx bytes).1 ≡ responded p.on_response bytes)
        × (P.find PendingEntry tx (on_response P s cmd tx bytes).0.pending ≡ none)
        × ((on_response P s cmd tx bytes).0.inflight_count ≡ release_slot p s.inflight_count)
  on_response_pending s cmd tx bytes p new is same =
      rw (on_response_taken s cmd tx bytes p new is same)
        (refl, L.find-erase PendingEntry tx tx s.pending ∙ rw (==_refl tx) refl, refl)
