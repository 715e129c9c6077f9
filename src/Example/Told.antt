-- ===== src/Example/Told.antt =====
-- The host of examples/send_serial.cpp, from its request to the response of the device of
-- examples/receive_serial.cpp.
use florid_usb_protocols.Prelude.{
  drop, ℕ, ◌+◌, ◌<◌, ◌≡◌, refl, ap, ◌∙◌, Bool, if◌then◌else◌, Bool-cases, inl, inr, true, false,
  Option, none, some, List, [], arith, ltb, ==_refl, length,
}
use florid_usb_protocols.Prelude.Eq.{nat_regular}
use florid_usb_protocols.Platform.{Platform, IsPlatform}
use florid_usb_protocols.Packet.{sizeof, bit_size, to_bytes}
use florid_usb_protocols.Packet.Enums.{set_mit_limit_status_byte}
use florid_usb_protocols.IdRing.{
  cleared, contains, test_and_insert, compose_dedup_key, seen_id_ring_bits,
}
use florid_usb_protocols.IdRing.Retention.{insert_all, insert_all_no_false_positive}
use florid_usb_protocols.Session.{
  init, next_tx_id, Session, register_pending, on_response, next_outbound,
}
use florid_usb_protocols.Session.Entry.{
  PendingEntry, RetransmitEntry, responded, entry_of, packet_of,
}
use florid_usb_protocols.Session.Answer.{
  stored_whole, registered, next_outbound_now, on_response_pending,
}
use florid_usb_protocols.Example.{request_cmd, response_cmd, request}
use florid_usb_protocols.Example.Serves.{request_small}
use florid_usb_protocols.Example.Device.{response}
use florid_usb_protocols.Stack.{send, init_stack, set_send_frame}
use florid_usb_protocols.Rpl.{Rpl}
use florid_usb_protocols.Example.Host.{
  no_flags, host_callbacks, exit_code, host_config, set_mit_limit, host_stack, host_send,
}

-- What the host gets for the request `asking`, once `next_outbound` has returned `out`: the packet
-- that goes out, the flags after the response, and what is left of the request in the session.
pub record IsTold (P : Platform) (s : Session P) (tx joint : ℕ) (asking : List ℕ)
    (out : Option RetransmitEntry × Session P) : Type 0 where
  pub sent : (r : RetransmitEntry) × (out.0 ≡ some r) × (packet_of r ≡ asking)
  pub told :
      host_callbacks (on_response P out.1 response_cmd tx (response tx asking)).1 no_flags
      ≡ record { done = true; success = ltb joint 6 }
  pub dropped :
      P.find PendingEntry tx (on_response P out.1 response_cmd tx (response tx asking)).0.pending
      ≡ none
  pub freed :
      (on_response P out.1 response_cmd tx (response tx asking)).0.inflight_count ≡ s.inflight_count

pub exit_code_done :
    (b : Bool) → exit_code (record { done = true; success = b }) ≡ (if b then 0 else 1)
exit_code_done true = refl
exit_code_done false = refl

-- The flags of the host, when its callback has the response of the device.
pub flags-response :
    (tx joint : ℕ) (limits : List ℕ)
    → host_callbacks (responded (some 0) (response tx (request tx joint limits))) no_flags
      ≡ record { done = true; success = ltb joint 6 }
unfolding to_bytes sizeof bit_size set_mit_limit_status_byte
flags-response tx joint limits = elim (Bool-cases (ltb joint 6)) [
  | inl good ↦ rw good refl
  | inr bad ↦ rw bad refl
]

module _ (P : Platform) (L : IsPlatform P) where
  -- With a map that behaves as documented, nothing queued, room in the window and no response seen
  -- for the transaction: the request of the host of the example goes out whole at the next call,
  -- and once the response of the device comes the host is done, has success exactly if the joint is
  -- below 6, and the entry and its slot in the window are free again.
  pub host-IsTold :
      (s : Session P) (tx joint : ℕ) (limits : List ℕ) (timeout tries now later : ℕ)
      → length limits ≡ 8
      → s.outbound_queue ≡ []
      → s.inflight_count < s.config.window_size
      → (test_and_insert P.size_bits seen_id_ring_bits s.seen_responses
          (compose_dedup_key response_cmd tx)).0
        ≡ false
      → let asking = request tx joint limits in
        IsTold P s tx joint asking (
          next_outbound P
            (register_pending P s tx request_cmd response_cmd asking
              (some 0)
              (some 1)
              timeout
              tries
              now)
            later)
  unfolding register_pending
  host-IsTold s tx joint limits timeout tries now later size idle room new =
      let asking = request tx joint limits in
      let p = registered tx request_cmd response_cmd asking (some 0) (some 1) timeout tries now in
      let flying = record p { inflight = true; deadline = later + timeout } in
      let asked =
        register_pending P s tx request_cmd response_cmd asking (some 0) (some 1) timeout tries
          now in
      let out =
        next_outbound_now P L s tx request_cmd response_cmd asking (some 0) (some 1) timeout tries
          now later idle room in
      let small = request_small tx joint limits size in
      let unseen : (test_and_insert P.size_bits seen_id_ring_bits
            (next_outbound P asked later).1.seen_responses (compose_dedup_key response_cmd tx)).0
          ≡ false =
        ap
          (λ o.
            (test_and_insert P.size_bits seen_id_ring_bits o.1.seen_responses
              (compose_dedup_key response_cmd tx)).0)
          out
        ∙ new in
      let here : P.find PendingEntry tx (next_outbound P asked later).1.pending ≡ some flying =
        ap (λ o. P.find PendingEntry tx o.1.pending) out
        ∙ L.find-insert PendingEntry tx tx flying asked.pending
        ∙ rw (==_refl tx) refl in
      let end =
        on_response_pending P L (next_outbound P asked later).1 response_cmd tx (response tx asking)
          flying unseen here refl in
      record {
        sent = (entry_of p, ap (λ o. o.0) out, stored_whole asking small);
        told = ap (λ es. host_callbacks es no_flags) end.0 ∙ flags-response tx joint limits;
        dropped = end.1;
        freed = ground (arith, end.2, ap (λ o. o.1.inflight_count) out);
      }

  -- The program of the host ends with 0, once the response of the device has come.
  pub send_serial_succeeds :
      (R : Rpl) (now later : ℕ)
      → let s = (host_send P R (host_stack P R) now).1.session in
        let asking = request 1 2 (drop 1 set_mit_limit) in
        exit_code (
          host_callbacks
            (on_response P (next_outbound P s later).1 response_cmd 1 (response 1 asking)).1
            no_flags)
        ≡ 0
  unfolding send init_stack set_send_frame init next_tx_id insert_all contains compose_dedup_key
  send_serial_succeeds R now later =
      ap exit_code
        (host-IsTold (next_tx_id P (init P host_config)).1 1 2 (drop 1 set_mit_limit) 200000 3 now
          later refl refl (omega arith) new).told
    where
      new :
          (test_and_insert P.size_bits seen_id_ring_bits
            (cleared seen_id_ring_bits)
            (compose_dedup_key response_cmd 1)).0
          ≡ false
      new =
          insert_all_no_false_positive P.size_bits seen_id_ring_bits []
            (compose_dedup_key response_cmd 1) refl refl
