-- ===== src/Tests/Stacks.antt =====
-- Runs of the stack of include/ProtocolStack.hpp.
use florid_usb_protocols.Prelude.{
  ◌+◌, ◌≡◌, refl, true, false, none, some, ℕ, List, [], ◌∷◌, ◌++◌, ◌≤◌, arith, length, ltb,
}
use florid_usb_protocols.Prelude.Eq.{nat_regular}
use florid_usb_protocols.Packet.{
  PacketTraits, sizeof, bit_size, offset, to_bytes, tx_id_offset, load_tx_id, from_bytes,
}
use florid_usb_protocols.Packet.Traits.{
  ack_packet_traits, set_zero_request_packet_traits, set_zero_response_packet_traits,
  motor_feedback_array_traits,
}
use florid_usb_protocols.Packet.Region.{is_request_cmd, extract_tx_id_from_raw}
use florid_usb_protocols.Packet.Exchange.{all_types}
use florid_usb_protocols.IdRing.{
  test_and_insert, contains, cleared, compose_dedup_key, seen_id_ring_bits,
}
use florid_usb_protocols.Session.Entry.{CompletedResponse, completed_response}
use florid_usb_protocols.TxQueue.{max_frame_size, tx_queue_cap}
use florid_usb_protocols.Session.{init}
use florid_usb_protocols.Session.Device.{on_request, cache_response, shrink}
use florid_usb_protocols.Stack.{
  Stack, App, init_stack, isr_feed, send, send_response_and_cache, rx_available,
}
use florid_usb_protocols.Stack.Cycle.{
  handle_packet_internal, handle_session_outbound, OutboundRun, drain_rx, run_one_cycle,
}
use florid_usb_protocols.Stack.Invariant.{
  IsStackValid, IsApp, init_stack-IsStackValid, isr_feed-IsStackValid,
  send_response_and_cache-IsStackValid,
}
use florid_usb_protocols.Stack.Run.{call, feed, cycle, Reach, start, later, Reach-IsStackValid}
use florid_usb_protocols.Stack.Drain.{LeavesRing, drain_rx_empties}
use florid_usb_protocols.Stack.Outbound.{handle_session_outbound-OutboundRun}
use florid_usb_protocols.Stack.Requests.{motor_feedback_ignored}
use florid_usb_protocols.Stack.Replaying.{duplicate_resent}
use florid_usb_protocols.Stack.Serving.{prebuilt, ack_bytes}
use florid_usb_protocols.Tests.{host, host-IsPlatform, config, plain_rpl}
use florid_usb_protocols.Tests.Sessions.{fresh, request}

abbrev pub fresh_stack : Stack host plain_rpl
fresh_stack = init_stack host plain_rpl config 5

fresh_stack-IsStackValid : IsStackValid host plain_rpl fresh_stack
fresh_stack-IsStackValid = init_stack-IsStackValid host host-IsPlatform plain_rpl config 5

abbrev fed_stack : Stack host plain_rpl
fed_stack = isr_feed host plain_rpl fresh_stack (1 ∷ 0 ∷ 0 ∷ 0 ∷ 7 ∷ 97 ∷ 0 ∷ [])

fed_stack-IsStackValid : IsStackValid host plain_rpl fed_stack
fed_stack-IsStackValid =
    isr_feed-IsStackValid host host-IsPlatform plain_rpl fresh_stack
      (1 ∷ 0 ∷ 0 ∷ 0 ∷ 7 ∷ 97 ∷ 0 ∷ []) fresh_stack-IsStackValid

-- A device that answers each request with one byte.
abbrev pub device : App host plain_rpl
device = record {
  request_handler = λ h cmd_id tx_id bytes s.
      (send_response_and_cache host plain_rpl s set_zero_request_packet_traits
        set_zero_response_packet_traits tx_id (0 ∷ [])).1;
  session_callback = λ e s. s;
}

device-IsApp : IsApp host plain_rpl device
device-IsApp = record {
  handler_valid = λ h cmd_id tx_id bytes s v.
      send_response_and_cache-IsStackValid host host-IsPlatform plain_rpl s
        set_zero_request_packet_traits set_zero_response_packet_traits tx_id (0 ∷ []) v;
  callback_valid = λ e s v. v;
}

device-LeavesRing : LeavesRing host plain_rpl device
unfolding send_response_and_cache
device-LeavesRing = record {
  handler_leaves = λ h cmd_id tx_id bytes s. ground arith;
  callback_leaves = λ e s. refl;
}

abbrev types : List PacketTraits
types = set_zero_request_packet_traits ∷ []

-- A request is sent, bytes come in, and a cycle runs.
abbrev asked_stack : Stack host plain_rpl
asked_stack =
    (send host plain_rpl fresh_stack set_zero_request_packet_traits set_zero_response_packet_traits
      (5 ∷ []) (some 7) none 10 3 0).1

abbrev cycled_stack : Stack host plain_rpl
cycled_stack =
    (run_one_cycle host plain_rpl types device (λ i j. i + j) (λ i. i) 9 (λ tx. tx) true
      (isr_feed host plain_rpl asked_stack (1 ∷ 0 ∷ 0 ∷ 0 ∷ 7 ∷ 97 ∷ 0 ∷ []))).1

cycled_stack-Reach : Reach host plain_rpl types device config 5 cycled_stack
unfolding init_stack init
cycled_stack-Reach =
    later
      (later
        (later start (
          call set_zero_request_packet_traits set_zero_response_packet_traits (5 ∷ []) (some 7) none
            10 3 0 (omega arith) (omega arith)))
        (feed (1 ∷ 0 ∷ 0 ∷ 0 ∷ 7 ∷ 97 ∷ 0 ∷ [])))
      (cycle (λ i j. i + j) (λ i. i) 9 (λ tx. tx) true)

Reach-IsStackValid_example : IsStackValid host plain_rpl cycled_stack
Reach-IsStackValid_example =
    Reach-IsStackValid host plain_rpl types device host-IsPlatform device-IsApp cycled_stack-Reach

drain_rx_empties_example :
    rx_available host plain_rpl (drain_rx host plain_rpl types device (λ i j. i + j) fed_stack) ≡ 0
drain_rx_empties_example =
    drain_rx_empties host host-IsPlatform plain_rpl types device device-IsApp device-LeavesRing
      (λ i j. i + j) fed_stack fed_stack-IsStackValid

handle_session_outbound-OutboundRun_example :
    OutboundRun host plain_rpl types
      (λ i. i)
      0
      asked_stack
      (handle_session_outbound host plain_rpl types (λ i. i) asked_stack)
handle_session_outbound-OutboundRun_example =
    handle_session_outbound-OutboundRun host plain_rpl types (λ i. i) asked_stack

motor_feedback_ignored_example :
    handle_packet_internal host plain_rpl all_types device 4 motor_feedback_array_traits.cmd
      (1 ∷ [])
      fed_stack
    ≡ fed_stack
motor_feedback_ignored_example = motor_feedback_ignored host plain_rpl device 4 (1 ∷ []) fed_stack

-- A device that has answered the request 1.
abbrev answered : Stack host plain_rpl
answered = record fresh_stack {
  session = cache_response host (on_request host fresh 0x6107 1).1 0x6107 1 0x6108 request;
}

has_id : extract_tx_id_from_raw types 0x6107 request ≡ 1
unfolding extract_tx_id_from_raw tx_id_offset offset sizeof bit_size load_tx_id from_bytes
has_id = refl

is_reliable_request : (is_request_cmd 0x6107 ≡ true) × (ltb 0x6107 0x6300 ≡ true) × (false ≡ false)
unfolding is_request_cmd
is_reliable_request = (refl, refl, refl)

answered_seen :
    (test_and_insert host.size_bits seen_id_ring_bits answered.session.seen_requests
      (compose_dedup_key 0x6107 1)).0
    ≡ true
unfolding init on_request cache_response test_and_insert contains cleared compose_dedup_key
answered_seen = refl

answered_found :
    host.find CompletedResponse (compose_dedup_key 0x6107 1) answered.session.completed_cache
    ≡ some (completed_response 0x6108 request)
unfolding init on_request cache_response shrink compose_dedup_key test_and_insert contains cleared
answered_found = refl

abbrev ack_frame : List ℕ
ack_frame = 1 ∷ 0 ∷ 0 ∷ 0 ∷ 7 ∷ 97 ∷ 0 ∷ []

ack_made :
    plain_rpl.serialize max_frame_size ack_packet_traits (ack_bytes 0x6107 1) ≡ some ack_frame
unfolding to_bytes
ack_made = refl

no_queue : length answered.tx_queue + 2 ≤ tx_queue_cap
unfolding init_stack
no_queue = omega arith

duplicate_resent_example :
    handle_packet_internal host plain_rpl types device 3 0x6107 request answered ≡ record answered {
      tx_queue = answered.tx_queue ++ (prebuilt ack_frame ∷ prebuilt request ∷ []);
    }
duplicate_resent_example =
    duplicate_resent host plain_rpl types device 3 0x6107 1 0x6108 request request ack_frame
      answered is_reliable_request has_id (omega arith) answered_seen answered_found (omega arith)
      (omega arith) ack_made (omega arith) no_queue
