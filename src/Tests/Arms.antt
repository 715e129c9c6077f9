-- ===== src/Tests/Arms.antt =====
-- Runs with the packets of examples/test_arm.cpp, and the log of a device.
use florid_usb_protocols.Prelude.{
  ℕ, ◌+◌, ◌≡◌, refl, true, none, some, List, [], ◌∷◌, arith, leb, length, replicate, ◌==◌,
  if◌then◌else◌,
}
use florid_usb_protocols.Rpl.{Rpl}
use florid_usb_protocols.Packet.{PacketTraits, sizeof, bit_size}
use florid_usb_protocols.Packet.Traits.{arm_status_traits, motor_feedback_array_traits}
use florid_usb_protocols.Stack.{
  Stack, init_stack, isr_feed, set_send_frame, register_handler, send_response_and_cache,
}
use florid_usb_protocols.Stack.Cycle.{push_data, run_one_cycle}
use florid_usb_protocols.Stack.Calls.{LeavesCalls, IsClean}
use florid_usb_protocols.Stack.Calls.Cycle.{Reach-IsClean}
use florid_usb_protocols.Stack.Run.{
  serve, transport as use_transport, feed, cycle, Reach, start, later,
}
use florid_usb_protocols.Example.{types, request_cmd}
use florid_usb_protocols.Example.Device.{device, device_config, handle_set_mit_limit}
use florid_usb_protocols.Example.Host.{host as host_app}
use florid_usb_protocols.Example.Serves.{IsCarried}
use florid_usb_protocols.Example.TestArm.{types as arm_types, transport_of, arm_stack}
use florid_usb_protocols.Example.Telemetry.{telemetry_told}
use florid_usb_protocols.Tests.{host}
use florid_usb_protocols.Tests.Exchanges.{tagged_rpl, asking}

-- A frame is the command and the bytes of the packet.
abbrev packets_of : List PacketTraits → List ℕ → List (PacketTraits × List ℕ)
packets_of ts [] = []
packets_of [] (cmd ∷ bytes) = []
packets_of (t ∷ ts) (cmd ∷ bytes) =
    let rest = packets_of ts (cmd ∷ bytes) in if t.cmd == cmd then (t, bytes) ∷ [] else rest

abbrev arm_rpl : Rpl
arm_rpl = record {
  Parser = Unit;
  parser = tt;
  push_data = λ p frame. (p, packets_of arm_types frame);
  advance_write_index = λ p bytes. (true, p, []);
  serialize = λ limit t bytes. if leb (length bytes + 1) limit then some (t.cmd ∷ bytes) else none;
}

abbrev status : List ℕ
status = replicate 120 7

abbrev motors : List ℕ
motors = replicate 96 5

status-IsCarried : IsCarried arm_rpl arm_status_traits status (0x6001 ∷ status)
status-IsCarried = record {
  made = refl;
  parsed = refl;
  some_bytes = omega arith;
  fits = omega arith;
}

motors-IsCarried : IsCarried arm_rpl motor_feedback_array_traits motors (0x6002 ∷ motors)
motors-IsCarried = record {
  made = refl;
  parsed = refl;
  some_bytes = omega arith;
  fits = omega arith;
}

telemetry_told_example :
    let s = arm_stack host arm_rpl in
    (transport_of host arm_rpl
        (push_data host arm_rpl arm_types (host_app host arm_rpl) (λ i. i) (0x6001 ∷ status) s)
      ≡ record (transport_of host arm_rpl s) {
        last_arm_status = status;
        arm_status_received = true;
      })
    × (push_data host arm_rpl arm_types (host_app host arm_rpl) (λ i. i) (0x6002 ∷ motors) s ≡ s)
unfolding init_stack set_send_frame register_handler sizeof bit_size
telemetry_told_example =
    telemetry_told host arm_rpl (λ i. i) (arm_stack host arm_rpl) status motors (0x6001 ∷ status)
      (0x6002 ∷ motors) refl refl refl status-IsCarried motors-IsCarried

device-LeavesCalls : LeavesCalls host tagged_rpl (device host tagged_rpl)
unfolding handle_set_mit_limit send_response_and_cache
device-LeavesCalls = record {
  handler_leaves = λ h cmd_id tx_id bytes s. ground arith;
  callback_leaves = λ e s. refl;
}

-- The device of the example, in the cycle that serves a request.
abbrev serving : Stack host tagged_rpl
serving =
    (run_one_cycle host tagged_rpl types (device host tagged_rpl) (λ i j. i + j) (λ i. i) 9
      (λ tx. tx) true
      (isr_feed host tagged_rpl
        (set_send_frame host tagged_rpl
          (register_handler host tagged_rpl (init_stack host tagged_rpl device_config 5000)
            request_cmd (some 0))
          (some 0))
        (request_cmd ∷ asking))).1

serving-Reach : Reach host tagged_rpl types (device host tagged_rpl) device_config 5000 serving
serving-Reach =
    later
      (later (later (later start (serve request_cmd (some 0))) (use_transport (some 0)))
        (feed (request_cmd ∷ asking)))
      (cycle (λ i j. i + j) (λ i. i) 9 (λ tx. tx) true)

Reach-IsClean_example : IsClean host tagged_rpl types serving
Reach-IsClean_example =
    Reach-IsClean host tagged_rpl types (device host tagged_rpl) device-LeavesCalls serving-Reach
