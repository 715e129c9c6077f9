-- ===== src/Example/TestArm.antt =====
-- examples/test_arm.cpp: a host that moves one joint of an arm, as far as it uses the stack.
use florid_usb_protocols.Prelude.{
  ℕ, Bool, true, false, Option, some, List, [], ◌∷◌, length, take, replicate, get_or, leb, ◌==◌,
  if◌then◌else◌,
}
use florid_usb_protocols.Platform.{Platform}
use florid_usb_protocols.Rpl.{Rpl}
use florid_usb_protocols.Packet.{PacketTraits, sizeof}
use florid_usb_protocols.Packet.Enums.{SetMotorStateStatus, set_motor_state_status_byte}
use florid_usb_protocols.Packet.Traits.{
  ack_packet_traits, set_mit_limit_request_packet_traits, set_mit_limit_response_packet_traits,
  set_motor_state_request_packet_traits, set_motor_state_response_packet_traits,
  joint_command_packet_traits, emergency_stop_packet_traits, arm_status_traits,
  motor_feedback_array_traits,
}
use florid_usb_protocols.Session.Entry.{response, error}
use florid_usb_protocols.Stack.{
  Stack, Call, handled, called_back, init_stack, register_handler, set_send_frame, send,
}
use florid_usb_protocols.Example.Host.{host_config}

abbrev pub types : List PacketTraits
types =
    ack_packet_traits ∷ set_mit_limit_request_packet_traits ∷ set_mit_limit_response_packet_traits
    ∷ set_motor_state_request_packet_traits ∷ set_motor_state_response_packet_traits
    ∷ joint_command_packet_traits ∷ emergency_stop_packet_traits ∷ arm_status_traits
    ∷ motor_feedback_array_traits ∷ []

abbrev pub sizeof_arm_status : ℕ
sizeof_arm_status = sizeof arm_status_traits.layout

abbrev pub sizeof_motor_feedback_array : ℕ
sizeof_motor_feedback_array = sizeof motor_feedback_array_traits.layout

-- HostTransport, without the serial port and the stack; the packets are shown as their bytes.
pub record Transport : Type 0 where
  pub done : Bool
  pub success : Bool
  pub last_status : ℕ
  pub last_arm_status : List ℕ
  pub last_motor_fb : List ℕ
  pub arm_status_received : Bool
  pub motor_fb_received : Bool

abbrev pub transport : Transport
transport = record {
  done = false;
  success = false;
  last_status = 0;
  last_arm_status = replicate sizeof_arm_status 0;
  last_motor_fb = replicate sizeof_motor_feedback_array 0;
  arm_status_received = false;
  motor_fb_received = false;
}

abbrev pub handle_arm_status : List ℕ → Transport → Transport
handle_arm_status bytes t =
    if leb sizeof_arm_status (length bytes)
    then record t { last_arm_status = take sizeof_arm_status bytes; arm_status_received = true }
    else t

abbrev pub handle_motor_fb : List ℕ → Transport → Transport
handle_motor_fb bytes t =
    if leb sizeof_motor_feedback_array (length bytes)
    then record t {
      last_motor_fb = take sizeof_motor_feedback_array bytes;
      motor_fb_received = true;
    }
    else t

-- The lambdas that `main` gives to `send`, the same for both requests; the status is the byte behind
-- the transaction id.
abbrev pub state_response : List ℕ → Transport → Transport
state_response bytes t =
    let whole = length bytes == sizeof set_motor_state_response_packet_traits.layout in
    record t {
      done = true;
      last_status = if whole then get_or bytes 4 0 else t.last_status;
      success =
          if whole
          then get_or bytes 4 0 == set_motor_state_status_byte SetMotorStateStatus.ok
          else t.success;
    }

abbrev pub state_error : Transport → Transport
state_error t = record t { last_status = 0xff; done = true }

-- The handler of ArmStatus is the number 0, that of MotorFeedbackArray 1; the callbacks are the only
-- ones.
abbrev pub called : Call → Transport → Transport
called (handled handler cmd_id tx_id bytes) t =
    if handler == 0 then handle_arm_status bytes t else handle_motor_fb bytes t
called (called_back (response cb bytes)) t = state_response bytes t
called (called_back (error cb e)) t = state_error t

abbrev pub all_called : List Call → Transport → Transport
all_called [] t = t
all_called (c ∷ calls) t = all_called calls (called c t)

module _ (P : Platform) (R : Rpl) where
  -- The transport, after the calls of the stack.
  abbrev pub transport_of : Stack P R → Transport
  transport_of s = all_called s.calls transport

  abbrev pub arm_stack : Stack P R
  arm_stack =
      register_handler P R
        (register_handler P R (set_send_frame P R (init_stack P R host_config 5000) (some 0))
          arm_status_traits.cmd (some 0))
        motor_feedback_array_traits.cmd (some 1)

  -- `state` is the byte of the MotorStateValue.
  abbrev pub set_motor_state : Stack P R → (state now : ℕ) → ℕ × Stack P R
  set_motor_state s state now =
      send P R s set_motor_state_request_packet_traits set_motor_state_response_packet_traits
        (5 ∷ state ∷ []) (some 0) (some 1) 200000 3 now

  -- The bytes that the serial port is given, past the transmit queue.
  abbrev pub send_fire_and_forget : PacketTraits → List ℕ → Option (List ℕ)
  send_fire_and_forget t packet = R.serialize 512 t packet
