-- ===== src/Example/Host.antt =====
-- examples/send_serial.cpp: the host.
use florid_usb_protocols.Prelude.{
  ℕ, ◌*◌, ◌^◌, Bool, true, false, not, some, List, [], ◌∷◌, length, get_or, ◌==◌, if◌then◌else◌,
}
use florid_usb_protocols.Platform.{Platform}
use florid_usb_protocols.Rpl.{Rpl}
use florid_usb_protocols.Packet.{sizeof}
use florid_usb_protocols.Packet.Enums.{SetMitLimitStatus, set_mit_limit_status_byte}
use florid_usb_protocols.Packet.Traits.{
  set_mit_limit_request_packet_traits, set_mit_limit_response_packet_traits,
}
use florid_usb_protocols.Session.{Config}
use florid_usb_protocols.Session.Entry.{Event, response, error}
use florid_usb_protocols.Stack.{
  Stack, App, Call, handled, called_back, init_stack, set_send_frame, send,
}

-- The members `done` and `success` of HostTransport.
pub record Flags : Type 0 where
  pub done : Bool
  pub success : Bool

abbrev pub no_flags : Flags
no_flags = record { done = false; success = false }

-- The lambdas of `main`, which are the callbacks 0 and 1.
abbrev pub host_callback : Event → Flags → Flags
host_callback (response c bytes) f = record {
  done = true;
  success =
      if length bytes == sizeof set_mit_limit_response_packet_traits.layout
      then get_or bytes 4 0 == set_mit_limit_status_byte SetMitLimitStatus.ok
      else f.success;
}
host_callback (error c e) f = record { done = true; success = false }

abbrev pub host_callbacks : List Event → Flags → Flags
host_callbacks [] f = f
host_callbacks (e ∷ es) f = host_callbacks es (host_callback e f)

abbrev pub events : List Call → List Event
events [] = []
events (handled handler cmd_id tx_id bytes ∷ calls) = events calls
events (called_back e ∷ calls) = e ∷ events calls

-- What `main` returns.
abbrev pub exit_code : Flags → ℕ
exit_code f = if not f.done then 1 else if not f.success then 1 else 0

-- `device_cache_capacity` keeps its default.
abbrev pub host_config : Config
host_config = record {
  window_size = 1;
  timeout = 500 * 10 ^ 6;
  max_retries = 3;
  device_cache_capacity = 64;
}

-- `{.joint_id = 2, .torque_limit_nm = 12.0F, .velocity_limit_rps = 6.28F}`
abbrev pub set_mit_limit : List ℕ
set_mit_limit = 2 ∷ 0 ∷ 0 ∷ 0x40 ∷ 0x41 ∷ 0xc3 ∷ 0xf5 ∷ 0xc8 ∷ 0x40 ∷ []

module _ (P : Platform) (R : Rpl) where
  abbrev pub host_stack : Stack P R
  host_stack = set_send_frame P R (init_stack P R host_config 5000) (some 0)

  -- `now` is the time of the call; the timeout and the retries are the defaults of `send`.
  abbrev pub host_asks : Stack P R → (command : List ℕ) → ℕ → ℕ × Stack P R
  host_asks s command now =
      send P R s set_mit_limit_request_packet_traits set_mit_limit_response_packet_traits command
        (some 0) (some 1) 200000 3 now

  abbrev pub host_send : Stack P R → ℕ → ℕ × Stack P R
  host_send s now = host_asks s set_mit_limit now

  -- The host registers no handler; its callbacks change the flags alone, not the stack.
  abbrev pub host : App P R
  host = record {
    request_handler = λ handler cmd_id tx_id request s. s;
    session_callback = λ e s. s;
  }

  -- The flags, after the callbacks that the stack has called.
  abbrev pub host_flags : Stack P R → Flags
  host_flags s = host_callbacks (events s.calls) no_flags
