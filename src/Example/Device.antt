-- ===== src/Example/Device.antt =====
-- examples/receive_serial.cpp: the device.
use florid_usb_protocols.Prelude.{
  ℕ, ◌*◌, ◌^◌, some, List, [], ◌∷◌, ◌++◌, length, get_or, ltb, ◌==◌, if◌then◌else◌,
}
use florid_usb_protocols.Platform.{Platform}
use florid_usb_protocols.Rpl.{Rpl}
use florid_usb_protocols.Packet.{sizeof, to_bytes}
use florid_usb_protocols.Packet.Enums.{SetMitLimitStatus, set_mit_limit_status_byte}
use florid_usb_protocols.Packet.Traits.{
  set_mit_limit_request_packet_traits, set_mit_limit_response_packet_traits,
}
use florid_usb_protocols.Session.{Config}
use florid_usb_protocols.Stack.{
  Stack, App, init_stack, register_handler, set_send_frame, send_response_and_cache,
}

-- `payload.joint_id`, behind the transaction id.
abbrev pub joint_id : List ℕ → ℕ
joint_id request = get_or request 4 0

abbrev pub status_of : ℕ → SetMitLimitStatus
status_of joint = if ltb joint 6 then SetMitLimitStatus.ok else SetMitLimitStatus.invalid_joint

-- The bytes of `rsp`.
abbrev pub response : ℕ → List ℕ → List ℕ
response tx_id request =
    to_bytes 4 tx_id ++ (set_mit_limit_status_byte (status_of (joint_id request)) ∷ [])

-- `steady_clock` counts nanoseconds.
abbrev pub device_config : Config
device_config = record {
  window_size = 1;
  timeout = 500 * 10 ^ 6;
  max_retries = 3;
  device_cache_capacity = 64;
}

module _ (P : Platform) (R : Rpl) where
  unfoldable pub handle_set_mit_limit : (tx_id : ℕ) → List ℕ → Stack P R → Stack P R
  handle_set_mit_limit tx_id request s =
      if length request == sizeof set_mit_limit_request_packet_traits.layout
      then (send_response_and_cache P R s set_mit_limit_request_packet_traits
          set_mit_limit_response_packet_traits tx_id (response tx_id request)).1
      else s

  -- `handle_set_mit_limit` is the only handler, the number 0; the device makes no requests.
  abbrev pub device : App P R
  device = record {
    request_handler = λ handler cmd_id tx_id request s. handle_set_mit_limit tx_id request s;
    session_callback = λ e s. s;
  }

  -- The stack of `main` when its loop begins.
  abbrev pub device_stack : Stack P R
  device_stack =
      set_send_frame P R
        (register_handler P R (init_stack P R device_config 5000)
          set_mit_limit_request_packet_traits.cmd (some 0))
        (some 0)
