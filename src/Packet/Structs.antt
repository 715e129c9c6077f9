-- ===== src/Packet/Structs.antt =====
-- The packets of include/ArmCommand.hpp: requests, responses, and those that want no answer.
use florid_usb_protocols.Packet.{Layout, u8, u16, u32, f32, array, struct, end, member}
use florid_usb_protocols.Packet.Payloads.{
  set_mit_limit_command, set_motor_state_command, set_motor_control_mode_command, set_zero_command,
  clear_error_command, home_all_command, run_calibration_command, clear_faults_command,
  set_safety_command, sdk_client_connected_command, sdk_client_disconnected_command,
  home_done_command, set_mit_limit_response, set_motor_state_response,
  set_motor_control_mode_response, set_zero_response, clear_error_response, home_all_response,
  run_calibration_response, clear_faults_response, set_safety_response, sdk_client_notify_response,
  home_done_response, usb_session_start_command, usb_session_stop_command,
  usb_session_start_response, usb_session_stop_response, get_motor_feedback_command,
  get_motor_feedback_response,
}

abbrev pub ack_packet : Layout
ack_packet = struct (member "tx_id" u32 (member "cmd_id" u16 (member "status" u8 end)))

abbrev pub set_mit_limit_request_packet : Layout
set_mit_limit_request_packet =
    struct (member "tx_id" u32 (member "payload" set_mit_limit_command end))

abbrev pub set_motor_state_request_packet : Layout
set_motor_state_request_packet =
    struct (member "tx_id" u32 (member "payload" set_motor_state_command end))

abbrev pub set_motor_control_mode_request_packet : Layout
set_motor_control_mode_request_packet =
    struct (member "tx_id" u32 (member "payload" set_motor_control_mode_command end))

abbrev pub set_zero_request_packet : Layout
set_zero_request_packet = struct (member "tx_id" u32 (member "payload" set_zero_command end))

abbrev pub clear_error_request_packet : Layout
clear_error_request_packet = struct (member "tx_id" u32 (member "payload" clear_error_command end))

abbrev pub home_all_request_packet : Layout
home_all_request_packet = struct (member "tx_id" u32 (member "payload" home_all_command end))

abbrev pub run_calibration_request_packet : Layout
run_calibration_request_packet =
    struct (member "tx_id" u32 (member "payload" run_calibration_command end))

abbrev pub clear_faults_request_packet : Layout
clear_faults_request_packet =
    struct (member "tx_id" u32 (member "payload" clear_faults_command end))

abbrev pub set_safety_request_packet : Layout
set_safety_request_packet = struct (member "tx_id" u32 (member "payload" set_safety_command end))

abbrev pub sdk_client_connected_request_packet : Layout
sdk_client_connected_request_packet =
    struct (member "tx_id" u32 (member "payload" sdk_client_connected_command end))

abbrev pub sdk_client_disconnected_request_packet : Layout
sdk_client_disconnected_request_packet =
    struct (member "tx_id" u32 (member "payload" sdk_client_disconnected_command end))

abbrev pub home_done_request_packet : Layout
home_done_request_packet = struct (member "tx_id" u32 (member "payload" home_done_command end))

abbrev pub set_mit_limit_response_packet : Layout
set_mit_limit_response_packet =
    struct (member "tx_id" u32 (member "payload" set_mit_limit_response end))

abbrev pub set_motor_state_response_packet : Layout
set_motor_state_response_packet =
    struct (member "tx_id" u32 (member "payload" set_motor_state_response end))

abbrev pub set_motor_control_mode_response_packet : Layout
set_motor_control_mode_response_packet =
    struct (member "tx_id" u32 (member "payload" set_motor_control_mode_response end))

abbrev pub set_zero_response_packet : Layout
set_zero_response_packet = struct (member "tx_id" u32 (member "payload" set_zero_response end))

abbrev pub clear_error_response_packet : Layout
clear_error_response_packet =
    struct (member "tx_id" u32 (member "payload" clear_error_response end))

abbrev pub home_all_response_packet : Layout
home_all_response_packet = struct (member "tx_id" u32 (member "payload" home_all_response end))

abbrev pub run_calibration_response_packet : Layout
run_calibration_response_packet =
    struct (member "tx_id" u32 (member "payload" run_calibration_response end))

abbrev pub clear_faults_response_packet : Layout
clear_faults_response_packet =
    struct (member "tx_id" u32 (member "payload" clear_faults_response end))

abbrev pub set_safety_response_packet : Layout
set_safety_response_packet = struct (member "tx_id" u32 (member "payload" set_safety_response end))

abbrev pub sdk_client_connected_response_packet : Layout
sdk_client_connected_response_packet =
    struct (member "tx_id" u32 (member "payload" sdk_client_notify_response end))

abbrev pub sdk_client_disconnected_response_packet : Layout
sdk_client_disconnected_response_packet =
    struct (member "tx_id" u32 (member "payload" sdk_client_notify_response end))

abbrev pub home_done_response_packet : Layout
home_done_response_packet = struct (member "tx_id" u32 (member "payload" home_done_response end))

abbrev pub usb_session_start_request_packet : Layout
usb_session_start_request_packet =
    struct (member "tx_id" u32 (member "payload" usb_session_start_command end))

abbrev pub usb_session_start_response_packet : Layout
usb_session_start_response_packet =
    struct (member "tx_id" u32 (member "payload" usb_session_start_response end))

abbrev pub usb_session_stop_request_packet : Layout
usb_session_stop_request_packet =
    struct (member "tx_id" u32 (member "payload" usb_session_stop_command end))

abbrev pub usb_session_stop_response_packet : Layout
usb_session_stop_response_packet =
    struct (member "tx_id" u32 (member "payload" usb_session_stop_response end))

abbrev pub joint_command_packet : Layout
joint_command_packet = struct (
    member "q" (array 6 f32) (
      member "dq" (array 6 f32) (
        member "tau" (array 6 f32) (
          member "kp" (array 6 f32) (
            member "kd" (array 6 f32)
              (member "dt_us" u32 (member "seq" u16 (member "control_mode" u8 end))))))))

abbrev pub joint_pos_vel_command_packet : Layout
joint_pos_vel_command_packet = struct (
    member "q" (array 6 f32)
      (member "dq" (array 6 f32) (member "enabled_mask" u8 (member "seq" u16 end))))

abbrev pub joint_velocity_command_packet : Layout
joint_velocity_command_packet =
    struct (member "dq" (array 6 f32) (member "enabled_mask" u8 (member "seq" u16 end)))

abbrev pub joint_hybrid_command_packet : Layout
joint_hybrid_command_packet = struct (
    member "q" (array 6 f32) (
      member "dq_limit" (array 6 f32) (
        member "current_limit_norm" (array 6 f32)
          (member "enabled_mask" u8 (member "seq" u16 end)))))

abbrev pub emergency_stop_packet : Layout
emergency_stop_packet = struct (member "dummy" u8 end)

abbrev pub gripper_command_packet : Layout
gripper_command_packet = struct (
    member "q" f32 (
      member "dq" f32 (
        member "tau" f32 (
          member "kp" f32 (
            member "kd" f32
              (member "dt_us" u32 (member "seq" u16 (member "control_mode" u8 end))))))))

abbrev pub get_motor_feedback_request_packet : Layout
get_motor_feedback_request_packet =
    struct (member "tx_id" u32 (member "payload" get_motor_feedback_command end))

abbrev pub get_motor_feedback_response_packet : Layout
get_motor_feedback_response_packet =
    struct (member "tx_id" u32 (member "payload" get_motor_feedback_response end))
