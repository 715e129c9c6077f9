-- ===== src/Packet/Payloads.antt =====
-- The payloads of include/ArmCommand.hpp and the telemetry of include/ArmStatus.hpp.
use florid_usb_protocols.Packet.{Layout, u8, u32, u64, f32, bits, array, struct, end, member}

abbrev pub joint_status : Layout
joint_status =
    struct (member "q" (array 6 f32) (member "dq" (array 6 f32) (member "tau" (array 6 f32) end)))

abbrev pub gripper_status : Layout
gripper_status = struct (
    member "q" f32 (
      member "dq" f32 (
        member "tau" f32
          (member "temp_c" f32 (member "enabled" u8 (member "_pad" (array 3 u8) end))))))

abbrev pub arm_status : Layout
arm_status = struct (
    member "mode" u8 (
      member "_pad0" (array 3 u8) (
        member "seq" u32 (
          member "timestamp_us" u64 (
            member "status" joint_status
              (member "base_gravity" (array 3 f32) (member "gripper" gripper_status end)))))))

abbrev pub motor_feedback : Layout
motor_feedback = struct (
    member "joint_id" (bits 3) (
      member "device_status" (bits 4) (
        member "enabled" (bits 1) (
          member "position_rad" f32
            (member "speed_rad_s" f32 (member "torque_nm" f32 (member "temp_c" f32 end)))))))

abbrev pub motor_feedback_array : Layout
motor_feedback_array = struct (member "motors" (array 7 motor_feedback) end)

abbrev pub set_mit_limit_command : Layout
set_mit_limit_command =
    struct
      (member "joint_id" u8 (member "torque_limit_nm" f32 (member "velocity_limit_rps" f32 end)))

abbrev pub set_motor_state_command : Layout
set_motor_state_command = struct (member "joint_id" u8 (member "state" u8 end))

abbrev pub set_motor_control_mode_command : Layout
set_motor_control_mode_command = struct (member "joint_id" u8 (member "mode" u8 end))

abbrev pub set_zero_command : Layout
set_zero_command = struct (member "joint_id" u8 end)

abbrev pub clear_error_command : Layout
clear_error_command = struct (member "joint_id" u8 end)

abbrev pub home_all_command : Layout
home_all_command = struct (member "dummy" u8 end)

abbrev pub run_calibration_command : Layout
run_calibration_command = struct (member "calib_type" u8 end)

abbrev pub clear_faults_command : Layout
clear_faults_command = struct (member "dummy" u8 end)

abbrev pub set_safety_command : Layout
set_safety_command =
    struct (member "e_stop_deceleration_dps2" f32 (member "max_payload_kg" f32 end))

abbrev pub sdk_client_connected_command : Layout
sdk_client_connected_command = struct (member "dummy" u8 end)

abbrev pub sdk_client_disconnected_command : Layout
sdk_client_disconnected_command = struct (member "dummy" u8 end)

abbrev pub home_done_command : Layout
home_done_command = struct (member "dummy" u8 end)

abbrev pub set_mit_limit_response : Layout
set_mit_limit_response = struct (member "status" u8 end)

abbrev pub set_motor_state_response : Layout
set_motor_state_response = struct (member "status" u8 end)

abbrev pub set_motor_control_mode_response : Layout
set_motor_control_mode_response = struct (member "status" u8 end)

abbrev pub set_zero_response : Layout
set_zero_response = struct (member "status" u8 end)

abbrev pub clear_error_response : Layout
clear_error_response = struct (member "status" u8 end)

abbrev pub home_all_response : Layout
home_all_response = struct (member "status" u8 end)

abbrev pub run_calibration_response : Layout
run_calibration_response = struct (member "status" u8 end)

abbrev pub clear_faults_response : Layout
clear_faults_response = struct (member "status" u8 end)

abbrev pub set_safety_response : Layout
set_safety_response = struct (member "status" u8 end)

abbrev pub sdk_client_notify_response : Layout
sdk_client_notify_response = struct (member "status" u8 end)

abbrev pub home_done_response : Layout
home_done_response = struct (member "status" u8 end)

abbrev pub usb_session_start_command : Layout
usb_session_start_command = struct (member "dummy" u8 end)

abbrev pub usb_session_stop_command : Layout
usb_session_stop_command = struct (member "dummy" u8 end)

abbrev pub usb_session_start_response : Layout
usb_session_start_response = struct (member "status" u8 end)

abbrev pub usb_session_stop_response : Layout
usb_session_stop_response = struct (member "status" u8 end)

abbrev pub get_motor_feedback_command : Layout
get_motor_feedback_command = struct (member "dummy" u8 end)

abbrev pub get_motor_feedback_response : Layout
get_motor_feedback_response = struct (member "motors" motor_feedback_array end)
