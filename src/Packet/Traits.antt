-- ===== src/Packet/Traits.antt =====
-- The specialisations of RPL::Meta::PacketTraits in include/ArmCommand.hpp and
-- include/ArmStatus.hpp.
use florid_usb_protocols.Prelude.{ℕ, true, List, [], ◌∷◌}
use florid_usb_protocols.Packet.{Layout, sizeof, PacketTraits}
use florid_usb_protocols.Packet.Payloads.{arm_status, motor_feedback_array, gripper_status}
use florid_usb_protocols.Packet.Structs.{
  ack_packet, set_mit_limit_request_packet, set_motor_state_request_packet,
  set_motor_control_mode_request_packet, set_zero_request_packet, clear_error_request_packet,
  home_all_request_packet, run_calibration_request_packet, clear_faults_request_packet,
  set_safety_request_packet, sdk_client_connected_request_packet,
  sdk_client_disconnected_request_packet, home_done_request_packet, set_mit_limit_response_packet,
  set_motor_state_response_packet, set_motor_control_mode_response_packet, set_zero_response_packet,
  clear_error_response_packet, home_all_response_packet, run_calibration_response_packet,
  clear_faults_response_packet, set_safety_response_packet, sdk_client_connected_response_packet,
  sdk_client_disconnected_response_packet, home_done_response_packet,
  usb_session_start_request_packet, usb_session_start_response_packet,
  usb_session_stop_request_packet, usb_session_stop_response_packet, joint_command_packet,
  joint_pos_vel_command_packet, joint_velocity_command_packet, joint_hybrid_command_packet,
  emergency_stop_packet, gripper_command_packet, get_motor_feedback_request_packet,
  get_motor_feedback_response_packet,
}

-- What all of them have: `size` is `sizeof` of the struct, and `skip_memory_pool` is set.
abbrev packet : Layout → ℕ → PacketTraits
packet layout cmd = record {
  layout = layout;
  cmd = cmd;
  size = sizeof layout;
  skip_memory_pool = true;
}

abbrev pub arm_status_traits : PacketTraits
arm_status_traits = packet arm_status 0x6001

abbrev pub motor_feedback_array_traits : PacketTraits
motor_feedback_array_traits = packet motor_feedback_array 0x6002

abbrev pub gripper_status_traits : PacketTraits
gripper_status_traits = packet gripper_status 0x6003

abbrev pub ack_packet_traits : PacketTraits
ack_packet_traits = packet ack_packet 0x6ff0

abbrev pub set_mit_limit_request_packet_traits : PacketTraits
set_mit_limit_request_packet_traits = packet set_mit_limit_request_packet 0x6103

abbrev pub set_mit_limit_response_packet_traits : PacketTraits
set_mit_limit_response_packet_traits = packet set_mit_limit_response_packet 0x6104

abbrev pub set_motor_state_request_packet_traits : PacketTraits
set_motor_state_request_packet_traits = packet set_motor_state_request_packet 0x6105

abbrev pub set_motor_state_response_packet_traits : PacketTraits
set_motor_state_response_packet_traits = packet set_motor_state_response_packet 0x6106

abbrev pub set_motor_control_mode_request_packet_traits : PacketTraits
set_motor_control_mode_request_packet_traits = packet set_motor_control_mode_request_packet 0x6215

abbrev pub set_motor_control_mode_response_packet_traits : PacketTraits
set_motor_control_mode_response_packet_traits = packet set_motor_control_mode_response_packet 0x6216

abbrev pub set_zero_request_packet_traits : PacketTraits
set_zero_request_packet_traits = packet set_zero_request_packet 0x6107

abbrev pub set_zero_response_packet_traits : PacketTraits
set_zero_response_packet_traits = packet set_zero_response_packet 0x6108

abbrev pub clear_error_request_packet_traits : PacketTraits
clear_error_request_packet_traits = packet clear_error_request_packet 0x6109

abbrev pub clear_error_response_packet_traits : PacketTraits
clear_error_response_packet_traits = packet clear_error_response_packet 0x610a

abbrev pub home_all_request_packet_traits : PacketTraits
home_all_request_packet_traits = packet home_all_request_packet 0x6201

abbrev pub home_all_response_packet_traits : PacketTraits
home_all_response_packet_traits = packet home_all_response_packet 0x6202

abbrev pub run_calibration_request_packet_traits : PacketTraits
run_calibration_request_packet_traits = packet run_calibration_request_packet 0x6203

abbrev pub run_calibration_response_packet_traits : PacketTraits
run_calibration_response_packet_traits = packet run_calibration_response_packet 0x6204

abbrev pub clear_faults_request_packet_traits : PacketTraits
clear_faults_request_packet_traits = packet clear_faults_request_packet 0x6205

abbrev pub clear_faults_response_packet_traits : PacketTraits
clear_faults_response_packet_traits = packet clear_faults_response_packet 0x6206

abbrev pub set_safety_request_packet_traits : PacketTraits
set_safety_request_packet_traits = packet set_safety_request_packet 0x6207

abbrev pub set_safety_response_packet_traits : PacketTraits
set_safety_response_packet_traits = packet set_safety_response_packet 0x6208

abbrev pub sdk_client_connected_request_packet_traits : PacketTraits
sdk_client_connected_request_packet_traits = packet sdk_client_connected_request_packet 0x6209

abbrev pub sdk_client_connected_response_packet_traits : PacketTraits
sdk_client_connected_response_packet_traits = packet sdk_client_connected_response_packet 0x620a

abbrev pub sdk_client_disconnected_request_packet_traits : PacketTraits
sdk_client_disconnected_request_packet_traits = packet sdk_client_disconnected_request_packet 0x620b

abbrev pub sdk_client_disconnected_response_packet_traits : PacketTraits
sdk_client_disconnected_response_packet_traits =
    packet sdk_client_disconnected_response_packet 0x620c

abbrev pub home_done_request_packet_traits : PacketTraits
home_done_request_packet_traits = packet home_done_request_packet 0x620d

abbrev pub home_done_response_packet_traits : PacketTraits
home_done_response_packet_traits = packet home_done_response_packet 0x620e

abbrev pub usb_session_start_request_packet_traits : PacketTraits
usb_session_start_request_packet_traits = packet usb_session_start_request_packet 0x620f

abbrev pub usb_session_start_response_packet_traits : PacketTraits
usb_session_start_response_packet_traits = packet usb_session_start_response_packet 0x6210

abbrev pub usb_session_stop_request_packet_traits : PacketTraits
usb_session_stop_request_packet_traits = packet usb_session_stop_request_packet 0x6211

abbrev pub usb_session_stop_response_packet_traits : PacketTraits
usb_session_stop_response_packet_traits = packet usb_session_stop_response_packet 0x6212

abbrev pub joint_command_packet_traits : PacketTraits
joint_command_packet_traits = packet joint_command_packet 0x6301

abbrev pub emergency_stop_packet_traits : PacketTraits
emergency_stop_packet_traits = packet emergency_stop_packet 0x6303

abbrev pub gripper_command_packet_traits : PacketTraits
gripper_command_packet_traits = packet gripper_command_packet 0x6305

abbrev pub joint_pos_vel_command_packet_traits : PacketTraits
joint_pos_vel_command_packet_traits = packet joint_pos_vel_command_packet 0x6306

abbrev pub joint_velocity_command_packet_traits : PacketTraits
joint_velocity_command_packet_traits = packet joint_velocity_command_packet 0x6307

abbrev pub joint_hybrid_command_packet_traits : PacketTraits
joint_hybrid_command_packet_traits = packet joint_hybrid_command_packet 0x6308

abbrev pub get_motor_feedback_request_packet_traits : PacketTraits
get_motor_feedback_request_packet_traits = packet get_motor_feedback_request_packet 0x6213

abbrev pub get_motor_feedback_response_packet_traits : PacketTraits
get_motor_feedback_response_packet_traits = packet get_motor_feedback_response_packet 0x6214

-- Each request with its response.
abbrev pub exchanges : List (PacketTraits × PacketTraits)
exchanges =
    (set_mit_limit_request_packet_traits, set_mit_limit_response_packet_traits)
    ∷ (set_motor_state_request_packet_traits, set_motor_state_response_packet_traits)
    ∷ (set_motor_control_mode_request_packet_traits, set_motor_control_mode_response_packet_traits)
    ∷ (set_zero_request_packet_traits, set_zero_response_packet_traits)
    ∷ (clear_error_request_packet_traits, clear_error_response_packet_traits)
    ∷ (home_all_request_packet_traits, home_all_response_packet_traits)
    ∷ (run_calibration_request_packet_traits, run_calibration_response_packet_traits)
    ∷ (clear_faults_request_packet_traits, clear_faults_response_packet_traits)
    ∷ (set_safety_request_packet_traits, set_safety_response_packet_traits)
    ∷ (sdk_client_connected_request_packet_traits, sdk_client_connected_response_packet_traits)
    ∷ (
      sdk_client_disconnected_request_packet_traits, sdk_client_disconnected_response_packet_traits,
    )
    ∷ (home_done_request_packet_traits, home_done_response_packet_traits)
    ∷ (usb_session_start_request_packet_traits, usb_session_start_response_packet_traits)
    ∷ (usb_session_stop_request_packet_traits, usb_session_stop_response_packet_traits)
    ∷ (get_motor_feedback_request_packet_traits, get_motor_feedback_response_packet_traits)
    ∷ []

-- The telemetry that the firmware broadcasts.
abbrev pub telemetry : List PacketTraits
telemetry = arm_status_traits ∷ motor_feedback_array_traits ∷ gripper_status_traits ∷ []

-- The commands that want no answer.
abbrev pub commands : List PacketTraits
commands =
    joint_command_packet_traits ∷ emergency_stop_packet_traits ∷ gripper_command_packet_traits
    ∷ joint_pos_vel_command_packet_traits ∷ joint_velocity_command_packet_traits
    ∷ joint_hybrid_command_packet_traits ∷ []
