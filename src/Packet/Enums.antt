-- ===== src/Packet/Enums.antt =====
-- The enum classes of include/ArmCommand.hpp and include/ArmStatus.hpp, and their bytes on the wire.
use florid_usb_protocols.Prelude.{ℕ}

pub data ArmMode : Type 0 where
  init_mode idle running fault estop : ArmMode

pub arm_mode_byte : ArmMode → ℕ
arm_mode_byte ArmMode.init_mode = 0
arm_mode_byte ArmMode.idle = 1
arm_mode_byte ArmMode.running = 2
arm_mode_byte ArmMode.fault = 3
arm_mode_byte ArmMode.estop = 4

pub data SetMitLimitStatus : Type 0 where
  ok invalid_joint storage_failed : SetMitLimitStatus

unfoldable pub set_mit_limit_status_byte : SetMitLimitStatus → ℕ
set_mit_limit_status_byte SetMitLimitStatus.ok = 0
set_mit_limit_status_byte SetMitLimitStatus.invalid_joint = 1
set_mit_limit_status_byte SetMitLimitStatus.storage_failed = 2

pub data MotorStateValue : Type 0 where
  disable enable : MotorStateValue

pub motor_state_value_byte : MotorStateValue → ℕ
motor_state_value_byte MotorStateValue.disable = 0
motor_state_value_byte MotorStateValue.enable = 1

pub data SetMotorStateStatus : Type 0 where
  ok unsupported_in_current_mode invalid_joint storage_failed : SetMotorStateStatus

pub set_motor_state_status_byte : SetMotorStateStatus → ℕ
set_motor_state_status_byte SetMotorStateStatus.ok = 0
set_motor_state_status_byte SetMotorStateStatus.unsupported_in_current_mode = 1
set_motor_state_status_byte SetMotorStateStatus.invalid_joint = 2
set_motor_state_status_byte SetMotorStateStatus.storage_failed = 3

pub data MotorControlMode : Type 0 where
  mit pos_vel vel hybrid : MotorControlMode

pub motor_control_mode_byte : MotorControlMode → ℕ
motor_control_mode_byte MotorControlMode.mit = 1
motor_control_mode_byte MotorControlMode.pos_vel = 2
motor_control_mode_byte MotorControlMode.vel = 3
motor_control_mode_byte MotorControlMode.hybrid = 4

pub data SetMotorControlModeStatus : Type 0 where
  ok unsupported_in_current_mode invalid_joint invalid_mode can_tx_failed :
      SetMotorControlModeStatus

pub set_motor_control_mode_status_byte : SetMotorControlModeStatus → ℕ
set_motor_control_mode_status_byte SetMotorControlModeStatus.ok = 0
set_motor_control_mode_status_byte SetMotorControlModeStatus.unsupported_in_current_mode = 1
set_motor_control_mode_status_byte SetMotorControlModeStatus.invalid_joint = 2
set_motor_control_mode_status_byte SetMotorControlModeStatus.invalid_mode = 3
set_motor_control_mode_status_byte SetMotorControlModeStatus.can_tx_failed = 4

pub data SetZeroStatus : Type 0 where
  ok invalid_joint calibration_failed : SetZeroStatus

pub set_zero_status_byte : SetZeroStatus → ℕ
set_zero_status_byte SetZeroStatus.ok = 0
set_zero_status_byte SetZeroStatus.invalid_joint = 1
set_zero_status_byte SetZeroStatus.calibration_failed = 2

pub data ClearErrorStatus : Type 0 where
  ok invalid_joint : ClearErrorStatus

pub clear_error_status_byte : ClearErrorStatus → ℕ
clear_error_status_byte ClearErrorStatus.ok = 0
clear_error_status_byte ClearErrorStatus.invalid_joint = 1

pub data HomeAllStatus : Type 0 where
  ok not_idle calibration_failed : HomeAllStatus

pub home_all_status_byte : HomeAllStatus → ℕ
home_all_status_byte HomeAllStatus.ok = 0
home_all_status_byte HomeAllStatus.not_idle = 1
home_all_status_byte HomeAllStatus.calibration_failed = 2

pub data CalibrationType : Type 0 where
  home zero : CalibrationType

pub calibration_type_byte : CalibrationType → ℕ
calibration_type_byte CalibrationType.home = 0
calibration_type_byte CalibrationType.zero = 1

pub data RunCalibrationStatus : Type 0 where
  ok not_idle calibration_failed : RunCalibrationStatus

pub run_calibration_status_byte : RunCalibrationStatus → ℕ
run_calibration_status_byte RunCalibrationStatus.ok = 0
run_calibration_status_byte RunCalibrationStatus.not_idle = 1
run_calibration_status_byte RunCalibrationStatus.calibration_failed = 2

pub data ClearFaultsStatus : Type 0 where
  ok : ClearFaultsStatus

pub clear_faults_status_byte : ClearFaultsStatus → ℕ
clear_faults_status_byte ClearFaultsStatus.ok = 0

pub data CollisionSensitivity : Type 0 where
  low medium high : CollisionSensitivity

pub collision_sensitivity_byte : CollisionSensitivity → ℕ
collision_sensitivity_byte CollisionSensitivity.low = 0
collision_sensitivity_byte CollisionSensitivity.medium = 1
collision_sensitivity_byte CollisionSensitivity.high = 2

pub data SetSafetyStatus : Type 0 where
  ok storage_failed : SetSafetyStatus

pub set_safety_status_byte : SetSafetyStatus → ℕ
set_safety_status_byte SetSafetyStatus.ok = 0
set_safety_status_byte SetSafetyStatus.storage_failed = 1

pub data SdkClientNotifyStatus : Type 0 where
  ok : SdkClientNotifyStatus

pub sdk_client_notify_status_byte : SdkClientNotifyStatus → ℕ
sdk_client_notify_status_byte SdkClientNotifyStatus.ok = 0

pub data HomeDoneStatus : Type 0 where
  ok : HomeDoneStatus

pub home_done_status_byte : HomeDoneStatus → ℕ
home_done_status_byte HomeDoneStatus.ok = 0

pub data UsbSessionStartStatus : Type 0 where
  ok : UsbSessionStartStatus

pub usb_session_start_status_byte : UsbSessionStartStatus → ℕ
usb_session_start_status_byte UsbSessionStartStatus.ok = 0

pub data UsbSessionStopStatus : Type 0 where
  ok : UsbSessionStopStatus

pub usb_session_stop_status_byte : UsbSessionStopStatus → ℕ
usb_session_stop_status_byte UsbSessionStopStatus.ok = 0
