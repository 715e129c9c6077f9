-- ===== src/Example/Telemetry.antt =====
-- The telemetry that comes in at the host of examples/test_arm.cpp.
use florid_usb_protocols.Prelude.{
  ℕ, ◌≡◌, refl, ap, ◌∙◌, true, Option, some, List, [], ◌∷◌, ◌++◌, arith, length, leb, take,
  take_all,
}
use florid_usb_protocols.Platform.{Platform}
use florid_usb_protocols.Rpl.{Rpl}
use florid_usb_protocols.Packet.{tx_id_offset, offset}
use florid_usb_protocols.Packet.Traits.{arm_status_traits, motor_feedback_array_traits}
use florid_usb_protocols.Packet.Region.{is_request_cmd, extract_tx_id_from_raw}
use florid_usb_protocols.Stack.{Stack, Call, handled, noted}
use florid_usb_protocols.Stack.Cycle.{
  handle_packet_internal, handle_request_packet, run_handler, push_data,
}
use florid_usb_protocols.Stack.Requests.{unanswerable_ignored}
use florid_usb_protocols.Example.Host.{host}
use florid_usb_protocols.Example.Serves.{IsCarried, push_data_carried}
use florid_usb_protocols.Example.TestArm.{
  types, Transport, sizeof_arm_status, all_called, called, transport, transport_of,
}

all_called-append :
    (calls : List Call) (c : Call) (t : Transport)
    → all_called (calls ++ (c ∷ [])) t ≡ called c (all_called calls t)
all_called-append [] c t = refl
all_called-append (d ∷ calls) c t = all_called-append calls c (called d t)

extract_tx_id_arm_status :
    (bytes : List ℕ) → extract_tx_id_from_raw types arm_status_traits.cmd bytes ≡ 0
unfolding extract_tx_id_from_raw tx_id_offset offset
extract_tx_id_arm_status bytes = ground arith

extract_tx_id_motor_feedback :
    (bytes : List ℕ) → extract_tx_id_from_raw types motor_feedback_array_traits.cmd bytes ≡ 0
unfolding extract_tx_id_from_raw tx_id_offset offset
extract_tx_id_motor_feedback bytes = ground arith

module _ (P : Platform) (R : Rpl) where
  arm_status_handled :
      (now : ℕ) (bytes : List ℕ) (s : Stack P R)
      → P.find (Option ℕ) arm_status_traits.cmd s.handlers ≡ some (some 0)
      → handle_packet_internal P R types (host P R) now arm_status_traits.cmd bytes s
        ≡ noted P R (handled 0 arm_status_traits.cmd 0 bytes) s
  unfolding handle_packet_internal handle_request_packet is_request_cmd
  arm_status_handled now bytes s found =
      rw (handle_request_packet, extract_tx_id_arm_status bytes, run_handler, found)
        (ap (λ i. noted P R (handled 0 arm_status_traits.cmd i bytes) s)
          (extract_tx_id_arm_status bytes))

  -- With a parser that carries the packets: a frame of an ArmStatus that comes in at the host of
  -- examples/test_arm.cpp sets its last ArmStatus to the bytes of the packet, and marks it as
  -- received; a frame of a MotorFeedbackArray changes nothing of the stack, and so nothing of what
  -- the host has received, whatever handler is registered for it.
  pub telemetry_told :
      (clock : ℕ → ℕ) (s : Stack P R) (status motors status_frame motors_frame : List ℕ)
      → s.parser ≡ R.parser
      → P.find (Option ℕ) arm_status_traits.cmd s.handlers ≡ some (some 0)
      → length status ≡ sizeof_arm_status
      → IsCarried R arm_status_traits status status_frame
      → IsCarried R motor_feedback_array_traits motors motors_frame
      → (transport_of P R (push_data P R types (host P R) clock status_frame s)
          ≡ record (transport_of P R s) { last_arm_status = status; arm_status_received = true })
        × (push_data P R types (host P R) clock motors_frame s ≡ s)
  unfolding is_request_cmd
  telemetry_told clock s status motors status_frame motors_frame idle found size one two =
      let whole : leb sizeof_arm_status (length status) ≡ true = ground (arith, size) in
      let front : take sizeof_arm_status status ≡ status =
        take_all sizeof_arm_status status (omega (arith, size)) in
      (
        ap (transport_of P R) (
              push_data_carried P R types (host P R) arm_status_traits status status_frame clock s
                one idle
              ∙ arm_status_handled (clock 0) status s found)
            ∙ all_called-append s.calls (handled 0 arm_status_traits.cmd 0 status) transport
            ∙ rw (whole, front) refl,
        push_data_carried P R types (host P R) motor_feedback_array_traits motors motors_frame clock
              s two idle
            ∙ unanswerable_ignored P R types (host P R) (clock 0) motor_feedback_array_traits.cmd
                motors s refl refl (extract_tx_id_motor_feedback motors),
      )
