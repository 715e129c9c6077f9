-- ===== src/Stack/Invariant/Packets.antt =====
-- The handling of packets and of the session in include/ProtocolStack.hpp keeps the stack valid.
use florid_usb_protocols.Prelude.{
  ℕ, zero, suc, ◌+◌, inl, inr, true, Option, List, [], ◌∷◌, ◌++◌, length, ltb, leb, ◌==◌, ◌&&◌, not,
  Bool-cases, Option-cases,
}
use florid_usb_protocols.Platform.{Platform, IsPlatform}
use florid_usb_protocols.Rpl.{Rpl}
use florid_usb_protocols.Packet.{PacketTraits, sizeof, to_bytes, load_tx_id}
use florid_usb_protocols.Packet.Traits.{ack_packet_traits}
use florid_usb_protocols.Packet.Region.{
  ack_cmd, is_request_cmd, is_reliable, extract_tx_id_from_raw,
}
use florid_usb_protocols.TxQueue.{max_frame_size}
use florid_usb_protocols.TxQueue.Bounds.{
  enqueue_pending_frame-bounded, enqueue_prebuilt_frame-bounded,
}
use florid_usb_protocols.Prelude.Eq.{nat_regular}
use florid_usb_protocols.Session.{next_outbound, on_response}
use florid_usb_protocols.Session.Entry.{Event, RetransmitEntry, RequestResult}
use florid_usb_protocols.Session.Device.{on_request}
use florid_usb_protocols.Session.Run.Sound.{
  on_ack-IsSound, on_response-IsSound, on_request-IsSound, next_outbound-IsSound, poll-IsSound,
}
use florid_usb_protocols.Session.Poll.{poll}
use florid_usb_protocols.Stack.{Stack, App}
use florid_usb_protocols.Stack.{handled, called_back}
use florid_usb_protocols.Stack.Cycle.{
  pump_outbound, enqueue_entry, enqueue_retries, call_back, handle_session_retries, run_handler,
  enqueue_ack, replay, handle_packet_internal, dispatch,
}
use florid_usb_protocols.Stack.Invariant.{
  IsStackValid, IsApp, noted-IsStackValid, branch, with_session, with_queue,
}

module _ (P : Platform) (L : IsPlatform P) (R : Rpl) where
  module _ (types : List PacketTraits) where
    enqueue_entry-IsStackValid :
        (s : Stack P R) (r : RetransmitEntry)
        → IsStackValid P R s
        → IsStackValid P R (enqueue_entry P R types s r).1
    unfolding enqueue_entry
    enqueue_entry-IsStackValid s r v =
        with_queue P L R s _ v (enqueue_pending_frame-bounded s.tx_queue r.request_cmd _ v.bounded)

    pub pump_outbound-IsStackValid :
        (n i : ℕ) (clock : ℕ → ℕ) (s : Stack P R)
        → IsStackValid P R s
        → IsStackValid P R (pump_outbound P R types n i clock s)
    unfolding pump_outbound
    pump_outbound-IsStackValid zero i clock s v = v
    pump_outbound-IsStackValid (suc n) i clock s v =
        let u =
          with_session P L R s _ v
            (next_outbound-IsSound P L s.session (clock i) v.session_valid) in
        elim (Option-cases (next_outbound P s.session (clock i)).0) [
          | inl e ↦ rw (e, pump_outbound) u
          | inr (r, e) ↦
              let w = enqueue_entry-IsStackValid _ r u in
              elim (Bool-cases
                (enqueue_entry P R types
                  (record s { session = (next_outbound P s.session (clock i)).1 }) r).0) [
                    | inl y ↦
                        rw (e, y, pump_outbound) (pump_outbound-IsStackValid n (i + 1) clock _ w)
                    | inr f ↦ rw (e, f, pump_outbound) w
                  ]
        ]

    enqueue_retries-IsStackValid :
        (rs : List RetransmitEntry) (s : Stack P R)
        → IsStackValid P R s
        → IsStackValid P R (enqueue_retries P R types rs s)
    unfolding enqueue_retries
    enqueue_retries-IsStackValid [] s v = v
    enqueue_retries-IsStackValid (r ∷ rs) s v =
        enqueue_retries-IsStackValid rs _ (enqueue_entry-IsStackValid s r v)

    module _ (app : App P R) (safe : IsApp P R app) where
      call_back-IsStackValid :
          (es : List Event) (s : Stack P R)
          → IsStackValid P R s
          → IsStackValid P R (call_back P R types app es s)
      unfolding call_back
      call_back-IsStackValid [] s v = v
      call_back-IsStackValid (e ∷ es) s v =
          call_back-IsStackValid es _
            (safe.callback_valid e _ (noted-IsStackValid P L R (called_back e) s v))

      pub handle_session_retries-IsStackValid :
          (now : ℕ) (clock : ℕ → ℕ) (s : Stack P R)
          → IsStackValid P R s
          → IsStackValid P R (handle_session_retries P R types app now clock s)
      unfolding handle_session_retries
      handle_session_retries-IsStackValid now clock s v =
          enqueue_retries-IsStackValid (poll P now clock s.session).0 _ (
            call_back-IsStackValid (poll P now clock s.session).1 _
              (with_session P L R s _ v (poll-IsSound P L s.session now clock v.session_valid)))

      run_handler-IsStackValid :
          (cmd tx : ℕ) (bytes : List ℕ) (s : Stack P R)
          → IsStackValid P R s
          → IsStackValid P R (run_handler P R types app cmd tx bytes s)
      unfolding run_handler
      run_handler-IsStackValid cmd tx bytes s v =
          elim (Option-cases (P.find (Option ℕ) cmd s.handlers)) [
            | inl e ↦ rw (e, run_handler) v
            | inr (o, e) ↦ elim (Option-cases o) [
              | inl f ↦ rw (e, f, run_handler) v
              | inr (h, f) ↦
                  rw (e, f, run_handler)
                    (safe.handler_valid h cmd tx bytes _
                      (noted-IsStackValid P L R (handled h cmd tx bytes) s v))
            ]
          ]

      enqueue_ack-IsStackValid :
          (cmd tx : ℕ) (s : Stack P R)
          → IsStackValid P R s
          → IsStackValid P R (enqueue_ack P R types app cmd tx s)
      unfolding enqueue_ack
      enqueue_ack-IsStackValid cmd tx s v =
          elim (Option-cases (
            R.serialize max_frame_size ack_packet_traits
              (to_bytes 4 tx ++ to_bytes 2 cmd ++ (0 ∷ [])))) [
                | inl e ↦ rw (e, enqueue_ack) v
                | inr (f, e) ↦
                    rw (e, enqueue_ack)
                      (with_queue P L R s _ v
                        (enqueue_prebuilt_frame-bounded s.tx_queue f true v.bounded))
              ]

      replay-IsStackValid :
          (result : RequestResult) (s : Stack P R)
          → IsStackValid P R s
          → IsStackValid P R (replay P R types app result s)
      unfolding replay
      replay-IsStackValid result s v = elim (Option-cases result.cached_response_data) [
        | inl e ↦ rw (e, replay) v
        | inr (f, e) ↦ elim (Bool-cases (ltb 0 result.cached_response_len)) [
          | inl y ↦
              rw (e, y, replay)
                (with_queue P L R s _ v
                  (enqueue_prebuilt_frame-bounded s.tx_queue _ true v.bounded))
          | inr n ↦ rw (e, n, replay) v
        ]
      ]

      handle_packet_internal-IsStackValid :
          (now cmd : ℕ) (bytes : List ℕ) (s : Stack P R)
          → IsStackValid P R s
          → IsStackValid P R (handle_packet_internal P R types app now cmd bytes s)
      unfolding handle_packet_internal
      handle_packet_internal-IsStackValid now cmd bytes s v =
          branch P L R (cmd == ack_cmd)
            (branch P L R (length bytes == sizeof ack_packet_traits.layout)
              (with_session P L R s _ v
                (on_ack-IsSound P L s.session (load_tx_id 0 bytes) now v.session_valid))
              v)
            (branch P L R (is_request_cmd cmd)
              (branch P L R (not (is_reliable cmd)) (run_handler-IsStackValid cmd tx bytes s v) (
                branch P L R (tx == 0)
                  (branch P L R (leb 0x6000 cmd && ltb cmd 0x6100)
                    (run_handler-IsStackValid cmd tx bytes s v) v)
                  (branch P L R (on_request P s.session cmd tx).0.is_duplicate
                    (replay-IsStackValid (on_request P s.session cmd tx).0 _ acked)
                    (run_handler-IsStackValid cmd tx bytes _ acked))))
              (branch P L R (tx == 0) v (
                call_back-IsStackValid (on_response P s.session cmd tx bytes).1 _ (
                  with_session P L R s _ v
                    (on_response-IsSound P L s.session cmd tx bytes v.session_valid)))))
        where
          tx : ℕ
          tx = extract_tx_id_from_raw types cmd bytes

          acked : IsStackValid P R (
              enqueue_ack P R types app cmd tx
                (record s { session = (on_request P s.session cmd tx).1 }))
          acked =
              enqueue_ack-IsStackValid cmd tx _
                (with_session P L R s _ v (on_request-IsSound P L s.session cmd tx v.session_valid))

      pub dispatch-IsStackValid :
          (i : ℕ) (clock : ℕ → ℕ) (packets : List (PacketTraits × List ℕ)) (s : Stack P R)
          → IsStackValid P R s
          → IsStackValid P R (dispatch P R types app i clock packets s)
      unfolding dispatch
      dispatch-IsStackValid i clock [] s v = v
      dispatch-IsStackValid i clock ((t, bytes) ∷ rest) s v =
          dispatch-IsStackValid (i + 1) clock rest _
            (handle_packet_internal-IsStackValid (clock i) t.cmd bytes s v)
