-- ===== src/Stack/Drain.antt =====
-- `drain_rx` of include/ProtocolStack.hpp and the receive ring.
use florid_usb_protocols.Prelude.{
  ℕ, zero, suc, min, leb, not, ◌&&◌, ◌+◌, ◌-◌, ◌≤◌, ◌<◌, ◌≡◌, refl, sym, ap, ◌∙◌, inl, inr, Bool,
  true, false, Option, List, [], ◌∷◌, arith, length, ltb, ◌==◌, if◌then◌else◌, Bool-cases,
  Option-cases, length-drop, length-take,
}
use florid_usb_protocols.Platform.{Platform, IsPlatform}
use florid_usb_protocols.Rpl.{Rpl}
use florid_usb_protocols.IsrRing.{IsrRing, read, available}
use florid_usb_protocols.IsrRing.Queue.{IsValid, get, contents, length-contents}
use florid_usb_protocols.IsrRing.Refine.{read_refines}
use florid_usb_protocols.Packet.{PacketTraits, sizeof}
use florid_usb_protocols.Session.{on_response}
use florid_usb_protocols.Session.Entry.{Event, RequestResult}
use florid_usb_protocols.Session.Device.{on_request}
use florid_usb_protocols.Packet.Traits.{ack_packet_traits}
use florid_usb_protocols.Packet.Region.{
  ack_cmd, is_request_cmd, is_reliable, extract_tx_id_from_raw,
}
use florid_usb_protocols.Stack.{Stack, App, noted, called_back, rx_ring_bits, rx_available}
use florid_usb_protocols.Stack.Cycle.{
  drain_loop, drain_rx, push_data, dispatch, handle_packet_internal, call_back, run_handler,
  enqueue_ack, replay,
}
use florid_usb_protocols.Stack.Invariant.{IsStackValid, IsApp, narrow}
use florid_usb_protocols.Stack.Invariant.Cycle.{with_ring, push_data-IsStackValid}

-- The handlers and callbacks of the application do not write to the receive ring, which is the
-- interrupt's.
pub record LeavesRing (P : Platform) (R : Rpl) (app : App P R) : Type 0 where
  pub handler_leaves :
      (h cmd_id tx_id : ℕ) (bytes : List ℕ) (s : Stack P R)
      → (app.request_handler h cmd_id tx_id bytes s).rx_ring ≡ s.rx_ring
  pub callback_leaves : (e : Event) (s : Stack P R) → (app.session_callback e s).rx_ring ≡ s.rx_ring

module _ (P : Platform) (L : IsPlatform P) (R : Rpl) (types : List PacketTraits) (app : App P R)
    (safe : IsApp P R app) (leaves : LeavesRing P R app) where
  if_ring :
      (b : Bool) (x y : Stack P R) {r : IsrRing}
      → x.rx_ring ≡ r
      → y.rx_ring ≡ r
      → (if b then x else y).rx_ring ≡ r
  if_ring true x y h g = h
  if_ring false x y h g = g

  call_back-rx_ring :
      (es : List Event) (s : Stack P R) → (call_back P R types app es s).rx_ring ≡ s.rx_ring
  unfolding call_back
  call_back-rx_ring [] s = refl
  call_back-rx_ring (e ∷ es) s =
      call_back-rx_ring es _ ∙ leaves.callback_leaves e (noted P R (called_back e) s)

  run_handler-rx_ring :
      (cmd tx : ℕ) (bytes : List ℕ) (s : Stack P R)
      → (run_handler P R types app cmd tx bytes s).rx_ring ≡ s.rx_ring
  unfolding run_handler
  run_handler-rx_ring cmd tx bytes s = elim (Option-cases (P.find (Option ℕ) cmd s.handlers)) [
    | inl e ↦ rw (e, run_handler) refl
    | inr (o, e) ↦ elim (Option-cases o) [
      | inl f ↦ rw (e, f, run_handler) refl
      | inr (h, f) ↦ rw (e, f, run_handler) (leaves.handler_leaves h cmd tx bytes _)
    ]
  ]

  enqueue_ack-rx_ring :
      (cmd tx : ℕ) (s : Stack P R) → (enqueue_ack P R types app cmd tx s).rx_ring ≡ s.rx_ring
  unfolding enqueue_ack
  enqueue_ack-rx_ring cmd tx s = ground arith

  replay-rx_ring :
      (result : RequestResult) (s : Stack P R) → (replay P R types app result s).rx_ring ≡ s.rx_ring
  unfolding replay
  replay-rx_ring result s = ground arith

  handle_packet_internal-rx_ring :
      (now cmd : ℕ) (bytes : List ℕ) (s : Stack P R)
      → (handle_packet_internal P R types app now cmd bytes s).rx_ring ≡ s.rx_ring
  unfolding handle_packet_internal
  handle_packet_internal-rx_ring now cmd bytes s =
      if_ring (cmd == ack_cmd) _ _
        (if_ring (length bytes == sizeof ack_packet_traits.layout) _ _ refl refl)
        (if_ring (is_request_cmd cmd) _ _
          (if_ring (not (is_reliable cmd)) _ _ (run_handler-rx_ring cmd tx bytes s) (
            if_ring (tx == 0) _ _
              (if_ring (leb 0x6000 cmd && ltb cmd 0x6100) _ _ (run_handler-rx_ring cmd tx bytes s)
                refl)
              (if_ring (on_request P s.session cmd tx).0.is_duplicate _ _
                (replay-rx_ring (on_request P s.session cmd tx).0 _ ∙ enqueue_ack-rx_ring cmd tx _)
                (run_handler-rx_ring cmd tx bytes _ ∙ enqueue_ack-rx_ring cmd tx _))))
          (if_ring (tx == 0) _ _ refl
            (call_back-rx_ring (on_response P s.session cmd tx bytes).1 _)))
    where
      tx : ℕ
      tx = extract_tx_id_from_raw types cmd bytes

  dispatch-rx_ring :
      (i : ℕ) (clock : ℕ → ℕ) (packets : List (PacketTraits × List ℕ)) (s : Stack P R)
      → (dispatch P R types app i clock packets s).rx_ring ≡ s.rx_ring
  unfolding dispatch
  dispatch-rx_ring i clock [] s = refl
  dispatch-rx_ring i clock ((t, bytes) ∷ rest) s =
      dispatch-rx_ring (i + 1) clock rest _ ∙ handle_packet_internal-rx_ring (clock i) t.cmd bytes s

  push_data-rx_ring :
      (clock : ℕ → ℕ) (bytes : List ℕ) (s : Stack P R)
      → (push_data P R types app clock bytes s).rx_ring ≡ s.rx_ring
  unfolding push_data
  push_data-rx_ring clock bytes s = dispatch-rx_ring 0 clock (R.push_data s.parser bytes).1 _

  -- A round reads as many bytes as fit its buffer, or all.
  read_lengths :
      (r : IsrRing) (max : ℕ)
      → IsValid P.size_bits rx_ring_bits r
      → let n = available P.size_bits rx_ring_bits r in
        let (out, r') = read P.size_bits rx_ring_bits r max in
        (length out ≡ min max n) × (available P.size_bits rx_ring_bits r' ≡ n - max)
  unfolding get
  read_lengths r max v = (
    ap (λ q. length q.0) (read_refines P.size_bits rx_ring_bits (narrow P L R) r max v)
        ∙ length-take max (contents P.size_bits rx_ring_bits r)
        ∙ ap (min max) (length-contents P.size_bits rx_ring_bits (narrow P L R) r),
    sym (length-contents P.size_bits rx_ring_bits (narrow P L R) _)
        ∙ ap (λ q. length q.1) (read_refines P.size_bits rx_ring_bits (narrow P L R) r max v)
        ∙ length-drop max (contents P.size_bits rx_ring_bits r)
        ∙ ap (λ (n : ℕ). n - max) (length-contents P.size_bits rx_ring_bits (narrow P L R) r),
  )

  abbrev held : Stack P R → ℕ
  held s = available P.size_bits rx_ring_bits s.rx_ring

  drain_loop_empties :
      (n : ℕ) (clock : ℕ → ℕ → ℕ) (s : Stack P R)
      → IsStackValid P R s
      → held s ≤ n
      → held (drain_loop P R types app n clock s) ≡ 0
  unfolding drain_loop
  drain_loop_empties zero clock s v h = omega arith
  drain_loop_empties (suc n) clock s v h = elim (Bool-cases (held s == 0)) [
    | inl empty ↦ rw (empty, drain_loop) (ground (arith, empty))
    | inr more ↦ elim (Bool-cases (length (read P.size_bits rx_ring_bits s.rx_ring max).0 == 0)) [
      | inl none_read ↦
          absurd (ground (arith, none_read, more, read_lengths s.rx_ring max v.ring_valid))
      | inr some_read ↦
          rw (more, some_read, drain_loop)
            (drain_loop_empties n clock _
              (push_data-IsStackValid P L R types app safe (clock n) _ _
                (with_ring P L R types app safe s max v))
              (omega (
                arith,
                ap (available P.size_bits rx_ring_bits) (
                    push_data-rx_ring (clock n) (read P.size_bits rx_ring_bits s.rx_ring max).0
                      (record s { rx_ring = (read P.size_bits rx_ring_bits s.rx_ring max).1 })),
                read_lengths s.rx_ring max v.ring_valid,
                positive max (ground arith),
              )))
    ]
  ]
    where
      max : ℕ
      max = if ltb (held s) 256 then held s else 256

      positive : (m : ℕ) → 0 < m → 1 ≤ m
      positive m g = g

  -- For a valid stack, a map that behaves as documented, and an application that keeps the stack
  -- valid and does not write to the receive ring: `drain_rx` returns with the receive ring empty.
  pub drain_rx_empties :
      (clock : ℕ → ℕ → ℕ) (s : Stack P R)
      → IsStackValid P R s
      → rx_available P R (drain_rx P R types app clock s) ≡ 0
  unfolding drain_rx rx_available
  drain_rx_empties clock s v = drain_loop_empties (held s) clock s v (omega arith)
