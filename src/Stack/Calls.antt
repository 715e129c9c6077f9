-- ===== src/Stack/Calls.antt =====
-- Which handlers include/ProtocolStack.hpp calls: the packets that come in.
pub mod Cycle
use florid_usb_protocols.Prelude.{
  ℕ, ◌+◌, ◌≡◌, refl, sym, subst, inl, inr, Bool, true, false, not, ◌&&◌, Option, none, some, List,
  [], ◌∷◌, ◌++◌, arith, length, ltb, leb, ◌==◌, if◌then◌else◌, Bool-cases, Option-cases,
}
use florid_usb_protocols.Platform.{Platform}
use florid_usb_protocols.Rpl.{Rpl}
use florid_usb_protocols.Packet.{PacketTraits, sizeof, to_bytes}
use florid_usb_protocols.Packet.Traits.{ack_packet_traits}
use florid_usb_protocols.Packet.Region.{
  ack_cmd, is_request_cmd, is_reliable, extract_tx_id_from_raw,
}
use florid_usb_protocols.TxQueue.{max_frame_size}
use florid_usb_protocols.Session.{on_response}
use florid_usb_protocols.Session.Entry.{Event, RequestResult}
use florid_usb_protocols.Session.Device.{on_request}
use florid_usb_protocols.Stack.{Stack, App, Call, handled, called_back, noted}
use florid_usb_protocols.Stack.Cycle.{
  call_back, run_handler, enqueue_ack, replay, handle_ack_packet, handle_request_packet,
  handle_response_packet, handle_packet_internal, dispatch, push_data,
}

-- A command below 0x6100, which may come without a transaction id.
abbrev pub is_status_cmd : ℕ → Bool
is_status_cmd cmd = leb 0x6000 cmd && ltb cmd 0x6100

-- A handler is called for a request, with the transaction id that stands in its bytes, which is not 0
-- if the request is reliable.
abbrev pub IsSolicited : List PacketTraits → Call → Type 0
IsSolicited types (called_back e) = Unit
IsSolicited types (handled handler cmd tx bytes) =
    ((cmd == ack_cmd) ≡ false)
    × (is_request_cmd cmd ≡ true)
    × (tx ≡ extract_tx_id_from_raw types cmd bytes)
    × ((is_reliable cmd && (tx == 0) && not (is_status_cmd cmd)) ≡ false)

abbrev pub AllSolicited : List PacketTraits → List Call → Type 0
AllSolicited types [] = Unit
AllSolicited types (c ∷ calls) = IsSolicited types c × AllSolicited types calls

AllSolicited-append :
    (types : List PacketTraits) (calls : List Call) (c : Call)
    → AllSolicited types calls
    → IsSolicited types c
    → AllSolicited types (calls ++ (c ∷ []))
AllSolicited-append types [] c all one = (one, tt)
AllSolicited-append types (d ∷ calls) c all one =
    (all.0, AllSolicited-append types calls c all.1 one)

-- The handlers and callbacks of the application add nothing to the log: they call the public
-- operations, of which none calls a handler but the cycle and what the DMA receives.
pub record LeavesCalls (P : Platform) (R : Rpl) (app : App P R) : Type 0 where
  pub handler_leaves :
      (h cmd_id tx_id : ℕ) (bytes : List ℕ) (s : Stack P R)
      → (app.request_handler h cmd_id tx_id bytes s).calls ≡ s.calls
  pub callback_leaves : (e : Event) (s : Stack P R) → (app.session_callback e s).calls ≡ s.calls

-- The stack has called handlers for such packets only.
pub record IsClean (P : Platform) (R : Rpl) (types : List PacketTraits) (s : Stack P R)
    : Type 0 where
  pub all : AllSolicited types s.calls

module _ (P : Platform) (R : Rpl) (types : List PacketTraits) (app : App P R)
    (leaves : LeavesCalls P R app) where
  pub same : (s t : Stack P R) → t.calls ≡ s.calls → IsClean P R types s → IsClean P R types t
  same s t e v = record { all = subst (AllSolicited types) (sym e) v.all }

  pub branch :
      (b : Bool) {s t : Stack P R}
      → IsClean P R types s
      → IsClean P R types t
      → IsClean P R types (if b then s else t)
  branch true v u = v
  branch false v u = u

  noted-IsClean :
      (c : Call) (s : Stack P R)
      → IsClean P R types s
      → IsSolicited types c
      → IsClean P R types (noted P R c s)
  noted-IsClean c s v one = record { all = AllSolicited-append types s.calls c v.all one }

  pub call_back-IsClean :
      (es : List Event) (s : Stack P R)
      → IsClean P R types s
      → IsClean P R types (call_back P R types app es s)
  unfolding call_back
  call_back-IsClean [] s v = v
  call_back-IsClean (e ∷ es) s v = call_back-IsClean es _ (
      same _ _ (leaves.callback_leaves e (noted P R (called_back e) s))
        (noted-IsClean (called_back e) s v tt))

  run_handler-IsClean :
      (cmd tx : ℕ) (bytes : List ℕ) (s : Stack P R)
      → ((h : ℕ) → IsSolicited types (handled h cmd tx bytes))
      → IsClean P R types s
      → IsClean P R types (run_handler P R types app cmd tx bytes s)
  unfolding run_handler
  run_handler-IsClean cmd tx bytes s one v =
      elim (Option-cases (P.find (Option ℕ) cmd s.handlers)) [
        | inl e ↦ rw (e, run_handler) v
        | inr (o, e) ↦ elim (Option-cases o) [
          | inl f ↦ rw (e, f, run_handler) v
          | inr (h, f) ↦
              rw (e, f, run_handler)
                (same _ _
                  (leaves.handler_leaves h cmd tx bytes (noted P R (handled h cmd tx bytes) s))
                  (noted-IsClean (handled h cmd tx bytes) s v (one h)))
        ]
      ]

  enqueue_ack-calls :
      (cmd tx : ℕ) (s : Stack P R) → (enqueue_ack P R types app cmd tx s).calls ≡ s.calls
  unfolding enqueue_ack
  enqueue_ack-calls cmd tx s =
      elim (Option-cases (
        R.serialize max_frame_size ack_packet_traits
          (to_bytes 4 tx ++ to_bytes 2 cmd ++ (0 ∷ [])))) [
            | inl e ↦ rw (e, enqueue_ack) refl
            | inr (f, e) ↦ rw (e, enqueue_ack) refl
          ]

  replay-calls :
      (result : RequestResult) (s : Stack P R) → (replay P R types app result s).calls ≡ s.calls
  unfolding replay
  replay-calls result s = elim (Option-cases result.cached_response_data) [
    | inl e ↦ rw (e, replay) refl
    | inr (f, e) ↦ elim (Bool-cases (ltb 0 result.cached_response_len)) [
      | inl y ↦ rw (e, y, replay) refl
      | inr n ↦ rw (e, n, replay) refl
    ]
  ]

  handle_request_packet-IsClean :
      (cmd : ℕ) (bytes : List ℕ) (s : Stack P R)
      → (cmd == ack_cmd) ≡ false
      → is_request_cmd cmd ≡ true
      → IsClean P R types s
      → IsClean P R types (handle_request_packet P R types app cmd bytes s)
  unfolding handle_request_packet
  handle_request_packet-IsClean cmd bytes s other request v = elim (Bool-cases (is_reliable cmd)) [
    | inl reliable ↦ elim (Bool-cases (tx == 0)) [
      | inl zero_id ↦ elim (Bool-cases (is_status_cmd cmd)) [
        | inl status ↦
            rw (reliable, zero_id, status, handle_request_packet)
              (run_handler-IsClean cmd tx bytes s
                (λ h. (other, request, refl, rw (reliable, zero_id, status) refl)) v)
        | inr order ↦ rw (reliable, zero_id, order, handle_request_packet) v
      ]
      | inr id ↦
          rw (reliable, id, handle_request_packet)
            (branch (on_request P s.session cmd tx).0.is_duplicate
              (same _ _ (replay-calls (on_request P s.session cmd tx).0 _) acked)
              (run_handler-IsClean cmd tx bytes _
                (λ h. (other, request, refl, rw (reliable, id) refl)) acked))
    ]
    | inr loose ↦
        rw (loose, handle_request_packet)
          (run_handler-IsClean cmd tx bytes s (λ h. (other, request, refl, rw loose refl)) v)
  ]
    where
      tx : ℕ
      tx = extract_tx_id_from_raw types cmd bytes

      acked : IsClean P R types (
          enqueue_ack P R types app cmd tx
            (record s { session = (on_request P s.session cmd tx).1 }))
      acked = same s _ (enqueue_ack-calls cmd tx _) v

  handle_packet_internal-IsClean :
      (now cmd : ℕ) (bytes : List ℕ) (s : Stack P R)
      → IsClean P R types s
      → IsClean P R types (handle_packet_internal P R types app now cmd bytes s)
  unfolding handle_packet_internal handle_ack_packet handle_response_packet
  handle_packet_internal-IsClean now cmd bytes s v = elim (Bool-cases (cmd == ack_cmd)) [
    | inl ack ↦
        rw (ack, handle_ack_packet)
          (branch (length bytes == sizeof ack_packet_traits.layout) (same s _ refl v) v)
    | inr other ↦ elim (Bool-cases (is_request_cmd cmd)) [
      | inl request ↦
          rw (other, request) (handle_request_packet-IsClean cmd bytes s other request v)
      | inr answer ↦
          rw (other, answer, handle_response_packet)
            (branch (tx == 0) v
              (call_back-IsClean (on_response P s.session cmd tx bytes).1 _ (same s _ refl v)))
    ]
  ]
    where
      tx : ℕ
      tx = extract_tx_id_from_raw types cmd bytes

  pub dispatch-IsClean :
      (i : ℕ) (clock : ℕ → ℕ) (packets : List (PacketTraits × List ℕ)) (s : Stack P R)
      → IsClean P R types s
      → IsClean P R types (dispatch P R types app i clock packets s)
  unfolding dispatch
  dispatch-IsClean i clock [] s v = v
  dispatch-IsClean i clock ((t, bytes) ∷ rest) s v =
      dispatch-IsClean (i + 1) clock rest _
        (handle_packet_internal-IsClean (clock i) t.cmd bytes s v)
