-- ===== src/Stack/Calls/Cycle.antt =====
-- Which handlers include/ProtocolStack.hpp calls: the public operations, in any order.
use florid_usb_protocols.Prelude.{
  ℕ, zero, suc, ◌+◌, ◌≡◌, refl, inl, inr, Bool, true, List, [], ◌∷◌, length, ltb, ◌==◌,
  if◌then◌else◌, Bool-cases, Option-cases, List-cases,
}
use florid_usb_protocols.Platform.{Platform}
use florid_usb_protocols.Rpl.{Rpl}
use florid_usb_protocols.IsrRing.{read, available}
use florid_usb_protocols.Packet.{PacketTraits}
use florid_usb_protocols.TxQueue.{max_frame_size, enqueue_prebuilt_frame}
use florid_usb_protocols.Session.{Config, next_outbound}
use florid_usb_protocols.Session.Entry.{RetransmitEntry}
use florid_usb_protocols.Session.Poll.{poll}
use florid_usb_protocols.Stack.{
  Stack, App, rx_ring_bits, init_stack, set_send_frame, register_handler, isr_feed, send,
  send_response_and_cache, broadcast, drain_tx,
}
use florid_usb_protocols.Stack.Cycle.{
  call_back, enqueue_entry, pump_outbound, handle_session_outbound, enqueue_retries,
  handle_session_retries, push_data, drain_loop, drain_rx, advance_write_index, run_one_cycle,
}
use florid_usb_protocols.Stack.Calls.{
  LeavesCalls, IsClean, same, branch, call_back-IsClean, dispatch-IsClean,
}
use florid_usb_protocols.Stack.Run.{
  Step, Reach, transport, serve, feed, receive, call, respond, tell, forget, cycle, start, later,
}

module _ (P : Platform) (R : Rpl) (types : List PacketTraits) where
  enqueue_retries-calls :
      (rs : List RetransmitEntry) (s : Stack P R) → (enqueue_retries P R types rs s).calls ≡ s.calls
  unfolding enqueue_retries enqueue_entry
  enqueue_retries-calls [] s = refl
  enqueue_retries-calls (r ∷ rs) s = enqueue_retries-calls rs _

  pump_outbound-calls :
      (n i : ℕ) (clock : ℕ → ℕ) (s : Stack P R)
      → (pump_outbound P R types n i clock s).calls ≡ s.calls
  unfolding pump_outbound enqueue_entry
  pump_outbound-calls zero i clock s = refl
  pump_outbound-calls (suc n) i clock s =
      elim (Option-cases (next_outbound P s.session (clock i)).0) [
        | inl e ↦ rw (e, pump_outbound) refl
        | inr (r, e) ↦
            elim (Bool-cases
              (enqueue_entry P R types
                (record s { session = (next_outbound P s.session (clock i)).1 }) r).0) [
                  | inl y ↦ rw (e, y, pump_outbound) (pump_outbound-calls n (i + 1) clock _)
                  | inr f ↦ rw (e, f, pump_outbound) refl
                ]
      ]

  drain_tx-calls : (s : Stack P R) (accepted : Bool) → (drain_tx P R s accepted).1.calls ≡ s.calls
  unfolding drain_tx
  drain_tx-calls s accepted = elim (Option-cases s.send_frame) [
    | inl e ↦ simp (e, drain_tx)
    | inr (fn, e) ↦ elim (List-cases s.tx_queue) [
      | inl f ↦ simp (e, f, drain_tx)
      | inr (x, q, f) ↦ elim (Bool-cases accepted) [
        | inl y ↦ simp (e, f, y, drain_tx)
        | inr n ↦ simp (e, f, n, drain_tx)
      ]
    ]
  ]

  send_response_and_cache-calls :
      (s : Stack P R) (req rsp : PacketTraits) (tx : ℕ) (bytes : List ℕ)
      → (send_response_and_cache P R s req rsp tx bytes).1.calls ≡ s.calls
  unfolding send_response_and_cache
  send_response_and_cache-calls s req rsp tx bytes =
      elim (Option-cases (R.serialize max_frame_size rsp bytes)) [
        | inl e ↦ rw (e, send_response_and_cache) refl
        | inr (f, e) ↦ elim (Bool-cases (enqueue_prebuilt_frame s.tx_queue f true).0) [
          | inl y ↦ rw (e, y, send_response_and_cache) refl
          | inr n ↦ rw (e, n, send_response_and_cache) refl
        ]
      ]

  broadcast-calls :
      (s : Stack P R) (t : PacketTraits) (bytes : List ℕ)
      → (broadcast P R s t bytes).1.calls ≡ s.calls
  unfolding broadcast
  broadcast-calls s t bytes = elim (Option-cases (R.serialize max_frame_size t bytes)) [
    | inl e ↦ rw (e, broadcast) refl
    | inr (f, e) ↦ rw (e, broadcast) refl
  ]

  module _ (app : App P R) (leaves : LeavesCalls P R app) where
    push_data-IsClean :
        (clock : ℕ → ℕ) (bytes : List ℕ) (s : Stack P R)
        → IsClean P R types s
        → IsClean P R types (push_data P R types app clock bytes s)
    unfolding push_data
    push_data-IsClean clock bytes s v =
        dispatch-IsClean P R types app leaves 0 clock (R.push_data s.parser bytes).1 _
          (same P R types app leaves s _ refl v)

    drain_loop-IsClean :
        (n : ℕ) (clock : ℕ → ℕ → ℕ) (s : Stack P R)
        → IsClean P R types s
        → IsClean P R types (drain_loop P R types app n clock s)
    unfolding drain_loop
    drain_loop-IsClean zero clock s v = v
    drain_loop-IsClean (suc n) clock s v = branch P R types app leaves (avail == 0) v (
        branch P R types app leaves (length (read P.size_bits rx_ring_bits s.rx_ring max).0 == 0)
          read_ring (drain_loop-IsClean n clock _ (push_data-IsClean (clock n) _ _ read_ring)))
      where
        avail : ℕ
        avail = available P.size_bits rx_ring_bits s.rx_ring

        max : ℕ
        max = if ltb avail 256 then avail else 256

        read_ring :
            IsClean P R types
              (record s { rx_ring = (read P.size_bits rx_ring_bits s.rx_ring max).1 })
        read_ring = same P R types app leaves s _ refl v

    run_one_cycle-IsClean :
        (packets : ℕ → ℕ → ℕ) (outbound : ℕ → ℕ) (now : ℕ) (retries : ℕ → ℕ) (accepted : Bool)
        → (s : Stack P R) → IsClean P R types s
        → IsClean P R types (run_one_cycle P R types app packets outbound now retries accepted s).1
    unfolding run_one_cycle drain_rx handle_session_outbound handle_session_retries
    run_one_cycle-IsClean packets outbound now retries accepted s v =
        same P R types app leaves retried _ (drain_tx-calls retried accepted) (
          same P R types app leaves called _
            (enqueue_retries-calls (poll P now retries pumped.session).0 called)
            (call_back-IsClean P R types app leaves (poll P now retries pumped.session).1 _ (
              same P R types app leaves drained _
                (pump_outbound-calls (suc (length drained.session.outbound_queue)) 0 outbound
                  drained)
                (drain_loop-IsClean (available P.size_bits rx_ring_bits s.rx_ring) packets s v))))
      where
        drained : Stack P R
        drained = drain_rx P R types app packets s

        pumped : Stack P R
        pumped = handle_session_outbound P R types outbound drained

        called : Stack P R
        called =
            call_back P R types app (poll P now retries pumped.session).1
              (record pumped { session = (poll P now retries pumped.session).2 })

        retried : Stack P R
        retried = handle_session_retries P R types app now retries pumped

    Step-IsClean :
        {s t : Stack P R} → Step P R types app s t → IsClean P R types s → IsClean P R types t
    unfolding set_send_frame register_handler isr_feed send advance_write_index
    Step-IsClean {s} (transport fn) v = same P R types app leaves s _ refl v
    Step-IsClean {s} (serve cmd_id handler) v = same P R types app leaves s _ refl v
    Step-IsClean {s} (feed bytes) v = same P R types app leaves s _ refl v
    Step-IsClean {s} forget v = same P R types app leaves s _ refl v
    Step-IsClean {s} (receive clock bytes) v =
        dispatch-IsClean P R types app leaves 0 clock (R.advance_write_index s.parser bytes).2 _
          (same P R types app leaves s _ refl v)
    Step-IsClean {s} (call req rsp payload ok err timeout tries now low few) v =
        same P R types app leaves s _ refl v
    Step-IsClean {s} (respond req rsp tx bytes) v =
        same P R types app leaves s _ (send_response_and_cache-calls s req rsp tx bytes) v
    Step-IsClean {s} (tell t bytes) v = same P R types app leaves s _ (broadcast-calls s t bytes) v
    Step-IsClean {s} (cycle packets outbound now retries accepted) v =
        run_one_cycle-IsClean packets outbound now retries accepted s v

    -- In every state that a stack can get into by its public operations, in any order, if the
    -- handlers and callbacks of the application leave the log of the calls to the stack: a handler
    -- has been called only for a command that is taken for a request and not for an
    -- acknowledgement, with the transaction id that stands in the bytes of the packet, and for a
    -- reliable request with a command of 0x6100 or more only with one that is not 0.
    pub Reach-IsClean :
        {c : Config} {interval : ℕ} {s : Stack P R}
        → Reach P R types app c interval s
        → IsClean P R types s
    unfolding init_stack
    Reach-IsClean start = record { all = tt }
    Reach-IsClean (later r st) = Step-IsClean st (Reach-IsClean r)
