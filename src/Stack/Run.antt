-- ===== src/Stack/Run.antt =====
-- Runs of include/ProtocolStack.hpp: its public operations in any order, as the interrupt, the
-- application and the protocol task call them, one at a time.
use florid_usb_protocols.Prelude.{ℕ, ◌+◌, ◌^◌, ◌<◌, Bool, Option, List}
use florid_usb_protocols.Platform.{Platform, IsPlatform}
use florid_usb_protocols.Rpl.{Rpl}
use florid_usb_protocols.Packet.{PacketTraits}
use florid_usb_protocols.Session.{Config}
use florid_usb_protocols.Session.Device.{reset_device_state}
use florid_usb_protocols.Session.Run.Sound.{reset_device_state-IsSound}
use florid_usb_protocols.Stack.{
  Stack, App, init_stack, set_send_frame, register_handler, isr_feed, send, send_response_and_cache,
  broadcast,
}
use florid_usb_protocols.Stack.Cycle.{advance_write_index, run_one_cycle}
use florid_usb_protocols.Stack.Invariant.{
  IsStackValid, IsApp, with_session, init_stack-IsStackValid, isr_feed-IsStackValid,
  send-IsStackValid, send_response_and_cache-IsStackValid, broadcast-IsStackValid,
}
use florid_usb_protocols.Stack.Invariant.Cycle.{
  advance_write_index-IsStackValid, run_one_cycle-IsStackValid,
}

module _ (P : Platform) (R : Rpl) (types : List PacketTraits) (app : App P R) where
  -- `call` is `send`, while the transaction ids last, and `forget` is called through `session()`.
  pub data Step (s : Stack P R) : Stack P R → Type 0 where
    transport : (fn : Option ℕ) → Step s (set_send_frame P R s fn)
    serve : (cmd_id : ℕ) (handler : Option ℕ) → Step s (register_handler P R s cmd_id handler)
    feed : (bytes : List ℕ) → Step s (isr_feed P R s bytes)
    receive :
        (clock : ℕ → ℕ) (bytes : List ℕ)
        → Step s (advance_write_index P R types app clock bytes s).1
    call :
        (request response : PacketTraits) (payload : List ℕ) (on_response on_error : Option ℕ)
        → (timeout max_retries now : ℕ) → s.session.next_tx_id + 1 < 2 ^ 32
        → max_retries < 2 ^ 8
        → Step s
            (send P R s request response payload on_response on_error timeout max_retries now).1
    respond :
        (request response : PacketTraits) (tx_id : ℕ) (bytes : List ℕ)
        → Step s (send_response_and_cache P R s request response tx_id bytes).1
    tell : (t : PacketTraits) (bytes : List ℕ) → Step s (broadcast P R s t bytes).1
    forget : Step s (record s { session = reset_device_state P s.session })
    cycle :
        (packets : ℕ → ℕ → ℕ) (outbound : ℕ → ℕ) (now : ℕ) (retries : ℕ → ℕ) (accepted : Bool)
        → Step s (run_one_cycle P R types app packets outbound now retries accepted s).1

  pub data Reach (c : Config) (poll_interval : ℕ) : Stack P R → Type 0 where
    start : Reach c poll_interval (init_stack P R c poll_interval)
    later : {s t : Stack P R} → Reach c poll_interval s → Step s t → Reach c poll_interval t

  module _ (L : IsPlatform P) (safe : IsApp P R app) where
    Step-IsStackValid : {s t : Stack P R} → Step s t → IsStackValid P R s → IsStackValid P R t
    unfolding set_send_frame register_handler
    Step-IsStackValid (transport fn) v = record {
      session_valid = v.session_valid;
      ring_valid = v.ring_valid;
      bounded = v.bounded;
    }
    Step-IsStackValid (serve cmd_id handler) v = record {
      session_valid = v.session_valid;
      ring_valid = v.ring_valid;
      bounded = v.bounded;
    }
    Step-IsStackValid {s} forget v =
        with_session P L R s _ v (reset_device_state-IsSound P L s.session v.session_valid)
    Step-IsStackValid {s} (feed bytes) v = isr_feed-IsStackValid P L R s bytes v
    Step-IsStackValid {s} (receive clock bytes) v =
        advance_write_index-IsStackValid P L R types app safe clock bytes s v
    Step-IsStackValid {s} (call req rsp payload ok err timeout tries now low few) v =
        send-IsStackValid P L R s req rsp payload ok err timeout tries now low few v
    Step-IsStackValid {s} (respond req rsp tx bytes) v =
        send_response_and_cache-IsStackValid P L R s req rsp tx bytes v
    Step-IsStackValid {s} (tell t bytes) v = broadcast-IsStackValid P L R s t bytes v
    Step-IsStackValid {s} (cycle packets outbound now retries accepted) v =
        run_one_cycle-IsStackValid P L R types app safe packets outbound now retries accepted s v

    -- In every state that a stack can get into by its public operations, in any order, from any
    -- configuration, while the 32-bit transaction ids last, if the map behaves as documented and
    -- the application's handlers and callbacks keep the stack valid: the count of the requests in
    -- flight is right and fits the window, pending and queued ids are those that were handed out,
    -- no entry has been retried more often than it may be, the receive ring is well formed, and the
    -- transmit queue is within its capacity.
    pub Reach-IsStackValid :
        {c : Config} {interval : ℕ} {s : Stack P R} → Reach c interval s → IsStackValid P R s
    Reach-IsStackValid {c} {interval} start = init_stack-IsStackValid P L R c interval
    Reach-IsStackValid (later r st) = Step-IsStackValid st (Reach-IsStackValid r)
