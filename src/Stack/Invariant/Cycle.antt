-- ===== src/Stack/Invariant/Cycle.antt =====
-- The invariant of include/ProtocolStack.hpp over what comes in and over a cycle.
use florid_usb_protocols.Prelude.{ℕ, zero, suc, Bool, List, length, ltb, ◌==◌, if◌then◌else◌}
use florid_usb_protocols.Platform.{Platform, IsPlatform}
use florid_usb_protocols.Rpl.{Rpl}
use florid_usb_protocols.IsrRing.{read, available}
use florid_usb_protocols.IsrRing.Refine.{read-IsValid}
use florid_usb_protocols.Packet.{PacketTraits}
use florid_usb_protocols.Prelude.Eq.{nat_regular}
use florid_usb_protocols.Stack.{Stack, App, rx_ring_bits}
use florid_usb_protocols.Stack.Cycle.{
  handle_session_outbound, push_data, drain_loop, drain_rx, advance_write_index, run_one_cycle,
}
use florid_usb_protocols.Stack.Invariant.{
  IsStackValid, IsApp, branch, narrow, drain_tx-IsStackValid,
}
use florid_usb_protocols.Stack.Invariant.Packets.{
  pump_outbound-IsStackValid, handle_session_retries-IsStackValid, dispatch-IsStackValid,
}

module _ (P : Platform) (L : IsPlatform P) (R : Rpl) where
  module _ (types : List PacketTraits) where
    module _ (app : App P R) (safe : IsApp P R app) where
      with_parser :
          (s : Stack P R) (parser : R.Parser)
          → IsStackValid P R s
          → IsStackValid P R (record s { parser = parser })
      with_parser s parser v = record {
        session_valid = v.session_valid;
        ring_valid = v.ring_valid;
        bounded = v.bounded;
      }

      pub with_ring :
          (s : Stack P R) (max : ℕ)
          → IsStackValid P R s
          → IsStackValid P R
              (record s { rx_ring = (read P.size_bits rx_ring_bits s.rx_ring max).1 })
      with_ring s max v = record {
        session_valid = v.session_valid;
        ring_valid =
            read-IsValid P.size_bits rx_ring_bits (narrow P L R) s.rx_ring max v.ring_valid;
        bounded = v.bounded;
      }

      pub push_data-IsStackValid :
          (clock : ℕ → ℕ) (bytes : List ℕ) (s : Stack P R)
          → IsStackValid P R s
          → IsStackValid P R (push_data P R types app clock bytes s)
      unfolding push_data
      push_data-IsStackValid clock bytes s v =
          dispatch-IsStackValid P L R types app safe 0 clock (R.push_data s.parser bytes).1 _
            (with_parser s _ v)

      drain_loop-IsStackValid :
          (n : ℕ) (clock : ℕ → ℕ → ℕ) (s : Stack P R)
          → IsStackValid P R s
          → IsStackValid P R (drain_loop P R types app n clock s)
      unfolding drain_loop
      drain_loop-IsStackValid zero clock s v = v
      drain_loop-IsStackValid (suc n) clock s v = branch P L R (avail == 0) v (
          branch P L R (length (read P.size_bits rx_ring_bits s.rx_ring max).0 == 0)
            (with_ring s max v)
            (drain_loop-IsStackValid n clock _
              (push_data-IsStackValid (clock n) _ _ (with_ring s max v))))
        where
          avail : ℕ
          avail = available P.size_bits rx_ring_bits s.rx_ring

          max : ℕ
          max = if ltb avail 256 then avail else 256

      -- What the DMA receives keeps the stack valid.
      pub advance_write_index-IsStackValid :
          (clock : ℕ → ℕ) (bytes : List ℕ) (s : Stack P R)
          → IsStackValid P R s
          → IsStackValid P R (advance_write_index P R types app clock bytes s).1
      unfolding advance_write_index
      advance_write_index-IsStackValid clock bytes s v =
          dispatch-IsStackValid P L R types app safe 0 clock
            (R.advance_write_index s.parser bytes).2 _ (with_parser s _ v)

      -- A cycle of the protocol task keeps a valid stack valid, whatever bytes wait in the receive
      -- ring, if the map behaves as documented and the application's handlers and callbacks keep
      -- the stack valid: the requests in flight are counted and fit the window, the receive ring
      -- stays well formed, and the transmit queue stays within its capacity.
      pub run_one_cycle-IsStackValid :
          (packets : ℕ → ℕ → ℕ) (outbound : ℕ → ℕ) (now : ℕ) (retries : ℕ → ℕ) (accepted : Bool)
          → (s : Stack P R) → IsStackValid P R s
          → IsStackValid P R (run_one_cycle P R types app packets outbound now retries accepted s).1
      unfolding run_one_cycle drain_rx handle_session_outbound
      run_one_cycle-IsStackValid packets outbound now retries accepted s v =
          drain_tx-IsStackValid P L R _ accepted (
            handle_session_retries-IsStackValid P L R types app safe now retries _ (
              pump_outbound-IsStackValid P L R types (suc (length drained.session.outbound_queue)) 0
                outbound drained
                (drain_loop-IsStackValid (available P.size_bits rx_ring_bits s.rx_ring) packets s
                  v)))
        where
          drained : Stack P R
          drained = drain_rx P R types app packets s
