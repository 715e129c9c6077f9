-- ===== src/Stack/Invariant.antt =====
-- The invariant of include/ProtocolStack.hpp, and the operations that the application calls.
pub mod Packets
pub mod Cycle
use florid_usb_protocols.Prelude.{
  ℕ, zero, suc, ◌+◌, ◌^◌, ◌≤◌, ◌<◌, ◌≡◌, refl, sym, ap, ◌⊎◌, inl, inr, Bool, true, false, Option,
  none, some, List, [], ◌∷◌, ◌++◌, arith, length, ltb, leb, ◌==◌, ◌&&◌, not, if◌then◌else◌,
  Bool-cases, Option-cases, List-cases,
}
use florid_usb_protocols.Platform.{Platform, IsPlatform}
use florid_usb_protocols.Rpl.{Rpl}
use florid_usb_protocols.IsrRing.{write, read, available}
use florid_usb_protocols.IsrRing.Queue.{IsValid as IsRingValid}
use florid_usb_protocols.IsrRing.Refine.{write-IsValid, read-IsValid, cleared-IsValid}
use florid_usb_protocols.Packet.{PacketTraits, sizeof, to_bytes, load_tx_id}
use florid_usb_protocols.Packet.Traits.{ack_packet_traits}
use florid_usb_protocols.Packet.Region.{
  ack_cmd, is_request_cmd, is_reliable, extract_tx_id_from_raw,
}
use florid_usb_protocols.TxQueue.{
  TxEntry, max_frame_size, tx_queue_cap, enqueue_pending_frame, enqueue_prebuilt_frame,
}
use florid_usb_protocols.TxQueue.Bounds.{
  enqueue_pending_frame-bounded, enqueue_prebuilt_frame-bounded,
}
use florid_usb_protocols.Prelude.Eq.{nat_regular}
use florid_usb_protocols.IdRing.{test_and_insert, seen_id_ring_bits, compose_dedup_key}
use florid_usb_protocols.Session.{Config, Session, next_outbound, next_tx_id, on_ack, on_response}
use florid_usb_protocols.Session.Entry.{Event, RetransmitEntry, RequestResult}
use florid_usb_protocols.Session.Device.{on_request, cache_response}
use florid_usb_protocols.Session.Run.Sound.{
  IsSound, init-IsSound, register_pending-IsSound, cache_response-IsSound,
}
use florid_usb_protocols.Session.Poll.{poll}
use florid_usb_protocols.Stack.{
  Call, noted, Stack, App, rx_ring_bits, init_stack, isr_feed, send, send_response_and_cache,
  broadcast, drain_tx,
}
use florid_usb_protocols.Stack.Cycle.{
  pump_outbound, handle_session_outbound, enqueue_entry, enqueue_retries, call_back,
  handle_session_retries, handle_ack_packet, run_handler, enqueue_ack, replay,
  handle_request_packet, handle_response_packet, handle_packet_internal, dispatch, push_data,
  drain_loop, drain_rx, advance_write_index, run_one_cycle,
}

-- The session keeps its count, its window and its ids, the ring its bytes, and the queue its
-- capacity.
pub record IsStackValid (P : Platform) (R : Rpl) (s : Stack P R) : Type 0 where
  pub session_valid : IsSound P s.session
  pub ring_valid : IsRingValid P.size_bits rx_ring_bits s.rx_ring
  pub bounded : length s.tx_queue ≤ tx_queue_cap

-- An application whose handlers and callbacks keep the stack valid, as calls of its public
-- operations do while the transaction ids last.
pub record IsApp (P : Platform) (R : Rpl) (app : App P R) : Type 0 where
  pub handler_valid :
      (h cmd_id tx_id : ℕ) (bytes : List ℕ) (s : Stack P R)
      → IsStackValid P R s
      → IsStackValid P R (app.request_handler h cmd_id tx_id bytes s)
  pub callback_valid :
      (e : Event) (s : Stack P R) → IsStackValid P R s → IsStackValid P R (app.session_callback e s)

module _ (P : Platform) (L : IsPlatform P) (R : Rpl) where
  pub branch :
      (b : Bool) {x y : Stack P R}
      → IsStackValid P R x
      → IsStackValid P R y
      → IsStackValid P R (if b then x else y)
  branch true v u = v
  branch false v u = u

  pub with_session :
      (s : Stack P R) (t : Session P)
      → IsStackValid P R s
      → IsSound P t
      → IsStackValid P R (record s { session = t })
  with_session s t v u = record {
    session_valid = u;
    ring_valid = v.ring_valid;
    bounded = v.bounded;
  }

  pub noted-IsStackValid :
      (c : Call) (s : Stack P R) → IsStackValid P R s → IsStackValid P R (noted P R c s)
  noted-IsStackValid c s v = record {
    session_valid = v.session_valid;
    ring_valid = v.ring_valid;
    bounded = v.bounded;
  }

  pub with_queue :
      (s : Stack P R) (q : List TxEntry)
      → IsStackValid P R s
      → length q ≤ tx_queue_cap
      → IsStackValid P R (record s { tx_queue = q })
  with_queue s q v h = record {
    session_valid = v.session_valid;
    ring_valid = v.ring_valid;
    bounded = h;
  }

  pub narrow : rx_ring_bits < P.size_bits
  narrow = omega (arith, L.wide)

  -- With a map that behaves as documented, a stack is valid when it is constructed, whatever its
  -- configuration.
  pub init_stack-IsStackValid :
      (c : Config) (interval : ℕ) → IsStackValid P R (init_stack P R c interval)
  unfolding init_stack
  init_stack-IsStackValid c interval = record {
    session_valid = init-IsSound P L c;
    ring_valid = cleared-IsValid P.size_bits rx_ring_bits narrow;
    bounded = omega arith;
  }

  -- What the interrupt feeds in keeps the stack valid.
  pub isr_feed-IsStackValid :
      (s : Stack P R) (bytes : List ℕ)
      → IsStackValid P R s
      → IsStackValid P R (isr_feed P R s bytes)
  unfolding isr_feed
  isr_feed-IsStackValid s bytes v = record {
    session_valid = v.session_valid;
    ring_valid = write-IsValid P.size_bits rx_ring_bits narrow s.rx_ring bytes v.ring_valid;
    bounded = v.bounded;
  }

  -- With a map that behaves as documented, `send` keeps a valid stack valid while the transaction
  -- ids last.
  pub send-IsStackValid :
      (s : Stack P R) (req rsp : PacketTraits) (payload : List ℕ) (ok err : Option ℕ)
      → (timeout tries now : ℕ) → s.session.next_tx_id + 1 < 2 ^ 32
      → tries < 2 ^ 8
      → IsStackValid P R s
      → IsStackValid P R (send P R s req rsp payload ok err timeout tries now).1
  unfolding send
  send-IsStackValid s req rsp payload ok err timeout tries now low few v = with_session s _ v (
      register_pending-IsSound P L s.session req.cmd rsp.cmd
        (to_bytes 4 (next_tx_id P s.session).0 ++ payload) ok err timeout tries now low few
        v.session_valid)

  -- With a map that behaves as documented, `send_response_and_cache` keeps a valid stack valid,
  -- whether the response could be serialized or not.
  pub send_response_and_cache-IsStackValid :
      (s : Stack P R) (req rsp : PacketTraits) (tx : ℕ) (bytes : List ℕ)
      → IsStackValid P R s
      → IsStackValid P R (send_response_and_cache P R s req rsp tx bytes).1
  unfolding send_response_and_cache
  send_response_and_cache-IsStackValid s req rsp tx bytes v =
      elim (Option-cases (R.serialize 512 rsp bytes)) [
        | inl e ↦ rw (e, send_response_and_cache) v
        | inr (f, e) ↦ elim (Bool-cases (enqueue_prebuilt_frame s.tx_queue f true).0) [
          | inl y ↦
              rw (e, y, send_response_and_cache)
                (with_session _ _
                  (with_queue s _ v (enqueue_prebuilt_frame-bounded s.tx_queue f true v.bounded))
                  (cache_response-IsSound P L s.session req.cmd tx rsp.cmd f v.session_valid))
          | inr n ↦
              rw (e, n, send_response_and_cache)
                (with_queue s _ v (enqueue_prebuilt_frame-bounded s.tx_queue f true v.bounded))
        ]
      ]

  pub broadcast-IsStackValid :
      (s : Stack P R) (t : PacketTraits) (bytes : List ℕ)
      → IsStackValid P R s
      → IsStackValid P R (broadcast P R s t bytes).1
  unfolding broadcast
  broadcast-IsStackValid s t bytes v = elim (Option-cases (R.serialize 512 t bytes)) [
    | inl e ↦ rw (e, broadcast) v
    | inr (f, e) ↦
        rw (e, broadcast)
          (with_queue s _ v (enqueue_prebuilt_frame-bounded s.tx_queue f false v.bounded))
  ]

  pub drain_tx-IsStackValid :
      (s : Stack P R) (accepted : Bool)
      → IsStackValid P R s
      → IsStackValid P R (drain_tx P R s accepted).1
  unfolding drain_tx
  drain_tx-IsStackValid s accepted v = elim (Option-cases s.send_frame) [
    | inl e ↦ simp (e, drain_tx) v
    | inr (fn, e) ↦ elim (List-cases s.tx_queue) [
      | inl f ↦ simp (e, f, drain_tx) v
      | inr (x, q, f) ↦ elim (Bool-cases accepted) [
        | inl y ↦
            simp (e, f, y, drain_tx)
              (record {
                session_valid = v.session_valid;
                ring_valid = v.ring_valid;
                bounded = omega (arith, ap length f, v.bounded);
              })
        | inr n ↦ simp (e, f, n, drain_tx) v
      ]
    ]
  ]
