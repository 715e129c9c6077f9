-- ===== src/Example/Programs.antt =====
-- The programs of examples/ from their start: examples/send_serial.cpp makes its request of
-- examples/receive_serial.cpp, and ends.
use native.Mathlib.Decide.{dec_le}
use florid_usb_protocols.Prelude.{
  ℕ, ◌==◌, ◌+◌, ◌≡◌, refl, ap, ◌∙◌, Bool, true, false, Option, some, List, [], ◌∷◌, arith, ltb, leb,
  ◌&&◌, if◌then◌else◌,
}
use florid_usb_protocols.Prelude.Eq.{nat_regular}
use florid_usb_protocols.Platform.{Platform, IsPlatform}
use florid_usb_protocols.Rpl.{Rpl}
use florid_usb_protocols.IdRing.{
  cleared, contains, test_and_insert, compose_dedup_key, seen_id_ring_bits,
}
use florid_usb_protocols.IdRing.Retention.{insert_all, insert_all_no_false_positive}
use florid_usb_protocols.Session.{init, next_tx_id}
use florid_usb_protocols.Session.Entry.{PendingEntry}
use florid_usb_protocols.Session.Device.{on_request}
use florid_usb_protocols.Stack.{Stack, handled, init_stack, set_send_frame, register_handler, send}
use florid_usb_protocols.Stack.Receive.{cleared-IsHolding}
use florid_usb_protocols.Example.{request_cmd, response_cmd, request}
use florid_usb_protocols.Example.Device.{device_stack}
use florid_usb_protocols.Example.Host.{exit_code, host_flags, host_stack, host_asks}
use florid_usb_protocols.Example.Loop.{Times, IsPaced, main_loop}
use florid_usb_protocols.Example.Serves.{IsExchange}
use florid_usb_protocols.Example.Waiting.{IsFree, next_outbound-IsWaiting}
use florid_usb_protocols.Example.Asking.{IsCalm, flown, host_sends}
use florid_usb_protocols.Example.Rounds.{IsReady}
use florid_usb_protocols.Example.Told.{exit_code_done}
use florid_usb_protocols.Example.Lost.{IsTrying, lost_then_served, lost_for_good}

module _ (P : Platform) (L : IsPlatform P) (R : Rpl) where
  -- The host, when it has taken the id of its request.
  abbrev numbered : Stack P R
  numbered = record (host_stack P R) { session = (next_tx_id P (host_stack P R).session).1 }

  unseen_at_start :
      (cmd : ℕ)
      → (0 == compose_dedup_key cmd 1) ≡ false
      → (test_and_insert P.size_bits seen_id_ring_bits
          (cleared seen_id_ring_bits)
          (compose_dedup_key cmd 1)).0
        ≡ false
  unfolding insert_all contains
  unseen_at_start cmd key =
      insert_all_no_false_positive P.size_bits seen_id_ring_bits [] (compose_dedup_key cmd 1) refl
        key

  pub device-IsReady :
      (joint asked : ℕ) (limits request_frame ack_frame response_frame : List ℕ)
      → (x : IsExchange R 1 joint limits request_frame ack_frame response_frame)
      → IsReady P L R 1 joint asked limits request_frame ack_frame response_frame x
          (device_stack P R)
  unfolding init_stack init set_send_frame register_handler on_request compose_dedup_key
  device-IsReady joint asked limits request_frame ack_frame response_frame x = record {
    serving = record {
      transport = refl;
      none_queued = refl;
      none_pending = L.find-empty PendingEntry;
    };
    listening = record {
      idle = refl;
      handled = L.find-insert (Option ℕ) request_cmd request_cmd (some 0) _;
      new = rw (unseen_at_start request_cmd refl) refl;
      room = omega arith;
    };
    empty = refl;
    holds = cleared-IsHolding P L R;
  }

  -- The host, when it has called `send`.
  abbrev pub asking_host : (joint asked : ℕ) → List ℕ → Stack P R
  asking_host joint asked limits = (host_asks P R (host_stack P R) (joint ∷ limits) asked).1

  pub host-IsTrying :
      (joint asked : ℕ) (limits request_frame ack_frame response_frame : List ℕ)
      → (x : IsExchange R 1 joint limits request_frame ack_frame response_frame)
      → (line : ℕ → Bool × Bool) (a b : ℕ → Times) (paced : IsPaced 200000 a)
      → IsTrying P L R 1 joint asked limits request_frame ack_frame response_frame x line a b paced
          (device_stack P R)
          (device-IsReady joint asked limits request_frame ack_frame response_frame x)
          0
          (asking_host joint asked limits)
  unfolding init_stack init next_tx_id set_send_frame send compose_dedup_key
  host-IsTrying joint asked limits request_frame ack_frame response_frame x line a b paced =
      let free : IsFree P L 1 (request 1 joint limits) asked numbered.session = record {
        none_queued = refl;
        none_pending = L.find-empty PendingEntry;
        room = omega arith;
        unseen = unseen_at_start response_cmd refl;
      } in
      let calm : IsCalm P R numbered = record {
        idle = refl;
        empty = refl;
        transport = refl;
        uncalled = refl;
      } in
      record {
        next = record numbered {
          session =
              flown P L R 1 joint asked limits request_frame ack_frame response_frame x numbered
                ((a 0).outbound 0);
        };
        deadline = (a 0).outbound 0 + 200000;
        asks = record {
          sends =
              host_sends P L R 1 joint asked limits request_frame ack_frame response_frame x (a 0)
                numbered calm free (cleared-IsHolding P L R) (paced.request 0 0);
          uncalled = refl;
          calm = record { idle = refl; empty = refl; transport = refl; uncalled = refl };
          waits =
              next_outbound-IsWaiting P L 1 (request 1 joint limits) asked numbered.session
                ((a 0).outbound 0) free;
          holds = cleared-IsHolding P L R;
        };
        late = paced.request_late 0 0;
      }

  -- With a map that behaves as documented, and a serializer and parser that carry the three packets
  -- of an exchange, in frames of 1 to 256 bytes: when the two programs do their cycles in turn, and
  -- the transport of each takes every frame that it is given, sent or lost on the line, the line
  -- loses the first frames of the host, so many, and no other, and between two cycles of the host
  -- more time goes by than the timeout of the request, but less within one, then the loop of the
  -- host ends with the flag done. If the line loses no more than 3 frames, the program returns 0
  -- exactly if the joint is below 6, and the device has called its handler once, with this request;
  -- if it loses more, the program returns 1 and the device has called no handler.
  pub programs_exchange :
      (joint asked : ℕ) (limits request_frame ack_frame response_frame : List ℕ)
      → IsExchange R 1 joint limits request_frame ack_frame response_frame
      → (line : ℕ → Bool × Bool) (a b : ℕ → Times) (lost : ℕ) → IsPaced 200000 a
      → ((i : ℕ) → line i ≡ (leb lost i, true))
      → let (h, d) =
          main_loop P R 1000 0 line a b
            ((host_asks P R (host_stack P R) (joint ∷ limits) asked).1, device_stack P R) in
        ((host_flags P R h).done ≡ true)
        × (exit_code (host_flags P R h) ≡ (if leb lost 3 && ltb joint 6 then 0 else 1))
        × (d.calls
            ≡ (if leb lost 3 then handled 0 request_cmd 1 (request 1 joint limits) ∷ [] else []))
  unfolding init_stack set_send_frame register_handler
  programs_exchange joint asked limits request_frame ack_frame response_frame x line a b lost paced
        states =
      let ready = device-IsReady joint asked limits request_frame ack_frame response_frame x in
      let trying =
        host-IsTrying joint asked limits request_frame ack_frame response_frame x line a b paced in
      elim (dec_le lost 3) [
        | yes few ↦
            let e : leb lost 3 ≡ true = ground (arith, few) in
            let end =
              lost_then_served P L R 1 joint asked limits request_frame ack_frame response_frame x
                line a b paced (device_stack P R) ready lost 0 1000 lost
                (asking_host joint asked limits) trying (omega arith) few (omega arith) states in
            rw e (ap (λ f. f.done) end.0, ap exit_code end.0 ∙ exit_code_done (ltb joint 6), end.1)
        | no many ↦
            let e : leb lost 3 ≡ false = ground (arith, many) in
            let end =
              lost_for_good P L R 1 joint asked limits request_frame ack_frame response_frame x line
                a b paced (device_stack P R) ready 3 0 1000 lost (asking_host joint asked limits)
                trying (omega arith) (omega arith) (omega arith) states in
            rw e (ap (λ f. f.done) end.0, ap exit_code end.0, end.1)
      ]
