-- ===== src/Example/Ends.antt =====
-- How the programs of examples/ can end, whatever the line loses.
use florid_usb_protocols.Prelude.{
  ℕ, ◌≡◌, refl, sym, ◌∙◌, ◌⊎◌, inl, Bool, true, none, some, List, [], ◌∷◌, arith, ltb,
  if◌then◌else◌,
}
use florid_usb_protocols.Prelude.Eq.{nat_regular}
use florid_usb_protocols.Platform.{Platform, IsPlatform}
use florid_usb_protocols.Rpl.{Rpl}
use florid_usb_protocols.IdRing.{contains, seen_id_ring_bits}
use florid_usb_protocols.IdRing.Window.{cleared_lem}
use florid_usb_protocols.Session.{init}
use florid_usb_protocols.Session.Entry.{CompletedResponse}
use florid_usb_protocols.Stack.{handled, init_stack, set_send_frame, register_handler}
use florid_usb_protocols.Example.{request_cmd, request}
use florid_usb_protocols.Example.Device.{device_stack}
use florid_usb_protocols.Example.Host.{exit_code, host_flags, host_stack, host_asks}
use florid_usb_protocols.Example.Loop.{Times, IsPaced, main_loop, main_loop_step, not_done}
use florid_usb_protocols.Example.Serves.{IsExchange, IsRoomy}
use florid_usb_protocols.Example.Programs.{device-IsReady, host-IsTrying, asking_host}
use florid_usb_protocols.Example.AnyLine.{IsFresh}
use florid_usb_protocols.Example.AnyLine.Pairs.{IsHost, sent_on}
use florid_usb_protocols.Example.AnyLine.Ending.{ends}

module _ (P : Platform) (L : IsPlatform P) (R : Rpl) where
  device-IsRoomy : IsRoomy P R (device_stack P R) 1
  unfolding init_stack init register_handler set_send_frame contains
  device-IsRoomy = record {
    queue = omega arith;
    ring = (cleared_lem seen_id_ring_bits).0;
    cache = record {
      bounded = omega arith;
      ordered = λ k c h.
          absurd (let e : none ≡ some c = sym (L.find-empty CompletedResponse k) ∙ h in cc);
    };
    capacity = omega arith;
    absent = refl;
  }

  -- With a map that behaves as documented, and a serializer and parser that carry the three packets
  -- of an exchange, in frames of 1 to 256 bytes: when the two programs do their cycles in turn, and
  -- the transport of each takes every frame that it is given, sent or lost on the line, and between
  -- two cycles of the host more time goes by than the timeout of the request, but less within one,
  -- then, whichever frames the line loses in either direction, the loop of the host ends with the
  -- flag done, and the device has called its handler at most once, with this request. If it has
  -- called none, the program returns 1; if it has, the program returns 1, or what it returns for
  -- the response: 0 if the joint is below 6, and 1 if not.
  pub programs_end :
      (joint asked : ℕ) (limits request_frame ack_frame response_frame : List ℕ)
      → IsExchange R 1 joint limits request_frame ack_frame response_frame
      → (line : ℕ → Bool × Bool) (a b : ℕ → Times) → IsPaced 200000 a
      → let (h, d) =
          main_loop P R 1000 0 line a b
            ((host_asks P R (host_stack P R) (joint ∷ limits) asked).1, device_stack P R) in
        ((host_flags P R h).done ≡ true)
        × (((d.calls ≡ []) × (exit_code (host_flags P R h) ≡ 1))
            ⊎ ((d.calls ≡ handled 0 request_cmd 1 (request 1 joint limits) ∷ [])
                × ((exit_code (host_flags P R h) ≡ 1)
                    ⊎ (exit_code (host_flags P R h) ≡ (if ltb joint 6 then 0 else 1)))))
  unfolding init_stack register_handler set_send_frame
  programs_end joint asked limits request_frame ack_frame response_frame x line a b paced =
      let ready =
        device-IsReady P L R joint asked limits request_frame ack_frame response_frame x in
      let q =
        host-IsTrying P L R joint asked limits request_frame ack_frame response_frame x line a b
          paced in
      let d = device_stack P R in
      let fresh : IsFresh P L R 1 joint asked limits request_frame ack_frame response_frame x d =
        record { ready = ready; roomy = device-IsRoomy; uncalled = refl } in
      let v : IsHost P L R 1 joint asked limits request_frame ack_frame response_frame x line a b
          paced 1 0 q.deadline none q.next =
        record {
          calm = q.asks.calm;
          waits = q.asks.waits;
          late = q.late;
          mailed = tt;
          holds = q.asks.holds;
        } in
      rw
        (main_loop_step P R 999 0 line a b (asking_host P L R joint asked limits, d)
          (not_done P R (asking_host P L R joint asked limits) q.asks.uncalled))
        (ends P L R 1 joint asked limits request_frame ack_frame response_frame x line a b paced 999
          1 0 11 _ _
          (sent_on P L R 1 joint asked limits request_frame ack_frame response_frame x line a b
            paced 0 0 q.deadline none [] (asking_host P L R joint asked limits) q.next d
            q.asks.sends v (inl (fresh, refl, refl)) (omega arith) (omega arith))
          (omega arith))
