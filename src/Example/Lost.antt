-- ===== src/Example/Lost.antt =====
-- The rounds of the programs of examples/ in which the line loses the request.
use florid_usb_protocols.Prelude.{
  ℕ, zero, suc, ◌+◌, ◌≤◌, ◌<◌, ◌≡◌, refl, ap, ◌∙◌, subst, Bool, true, false, List, [], ◌∷◌, ◌++◌,
  arith, ltb, leb,
}
use florid_usb_protocols.Platform.{Platform, IsPlatform}
use florid_usb_protocols.Rpl.{Rpl}
use florid_usb_protocols.Stack.{Stack, Call, isr_feed, handled, called_back}
use florid_usb_protocols.Example.{request_cmd, request}
use florid_usb_protocols.Example.Host.{host_flags, host_callbacks, events, no_flags}
use florid_usb_protocols.Session.Entry.{error, timed_out}
use florid_usb_protocols.Example.Loop.{
  Times, IsPaced, round, main_loop, main_loop_step, main_loop_done, not_done,
}
use florid_usb_protocols.Example.Serves.{IsExchange}
use florid_usb_protocols.Example.Waiting.{IsWaiting}
use florid_usb_protocols.Example.Losing.{again, again-IsWaiting}
use florid_usb_protocols.Example.Retrying.{host_asks_again, failing, host_gives_up}
use florid_usb_protocols.Example.Answering.{device_waits}
use florid_usb_protocols.Example.Rounds.{IsReady, IsAsking, rounds, told}

-- The flags of the host, when its callback has a timeout.
pub failed_flags :
    (calls : List Call)
    → calls ≡ []
    → host_callbacks (events (calls ++ (called_back (error 1 timed_out) ∷ []))) no_flags
      ≡ record { done = true; success = false }
failed_flags calls none_yet =
    ap (λ c. host_callbacks (events (c ++ (called_back (error 1 timed_out) ∷ []))) no_flags)
      none_yet

module _ (P : Platform) (L : IsPlatform P) (R : Rpl) (tx joint asked : ℕ)
    (limits request_frame ack_frame response_frame : List ℕ)
    (x : IsExchange R tx joint limits request_frame ack_frame response_frame) where
  abbrev asking : List ℕ
  asking = request tx joint limits

  module _ (line : ℕ → Bool × Bool) (a b : ℕ → Times) (paced : IsPaced 200000 a) (d : Stack P R)
      (ready : IsReady P L R tx joint asked limits request_frame ack_frame response_frame x d) where
    -- The host asks in round `k`, for the time `k + 1`; it is due again in the next round.
    pub record IsTrying (k : ℕ) (h : Stack P R) : Type 0 where
      pub next : Stack P R
      pub deadline : ℕ
      pub asks :
          IsAsking P L R tx joint asked limits request_frame ack_frame response_frame x
            (a k)
            k
            deadline
            h
            next
      pub late : deadline ≤ (a (k + 1)).now

    tries_again : (k : ℕ) (h : Stack P R) (q : IsTrying k h) → k < 3 → IsTrying (k + 1) q.next
    tries_again k h q few =
        let s = again P L tx asking asked k q.deadline ((a (k + 1)).retries tx) q.next.session in
        record {
          next = record q.next { session = s; tx_queue = [] };
          deadline = (a (k + 1)).retries tx + 200000;
          asks = record {
            sends =
                host_asks_again P L R tx joint asked limits request_frame ack_frame response_frame x
                  (a (k + 1)) q.next k q.deadline q.asks.calm q.asks.waits q.asks.holds few q.late;
            uncalled = q.asks.calm.uncalled;
            calm = record {
              idle = q.asks.calm.idle;
              empty = refl;
              transport = q.asks.calm.transport;
              uncalled = q.asks.calm.uncalled;
            };
            waits =
                again-IsWaiting P L tx asking asked k q.deadline ((a (k + 1)).retries tx)
                  q.next.session q.asks.waits few;
            holds = q.asks.holds;
          };
          late = paced.retry_late (k + 1) tx;
        }

    -- A round in which the request is lost.
    round_lost :
        (k n : ℕ) (h : Stack P R) (q : IsTrying k h)
        → line k ≡ (false, true)
        → main_loop P R (suc n) k line a b (h, d) ≡ main_loop P R n (k + 1) line a b (q.next, d)
    unfolding round
    round_lost k n h q lost =
        main_loop_step P R n k line a b (h, d) (not_done P R h q.asks.uncalled)
        ∙ ap (main_loop P R n (k + 1) line a b) (
            rw
              (lost, q.asks.sends, device_waits P L R (b k) d ready.serving ready.holds ready.empty)
              refl)

    -- The round in which the host gives up.
    round_failing :
        (k n : ℕ) (h : Stack P R) (q : IsTrying k h)
        → k ≡ 3
        → main_loop P R (suc n) (k + 1) line a b (q.next, d) ≡ (
          failing P L R tx joint asked limits request_frame ack_frame response_frame x q.deadline
              q.next,
          d,
        )
    unfolding round
    round_failing k n h q last =
        let waits =
          subst (λ r. IsWaiting P L tx asking asked r q.deadline q.next.session) last
            q.asks.waits in
        let end =
          failing P L R tx joint asked limits request_frame ack_frame response_frame x q.deadline
            q.next in
        let flags = failed_flags q.next.calls q.asks.calm.uncalled in
        main_loop_step P R n (k + 1) line a b (q.next, d) (not_done P R q.next q.asks.calm.uncalled)
        ∙ ap (main_loop P R n (k + 1 + 1) line a b) (
            rw
              (
                host_gives_up P L R tx joint asked limits request_frame ack_frame response_frame x
                    (a (k + 1)) q.next q.deadline q.asks.calm waits q.asks.holds q.late,
                device_waits P L R (b (k + 1)) d ready.serving ready.holds ready.empty,
              )
              refl)
        ∙ main_loop_done P R n (k + 1 + 1) line a b (end, d) (ap (λ f. f.done) flags)

    -- What becomes of the exchange: the flags of the host, and the calls of the device.
    abbrev pub Outcome : (success : Bool) → List Call → Stack P R × Stack P R → Type 0
    Outcome success calls y =
        (host_flags P R y.0 ≡ record { done = true; success = success }) × (y.1.calls ≡ calls)

    pub lost_then_served :
        (m k n lost : ℕ) (h : Stack P R)
        → IsTrying k h
        → k + m ≡ lost
        → lost ≤ 3
        → m + 3 ≤ n
        → ((i : ℕ) → line i ≡ (leb lost i, true))
        → Outcome
            (ltb joint 6)
            (d.calls ++ (handled 0 request_cmd tx asking ∷ []))
            (main_loop P R n k line a b (h, d))
    unfolding isr_feed
    lost_then_served zero k n lost h q same few more states =
        let arrives : (i : ℕ) → k ≤ i → line i ≡ (true, true) = λ i g.
          let e : leb lost i ≡ true = ground (arith, g, same) in
          states i ∙ ap (λ (c : Bool). (c, true)) e in
        rw
          (rounds P L R tx joint asked limits request_frame ack_frame response_frame x line a b
            paced k k q.deadline h q.next d q.asks ready n (omega (arith, more)) arrives)
          (
            told P L R tx joint asked limits request_frame ack_frame response_frame x line a b paced
                k k q.deadline h q.next d q.asks ready,
            refl,
          )
    lost_then_served (suc m) k zero lost h q same few more states = absurd (omega arith)
    lost_then_served (suc m) k (suc n) lost h q same few more states =
        let e : leb lost k ≡ false = ground (arith, same) in
        rw (round_lost k n h q (states k ∙ ap (λ (c : Bool). (c, true)) e)) (
          lost_then_served m (k + 1) n lost q.next (tries_again k h q (omega arith)) (omega arith)
            few (omega arith) states)

    pub lost_for_good :
        (m k n lost : ℕ) (h : Stack P R)
        → IsTrying k h
        → k + m ≡ 3
        → 3 < lost
        → m + 2 ≤ n
        → ((i : ℕ) → line i ≡ (leb lost i, true))
        → Outcome false d.calls (main_loop P R n k line a b (h, d))
    lost_for_good zero k zero lost h q same many more states = absurd (omega arith)
    lost_for_good zero k (suc zero) lost h q same many more states = absurd (omega arith)
    lost_for_good zero k (suc (suc n)) lost h q same many more states =
        let e : leb lost k ≡ false = ground (arith, same, many) in
        rw
          (round_lost k (suc n) h q (states k ∙ ap (λ (c : Bool). (c, true)) e)
            ∙ round_failing k n h q (omega (arith, same)))
          (failed_flags q.next.calls q.asks.calm.uncalled, refl)
    lost_for_good (suc m) k zero lost h q same many more states = absurd (omega arith)
    lost_for_good (suc m) k (suc n) lost h q same many more states =
        let e : leb lost k ≡ false = ground (arith, same, many) in
        rw (round_lost k n h q (states k ∙ ap (λ (c : Bool). (c, true)) e)) (
          lost_for_good m (k + 1) n lost q.next (tries_again k h q (omega arith)) (omega arith) many
            (omega arith) states)
