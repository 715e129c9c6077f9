-- ===== src/Example/Rounds.antt =====
-- The rounds of the programs of examples/ in which the request arrives: its answers come back, and the
-- loop of the host ends.
use florid_usb_protocols.Prelude.{
  ℕ, zero, suc, ◌+◌, ◌-◌, ◌≤◌, ◌≡◌, refl, ap, ◌∙◌, Bool, true, some, List, [], ◌∷◌, ◌++◌, arith,
  ltb, length,
}
use florid_usb_protocols.Platform.{Platform, IsPlatform}
use florid_usb_protocols.Rpl.{Rpl}
use florid_usb_protocols.Stack.{Stack, called_back, isr_feed}
use florid_usb_protocols.Stack.Receive.{IsHolding, write-IsHolding, read-IsHolding, emptied}
use florid_usb_protocols.Session.{on_ack}
use florid_usb_protocols.Session.Entry.{response as response_of}
use florid_usb_protocols.Example.{types, request}
use florid_usb_protocols.Example.Device.{response}
use florid_usb_protocols.Example.Host.{host, host_flags, host_callbacks, events, no_flags}
use florid_usb_protocols.Example.Told.{flags-response}
use florid_usb_protocols.Example.Loop.{
  Times, IsPaced, cycle, round, main_loop, main_loop_step, main_loop_done, not_done,
}
use florid_usb_protocols.Example.Serves.{IsExchange, IsListening}
use florid_usb_protocols.Example.Waiting.{IsWaiting, on_ack-IsWaiting}
use florid_usb_protocols.Example.Asking.{IsCalm, host_acked, answered, host_answered}
use florid_usb_protocols.Example.Answering.{
  IsServing, answering, answering-IsServing, device_answers, device_sends, device_waits,
}

module _ (P : Platform) (L : IsPlatform P) (R : Rpl) (tx joint asked : ℕ)
    (limits request_frame ack_frame response_frame : List ℕ)
    (x : IsExchange R tx joint limits request_frame ack_frame response_frame) where
  abbrev asking : List ℕ
  asking = request tx joint limits

  -- A device that can answer, and nothing on the way to it.
  pub record IsReady (d : Stack P R) : Type 0 where
    pub serving : IsServing P L R d
    pub listening : IsListening P R d tx
    pub empty : d.tx_queue ≡ []
    pub holds : IsHolding P L R d.rx_ring []

  -- A host whose cycle `t` sends the request, and leaves the stack `next`.
  pub record IsAsking (t : Times) (retries deadline : ℕ) (h next : Stack P R) : Type 0 where
    pub sends : cycle P R (host P R) t h ≡ (some request_frame, next)
    pub uncalled : h.calls ≡ []
    pub calm : IsCalm P R next
    pub waits : IsWaiting P L tx asking asked retries deadline next.session
    pub holds : IsHolding P L R next.rx_ring []

  module _ (line : ℕ → Bool × Bool) (a b : ℕ → Times) (paced : IsPaced 200000 a)
      (k retries deadline : ℕ) (h next d : Stack P R)
      (asks : IsAsking (a k) retries deadline h next) (ready : IsReady d) where
    abbrev pub h1 : Stack P R
    h1 = isr_feed P R next ack_frame

    abbrev pub d1 : Stack P R
    d1 =
        answering P L R tx joint limits request_frame ack_frame response_frame x
          (isr_feed P R d request_frame)

    h1-IsHolding : IsHolding P L R h1.rx_ring ack_frame
    unfolding isr_feed
    h1-IsHolding = write-IsHolding P L R next.rx_ring ack_frame asks.holds x.acked.fits

    d0-IsHolding : IsHolding P L R (isr_feed P R d request_frame).rx_ring request_frame
    unfolding isr_feed
    d0-IsHolding = write-IsHolding P L R d.rx_ring request_frame ready.holds x.asked.fits

    fed-IsServing : IsServing P L R (isr_feed P R d request_frame)
    unfolding isr_feed
    fed-IsServing = record {
      transport = ready.serving.transport;
      none_queued = ready.serving.none_queued;
      none_pending = ready.serving.none_pending;
    }

    round_0 : round P R (true, true) (a k) (b k) (h, d) ≡ (h1, d1)
    unfolding round isr_feed
    round_0 =
        rw
          (
            asks.sends,
            device_answers P L R tx joint limits request_frame ack_frame response_frame x (b k)
                (isr_feed P R d request_frame) fed-IsServing fed-IsListening ready.empty
                d0-IsHolding,
          )
          refl
      where
        fed-IsListening : IsListening P R (isr_feed P R d request_frame) tx
        fed-IsListening = record {
          idle = ready.listening.idle;
          handled = ready.listening.handled;
          new = ready.listening.new;
          room = ready.listening.room;
        }

    -- When the host reads the acknowledgement.
    abbrev at : ℕ
    at = (a (k + 1)).packets (length ack_frame - 1) 0

    abbrev pub h2 : Stack P R
    h2 =
        isr_feed P R
          (record (emptied P L R types (host P R) h1 ack_frame) {
            session = on_ack P h1.session tx at;
          })
          response_frame

    abbrev pub d2 : Stack P R
    d2 = record d1 { tx_queue = [] }

    h1-IsWaiting : IsWaiting P L tx asking asked retries deadline h1.session
    unfolding isr_feed
    h1-IsWaiting = asks.waits

    h1-IsCalm : IsCalm P R h1
    unfolding isr_feed
    h1-IsCalm = record {
      idle = asks.calm.idle;
      empty = asks.calm.empty;
      transport = asks.calm.transport;
      uncalled = asks.calm.uncalled;
    }

    d1-IsServing : IsServing P L R d1
    unfolding isr_feed
    d1-IsServing =
        answering-IsServing P L R tx joint limits request_frame ack_frame response_frame x
          (isr_feed P R d request_frame) fed-IsServing

    d1-IsHolding : IsHolding P L R d1.rx_ring []
    unfolding isr_feed
    d1-IsHolding =
        (read-IsHolding P L R (isr_feed P R d request_frame).rx_ring request_frame d0-IsHolding).1

    round_1 : round P R (true, true) (a (k + 1)) (b (k + 1)) (h1, d1) ≡ (h2, d2)
    unfolding round
    round_1 =
        rw
          (
            host_acked P L R tx joint asked limits request_frame ack_frame response_frame x
                (a (k + 1)) h1 retries deadline h1-IsCalm h1-IsWaiting h1-IsHolding
                (paced.packet (k + 1)),
            device_sends P L R (b (k + 1)) d1 response_frame [] d1-IsServing d1-IsHolding refl,
          )
          refl

    h2-IsCalm : IsCalm P R h2
    unfolding isr_feed
    h2-IsCalm = record {
      idle = h1-IsCalm.idle;
      empty = h1-IsCalm.empty;
      transport = h1-IsCalm.transport;
      uncalled = h1-IsCalm.uncalled;
    }

    h2-IsHolding : IsHolding P L R h2.rx_ring response_frame
    unfolding isr_feed
    h2-IsHolding =
        write-IsHolding P L R _ response_frame
          (read-IsHolding P L R h1.rx_ring ack_frame h1-IsHolding).1 x.answered.fits

    -- The host, when it has the response.
    abbrev pub h3 : Stack P R
    h3 = answered P L R tx joint asked limits request_frame ack_frame response_frame x h2

    round_2 : round P R (true, true) (a (k + 1 + 1)) (b (k + 1 + 1)) (h2, d2) ≡ (h3, d2)
    unfolding round isr_feed
    round_2 =
        rw
          (
            host_answered P L R tx joint asked limits request_frame ack_frame response_frame x
                (a (k + 1 + 1)) h2 retries (at + 200000) h2-IsCalm h2-IsWaiting h2-IsHolding,
            device_waits P L R (b (k + 1 + 1)) d2 d2-IsServing d1-IsHolding refl,
          )
          refl
      where
        h2-IsWaiting : IsWaiting P L tx asking asked retries (at + 200000) h2.session
        h2-IsWaiting =
            on_ack-IsWaiting P L tx asking asked h1.session retries deadline at h1-IsWaiting

        d2-IsServing : IsServing P L R d2
        d2-IsServing = record {
          transport = d1-IsServing.transport;
          none_queued = d1-IsServing.none_queued;
          none_pending = d1-IsServing.none_pending;
        }

    pub told : host_flags P R h3 ≡ record { done = true; success = ltb joint 6 }
    unfolding isr_feed
    told =
        ap
          (λ c.
            host_callbacks (events (c ++ (called_back (response_of 0 (response tx asking)) ∷ [])))
              no_flags)
          asks.calm.uncalled
        ∙ flags-response tx joint limits

    -- From the round in which the request arrives, the third ends the loop.
    pub rounds :
        (n : ℕ)
        → 3 ≤ n
        → ((i : ℕ) → k ≤ i → line i ≡ (true, true))
        → main_loop P R n k line a b (h, d) ≡ (h3, d2)
    unfolding isr_feed on_ack
    rounds zero more arrives = absurd (omega arith)
    rounds (suc zero) more arrives = absurd (omega arith)
    rounds (suc (suc zero)) more arrives = absurd (omega arith)
    rounds (suc (suc (suc n))) more arrives =
        main_loop_step P R (suc (suc n)) k line a b (h, d) (not_done P R h asks.uncalled)
        ∙ ap (λ l. main_loop P R (suc (suc n)) (k + 1) line a b (round P R l (a k) (b k) (h, d)))
            (arrives k (omega arith))
        ∙ ap (main_loop P R (suc (suc n)) (k + 1) line a b) round_0
        ∙ main_loop_step P R (suc n) (k + 1) line a b (h1, d1) (not_done P R h1 h1-IsCalm.uncalled)
        ∙ ap
            (λ l.
              main_loop P R (suc n) (k + 1 + 1) line a b
                (round P R l (a (k + 1)) (b (k + 1)) (h1, d1)))
            (arrives (k + 1) (omega arith))
        ∙ ap (main_loop P R (suc n) (k + 1 + 1) line a b) round_1
        ∙ main_loop_step P R n (k + 1 + 1) line a b (h2, d2) (not_done P R h2 h2-IsCalm.uncalled)
        ∙ ap
            (λ l.
              main_loop P R n (k + 1 + 1 + 1) line a b
                (round P R l (a (k + 1 + 1)) (b (k + 1 + 1)) (h2, d2)))
            (arrives (k + 1 + 1) (omega arith))
        ∙ ap (main_loop P R n (k + 1 + 1 + 1) line a b) round_2
        ∙ main_loop_done P R n (k + 1 + 1 + 1) line a b (h3, d2) (ap (λ f. f.done) told)
