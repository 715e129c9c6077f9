-- ===== src/Example/AnyLine/Ending.antt =====
-- The last round of the programs of examples/, and the rounds up to it.
use native.Mathlib.Decide.{dec_lt}
use florid_usb_protocols.Prelude.{
  ℕ, zero, suc, ◌+◌, ◌*◌, ◌-◌, ◌≤◌, ◌<◌, ◌≡◌, refl, sym, ap, subst, ◌∙◌, ◌⊎◌, inl, inr, Bool, true,
  false, Option, none, some, List, [], ◌∷◌, ◌++◌, arith, ltb, length, if◌then◌else◌,
}
use florid_usb_protocols.Platform.{Platform, IsPlatform}
use florid_usb_protocols.Rpl.{Rpl}
use florid_usb_protocols.Stack.{Stack, handled, called_back, isr_feed}
use florid_usb_protocols.Example.{request_cmd, request}
use florid_usb_protocols.Example.Device.{device, response}
use florid_usb_protocols.Example.Host.{host_flags, host_callbacks, events, no_flags, exit_code}
use florid_usb_protocols.Example.Loop.{
  Times, IsPaced, cycle, received, round, main_loop, main_loop_step, main_loop_done, not_done,
}
use florid_usb_protocols.Example.Serves.{IsExchange}
use florid_usb_protocols.Example.Losing.{again, again-IsWaiting}
use florid_usb_protocols.Example.Retrying.{host_asks_again, failing, host_gives_up}
use florid_usb_protocols.Example.Lost.{failed_flags}
use florid_usb_protocols.Example.Told.{exit_code_done, flags-response}
use florid_usb_protocols.Session.Entry.{response as response_of}
use florid_usb_protocols.Example.Asking.{answered, host_answered}
use florid_usb_protocols.Example.Repeating.{rests-IsSent}
use florid_usb_protocols.Example.AnyLine.{
  Mail as MailOf, Device as DeviceOf, IsTurn as IsTurnOf, count, rests-IsTurn,
}
use florid_usb_protocols.Example.AnyLine.Pairs.{
  IsHost as IsHostOf, IsPair as IsPairOf, sent_on, acked_on,
}

module _ (P : Platform) (L : IsPlatform P) (R : Rpl) (tx joint asked : ℕ)
    (limits request_frame ack_frame response_frame : List ℕ)
    (x : IsExchange R tx joint limits request_frame ack_frame response_frame) where
  abbrev asking : List ℕ
  asking = request tx joint limits

  abbrev Mail : Option (List ℕ) → Type 0
  Mail = MailOf P L R tx joint asked limits request_frame ack_frame response_frame x

  abbrev Device : Option (List ℕ) → List (List ℕ) → Stack P R → Type 0
  Device = DeviceOf P L R tx joint asked limits request_frame ack_frame response_frame x

  abbrev IsTurn : List (List ℕ) → ℕ → Option (List ℕ) × Stack P R → Type 0
  IsTurn = IsTurnOf P L R tx joint asked limits request_frame ack_frame response_frame x

  module _ (line : ℕ → Bool × Bool) (a b : ℕ → Times) (paced : IsPaced 200000 a) where
    abbrev IsHost : (i retries deadline : ℕ) → Option (List ℕ) → Stack P R → Type 0
    IsHost =
        IsHostOf P L R tx joint asked limits request_frame ack_frame response_frame x line a b paced

    abbrev IsPair : (i retries weight : ℕ) → Stack P R → Stack P R → Type 0
    IsPair =
        IsPairOf P L R tx joint asked limits request_frame ack_frame response_frame x line a b paced

    -- How the exchange can end.
    abbrev pub Outcome : Stack P R × Stack P R → Type 0
    Outcome y =
        ((host_flags P R y.0).done ≡ true)
        × (((y.1.calls ≡ []) × (exit_code (host_flags P R y.0) ≡ 1))
            ⊎ ((y.1.calls ≡ handled 0 request_cmd tx asking ∷ [])
                × ((exit_code (host_flags P R y.0) ≡ 1)
                    ⊎ (exit_code (host_flags P R y.0) ≡ (if ltb joint 6 then 0 else 1)))))

    received_flags :
        (l : Bool) (out : Option (List ℕ)) (h : Stack P R)
        → host_flags P R (received P R l out h) ≡ host_flags P R h
    unfolding isr_feed
    received_flags l none h = refl
    received_flags true (some f) h = refl
    received_flags false (some f) h = refl

    stops :
        (n i : ℕ) (y : Stack P R × Stack P R) → Outcome y → Outcome (main_loop P R n i line a b y)
    stops n i y o = subst Outcome (sym (main_loop_done P R n i line a b y o.0)) o

    -- The last round, when the host reads the response.
    answered_on :
        (i n retries deadline : ℕ) (fs : List (List ℕ)) (h d : Stack P R)
        → IsHost i retries deadline (some response_frame) h
        → Device (some response_frame) fs d
        → Outcome (main_loop P R n (i + 1) line a b (round P R (line i) (a i) (b i) (h, d)))
    unfolding round
    answered_on i n retries deadline fs h d v (inl (fresh, e, none_queued)) =
        absurd (let f : some response_frame ≡ none = e in cc)
    answered_on i n retries deadline fs h d v (inr (s, holding)) =
        let out =
          rests-IsSent P L R tx joint limits request_frame ack_frame response_frame x (b i) d fs s
            holding in
        let end = answered P L R tx joint asked limits request_frame ack_frame response_frame x h in
        let flags : host_flags P R end ≡ record { done = true; success = ltb joint 6 } =
          ap
            (λ c.
              host_callbacks (events (c ++ (called_back (response_of 0 (response tx asking)) ∷ [])))
                no_flags)
            v.calm.uncalled
          ∙ flags-response tx joint limits in
        let sent = cycle P R (device P R) (b i) d in
        let told = received_flags (line i).1 sent.0 end ∙ flags in
        rw
          (host_answered P L R tx joint asked limits request_frame ack_frame response_frame x (a i)
            h retries deadline v.calm v.waits v.holds)
          (stops n (i + 1) (received P R (line i).1 sent.0 end, sent.1)
            (
              ap (λ f. f.done) told,
              inr (out.left.once, inr (ap exit_code told ∙ exit_code_done (ltb joint 6))),
            ))

    -- The last round, when the host gives up.
    failed_on :
        (i n deadline : ℕ) (mail : Option (List ℕ)) (fs : List (List ℕ)) (h d : Stack P R)
        → IsHost i 3 deadline none h
        → Device mail fs d
        → Outcome (main_loop P R n (i + 1) line a b (round P R (line i) (a i) (b i) (h, d)))
    unfolding round
    failed_on i n deadline mail fs h d v dev =
        let end =
          failing P L R tx joint asked limits request_frame ack_frame response_frame x deadline h in
        let turn =
          rests-IsTurn P L R tx joint asked limits request_frame ack_frame response_frame x (b i)
            mail fs d dev in
        let sent = cycle P R (device P R) (b i) d in
        let told = received_flags (line i).1 sent.0 end ∙ failed_flags h.calls v.calm.uncalled in
        rw
          (host_gives_up P L R tx joint asked limits request_frame ack_frame response_frame x (a i)
            h deadline v.calm v.waits v.holds v.late)
          (stops n (i + 1) (received P R (line i).1 sent.0 end, sent.1)
            (
              ap (λ f. f.done) told,
              elim turn.device [
                | inl (fresh, e, none_queued) ↦ inl (fresh.uncalled, ap exit_code told)
                | inr (s, holding) ↦ inr (s.once, inl (ap exit_code told))
              ],
            ))

    -- A round, and the rounds after it.
    turn :
        (n i retries weight deadline : ℕ) (mail : Option (List ℕ)) (fs : List (List ℕ))
        (h d : Stack P R)
        → IsHost i retries deadline mail h
        → Device mail fs d
        → retries ≤ 3
        → length fs ≤ retries + 1
        → 3 * (3 - retries)
            + length fs
            + count P L R tx joint asked limits request_frame ack_frame response_frame x mail
          ≤ weight
        → weight < suc n
        → ((r w : ℕ) (k e : Stack P R)
            → IsPair (i + 1) r w k e
            → w < n
            → Outcome (main_loop P R n (i + 1) line a b (k, e)))
        → Outcome (main_loop P R n (i + 1) line a b (round P R (line i) (a i) (b i) (h, d)))
    turn n i retries weight deadline none fs h d v dev few short weighs room later =
        elim (dec_lt retries 3) [
          | yes less ↦
              let at = (a i).retries tx in
              let next = record h {
                session = again P L tx asking asked retries deadline at h.session;
                tx_queue = [];
              } in
              let w : IsHost (i + 1) (retries + 1) (at + 200000) none next = record {
                calm = record {
                  idle = v.calm.idle;
                  empty = refl;
                  transport = v.calm.transport;
                  uncalled = v.calm.uncalled;
                };
                waits =
                    again-IsWaiting P L tx asking asked retries deadline at h.session v.waits less;
                late = paced.retry_late i tx;
                mailed = tt;
                holds = v.holds;
              } in
              later (retries + 1) (3 * (3 - (retries + 1)) + length fs + 2) _ _
                (sent_on P L R tx joint asked limits request_frame ack_frame response_frame x line a
                  b paced i (retries + 1) (at + 200000) none fs h next d
                  (host_asks_again P L R tx joint asked limits request_frame ack_frame
                    response_frame x (a i) h retries deadline v.calm v.waits v.holds less v.late)
                  w dev (omega arith) (omega (arith, short)))
                (omega (arith, weighs, room))
          | no more ↦
              let last : retries ≡ 3 = omega (arith, few) in
              failed_on i n deadline none fs h d (subst (λ r. IsHost i r deadline none h) last v)
                dev
        ]
    turn n i retries weight deadline (some f) fs h d v dev few short weighs room later =
        elim v.mailed [
          | inl e ↦
              later retries (3 * (3 - retries) + length fs + 0) _ _
                (acked_on P L R tx joint asked limits request_frame ack_frame response_frame x line
                  a b paced i retries deadline fs h d
                  (subst (λ g. IsHost i retries deadline (some g) h) e v)
                  (subst (λ g. Device (some g) fs d) e dev) few short)
                (omega (arith, weighs, room))
          | inr e ↦
              answered_on i n retries deadline fs h d
                (subst (λ g. IsHost i retries deadline (some g) h) e v)
                (subst (λ g. Device (some g) fs d) e dev)
        ]

    -- However the line loses frames, the loop ends.
    pub ends :
        (n i retries weight : ℕ) (h d : Stack P R)
        → IsPair i retries weight h d
        → weight < n
        → Outcome (main_loop P R n i line a b (h, d))
    ends zero i retries weight h d p room = absurd (omega arith)
    ends (suc n) i retries weight h d p room =
        rw (main_loop_step P R n i line a b (h, d) (not_done P R h p.host.calm.uncalled)) (
          turn n i retries weight p.deadline p.mail p.fs h d p.host p.device p.few p.short p.weighs
            room (λ r w k e. ends n (i + 1) r w k e))
