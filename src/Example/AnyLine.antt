-- ===== src/Example/AnyLine.antt =====
-- The device of examples/receive_serial.cpp over a line that may lose any frame, and what is on the way
-- from it.
pub mod Pairs
pub mod Ending
use native.Mathlib.Decide.{dec_lt}
use florid_usb_protocols.Prelude.{
  ℕ, zero, suc, ◌+◌, ◌*◌, ◌-◌, ◌≤◌, ◌<◌, ◌≡◌, refl, sym, ap, subst, ◌∙◌, ◌⊎◌, inl, inr, Bool, true,
  false, Option, none, some, List, [], ◌∷◌, ◌++◌, arith, ltb, length, length-append, if◌then◌else◌,
}
use florid_usb_protocols.Platform.{Platform, IsPlatform}
use florid_usb_protocols.Rpl.{Rpl}
use florid_usb_protocols.Stack.{Stack, handled, called_back, isr_feed}
use florid_usb_protocols.Stack.Receive.{IsHolding, write-IsHolding, read-IsHolding}
use florid_usb_protocols.Example.{request_cmd, request}
use florid_usb_protocols.Example.Device.{device, response}
use florid_usb_protocols.Example.Host.{
  host, host_flags, host_callbacks, events, no_flags, exit_code,
}
use florid_usb_protocols.Example.Loop.{
  Times, IsPaced, cycle, received, round, main_loop, main_loop_step, main_loop_done, not_done,
}
use florid_usb_protocols.Example.Serves.{IsExchange, IsListening, IsRoomy}
use florid_usb_protocols.Example.Waiting.{IsWaiting, on_ack-IsWaiting}
use florid_usb_protocols.Example.Losing.{again, again-IsWaiting}
use florid_usb_protocols.Example.Retrying.{host_asks_again, failing, host_gives_up}
use florid_usb_protocols.Example.Lost.{failed_flags}
use florid_usb_protocols.Example.Told.{exit_code_done, flags-response}
use florid_usb_protocols.Session.Entry.{response as response_of}
use florid_usb_protocols.Example.Asking.{IsCalm, host_acked, answered, host_answered}
use florid_usb_protocols.Example.Answering.{IsServing, device_answers, device_waits}
use florid_usb_protocols.Example.Rounds.{IsReady}
use florid_usb_protocols.Example.Repeating.{
  IsMail, IsServed, IsSent, rests-IsSent, repeats-IsSent, answering-IsServed,
}

module _ (P : Platform) (L : IsPlatform P) (R : Rpl) (tx joint asked : ℕ)
    (limits request_frame ack_frame response_frame : List ℕ)
    (x : IsExchange R tx joint limits request_frame ack_frame response_frame) where
  abbrev asking : List ℕ
  asking = request tx joint limits

  -- What is on the way to the host.
  abbrev pub Mail : Option (List ℕ) → Type 0
  Mail none = Unit
  Mail (some f) = IsMail P L R tx joint limits request_frame ack_frame response_frame x f

  abbrev pub bytes_of : Option (List ℕ) → List ℕ
  bytes_of none = []
  bytes_of (some f) = f

  abbrev pub count : Option (List ℕ) → ℕ
  count none = 0
  count (some f) = 1

  -- A device that has not seen the request.
  pub record IsFresh (d : Stack P R) : Type 0 where
    pub ready : IsReady P L R tx joint asked limits request_frame ack_frame response_frame x d
    pub roomy : IsRoomy P R d tx
    pub uncalled : d.calls ≡ []

  abbrev pub Served : List (List ℕ) → Stack P R → Type 0
  Served fs d =
      IsServed P L R tx joint limits request_frame ack_frame response_frame x fs d
      × IsHolding P L R d.rx_ring []

  -- The device between two cycles, with these frames queued and this on the way to the host.
  abbrev pub Device : Option (List ℕ) → List (List ℕ) → Stack P R → Type 0
  Device mail fs d = (IsFresh d × (mail ≡ none) × (fs ≡ [])) ⊎ Served fs d

  pub small-Mail : (f : List ℕ) → Mail (some f) → (0 < length f) × (length f ≤ 256)
  small-Mail f (inl e) = (
    omega (arith, ap (λ (q : List ℕ). length q) e, x.acked.some_bytes),
    omega (arith, ap (λ (q : List ℕ). length q) e, x.acked.fits),
  )
  small-Mail f (inr e) = (
    omega (arith, ap (λ (q : List ℕ). length q) e, x.answered.some_bytes),
    omega (arith, ap (λ (q : List ℕ). length q) e, x.answered.fits),
  )

  -- A round of the device: what it sends, and what is left.
  pub record IsTurn (fs : List (List ℕ)) (gain : ℕ) (out : Option (List ℕ) × Stack P R)
      : Type 0 where
    pub rest : List (List ℕ)
    pub device : Device out.0 rest out.1
    pub mail : Mail out.0
    pub fewer : length rest + count out.0 ≤ length fs + gain
    pub shorter : length rest ≤ length fs + (gain - 1)

  sent-IsTurn :
      (fs gs : List (List ℕ)) (gain : ℕ) (out : Option (List ℕ) × Stack P R)
      → length gs ≤ length fs + gain
      → IsSent P L R tx joint limits request_frame ack_frame response_frame x gs out
      → IsTurn fs gain out
  sent-IsTurn fs gs gain out more s = elim s.frame [
    | inl e ↦ record {
      rest = s.rest;
      device = inr (s.left, s.holds);
      mail = subst Mail (sym e) tt;
      fewer = omega (arith, s.fewer, ap count e, more);
      shorter = omega (arith, s.fewer, more);
    }
    | inr (f, e, m, first) ↦ record {
      rest = s.rest;
      device = inr (s.left, s.holds);
      mail = subst Mail (sym e) m;
      fewer = omega (arith, s.fewer, ap count e, more, ap (λ (q : List (List ℕ)). length q) first);
      shorter = omega (arith, s.fewer, more);
    }
  ]

  -- The device, when no request has come in.
  pub rests-IsTurn :
      (t : Times) (mail : Option (List ℕ)) (fs : List (List ℕ)) (d : Stack P R)
      → Device mail fs d
      → IsTurn fs 0 (cycle P R (device P R) t d)
  rests-IsTurn t mail fs d (inl (fresh, e, none_queued)) =
      rw (device_waits P L R t d fresh.ready.serving fresh.ready.holds fresh.ready.empty) record {
        rest = [];
        device = inl (fresh, refl, refl);
        mail = tt;
        fewer = omega arith;
        shorter = omega arith;
      }
  rests-IsTurn t mail fs d (inr (v, holding)) =
      sent-IsTurn fs fs 0 _ (omega arith) (
        rests-IsSent P L R tx joint limits request_frame ack_frame response_frame x t d fs v
          holding)

  -- The device, when the request has come in.
  pub asked-IsTurn :
      (t : Times) (mail : Option (List ℕ)) (fs : List (List ℕ)) (d : Stack P R)
      → Device mail fs d
      → length fs ≤ 4
      → IsTurn fs 2 (cycle P R (device P R) t (isr_feed P R d request_frame))
  unfolding isr_feed
  asked-IsTurn t mail fs d (inl (fresh, e, none_queued)) few =
      let fed = isr_feed P R d request_frame in
      let ready = fresh.ready in
      let holding : IsHolding P L R fed.rx_ring request_frame =
        write-IsHolding P L R d.rx_ring request_frame ready.holds x.asked.fits in
      let serving : IsServing P L R fed = record {
        transport = ready.serving.transport;
        none_queued = ready.serving.none_queued;
        none_pending = ready.serving.none_pending;
      } in
      let listening : IsListening P R fed tx = record {
        idle = ready.listening.idle;
        handled = ready.listening.handled;
        new = ready.listening.new;
        room = ready.listening.room;
      } in
      let roomy : IsRoomy P R fed tx = record {
        queue = fresh.roomy.queue;
        ring = fresh.roomy.ring;
        cache = fresh.roomy.cache;
        capacity = fresh.roomy.capacity;
        absent = fresh.roomy.absent;
      } in
      rw
        (device_answers P L R tx joint limits request_frame ack_frame response_frame x t fed serving
          listening ready.empty holding)
        record {
          rest = response_frame ∷ [];
          device = inr (
            answering-IsServed P L R tx joint limits request_frame ack_frame response_frame x fed
                serving listening roomy fresh.uncalled,
            (read-IsHolding P L R fed.rx_ring request_frame holding).1,
          );
          mail = inl refl;
          fewer = omega arith;
          shorter = omega arith;
        }
  asked-IsTurn t mail fs d (inr (v, empty)) few =
      let fed = isr_feed P R d request_frame in
      let holding : IsHolding P L R fed.rx_ring request_frame =
        write-IsHolding P L R d.rx_ring request_frame empty x.asked.fits in
      sent-IsTurn fs (fs ++ (ack_frame ∷ response_frame ∷ [])) 2 _
        (omega (arith, length-append fs (ack_frame ∷ response_frame ∷ [])))
        (repeats-IsSent P L R tx joint limits request_frame ack_frame response_frame x t fed fs
          (record {
            serving = record {
              transport = v.serving.transport;
              none_queued = v.serving.none_queued;
              none_pending = v.serving.none_pending;
            };
            idle = v.idle;
            queue = v.queue;
            mail = v.mail;
            remembers = v.remembers;
            once = v.once;
          })
          holding (omega (arith, few)))
