-- ===== src/Example/Loop.antt =====
-- The loops of the programs of examples/, one cycle of each in turn, over a line that
-- may lose frames.
use florid_usb_protocols.Prelude.{
  ℕ, zero, suc, ◌+◌, ◌≤◌, ◌<◌, ◌≡◌, refl, ap, Bool, true, false, Option, none, some, List, [],
  if◌then◌else◌,
}
use florid_usb_protocols.Platform.{Platform}
use florid_usb_protocols.Rpl.{Rpl}
use florid_usb_protocols.Stack.{Stack, App, isr_feed}
use florid_usb_protocols.Stack.Cycle.{run_one_cycle}
use florid_usb_protocols.Example.{types}
use florid_usb_protocols.Example.Host.{host, host_flags, host_callbacks, events, no_flags}
use florid_usb_protocols.Example.Device.{device}

-- The readings of the clock in one cycle, as `run_one_cycle` takes them.
pub record Times : Type 0 where
  pub packets : ℕ → ℕ → ℕ
  pub outbound : ℕ → ℕ
  pub now : ℕ
  pub retries : ℕ → ℕ

-- The polls of a cycle come sooner than a timeout after its other readings, and later than that
-- after those of the cycle before.
pub record IsPaced (timeout : ℕ) (a : ℕ → Times) : Type 0 where
  pub packet : (k i j : ℕ) → (a k).now < (a k).packets i j + timeout
  pub request : (k i : ℕ) → (a k).now < (a k).outbound i + timeout
  pub packet_late : (k i j : ℕ) → (a k).packets i j + timeout ≤ (a (k + 1)).now
  pub request_late : (k i : ℕ) → (a k).outbound i + timeout ≤ (a (k + 1)).now
  pub retry_late : (k i : ℕ) → (a k).retries i + timeout ≤ (a (k + 1)).now

module _ (P : Platform) (R : Rpl) where
  -- A cycle whose transport takes the frame that it is given.
  abbrev pub cycle : App P R → Times → Stack P R → Option (List ℕ) × Stack P R
  cycle app t s = run_one_cycle P R types app t.packets t.outbound t.now t.retries true s

  -- The `on_data` of the other side, if the frame arrives.
  abbrev pub received : Bool → Option (List ℕ) → Stack P R → Stack P R
  received arrives none s = s
  received arrives (some frame) s = if arrives then isr_feed P R s frame else s

  -- A cycle of the host and one of the device, each of which gets what the other has sent; `line`
  -- says whether the frame of the host arrives, and that of the device.
  unfoldable pub round :
      (line : Bool × Bool) (host_times device_times : Times)
      → Stack P R × Stack P R
      → Stack P R × Stack P R
  round line a b (h, d) =
      let (asked, h') = cycle (host P R) a h in
      let (answered, d') = cycle (device P R) b (received line.0 asked d) in
      (received line.1 answered h', d')

  -- The loop of the host, while the device goes on with its own; the line and the clocks are those
  -- of round `i`.
  unfoldable pub main_loop :
      (rounds i : ℕ)
      → (ℕ → Bool × Bool)
      → (host_clock device_clock : ℕ → Times) → Stack P R × Stack P R
      → Stack P R × Stack P R
  unfolding round
  main_loop zero i line a b x = x
  main_loop (suc n) i line a b x =
      let rest = main_loop n (i + 1) line a b (round (line i) (a i) (b i) x) in
      if (host_flags P R x.0).done then x else rest

  pub main_loop_step :
      (n i : ℕ) (line : ℕ → Bool × Bool) (a b : ℕ → Times) (x : Stack P R × Stack P R)
      → (host_flags P R x.0).done ≡ false
      → main_loop (suc n) i line a b x ≡ main_loop n (i + 1) line a b (round (line i) (a i) (b i) x)
  unfolding main_loop
  main_loop_step n i line a b x more = rw more refl

  pub main_loop_done :
      (n i : ℕ) (line : ℕ → Bool × Bool) (a b : ℕ → Times) (x : Stack P R × Stack P R)
      → (host_flags P R x.0).done ≡ true
      → main_loop n i line a b x ≡ x
  unfolding main_loop
  main_loop_done zero i line a b x end = refl
  main_loop_done (suc n) i line a b x end = rw end refl

  -- No callback has been called, so the flags are as at the start.
  pub not_done : (h : Stack P R) → h.calls ≡ [] → (host_flags P R h).done ≡ false
  not_done h uncalled = ap (λ c. (host_callbacks (events c) no_flags).done) uncalled
