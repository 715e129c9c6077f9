-- ===== src/Stack/Receive.antt =====
-- `drain_rx` of include/ProtocolStack.hpp with one frame in the receive ring, or nothing.
use florid_usb_protocols.Prelude.{
  ℕ, zero, suc, ◌+◌, ◌-◌, ◌≤◌, ◌<◌, ◌≡◌, refl, sym, ap, ◌∙◌, subst, Bool, true, false, none, some,
  List, [], ◌∷◌, arith, length, replicate, ltb, ◌==◌, if◌then◌else◌, take_all, drop_all,
}
use florid_usb_protocols.Platform.{Platform, IsPlatform}
use florid_usb_protocols.Rpl.{Rpl}
use florid_usb_protocols.IsrRing.{IsrRing, cleared, available, read, write}
use florid_usb_protocols.IsrRing.Window.{window}
use florid_usb_protocols.IsrRing.Queue.{IsValid, put, get, contents, length-contents}
use florid_usb_protocols.IsrRing.Refine.{
  read_refines, read-IsValid, write_refines, write-IsValid, cleared-IsValid, empty_sub,
}
use florid_usb_protocols.Packet.{PacketTraits}
use florid_usb_protocols.TxQueue.{TxEntry, tx_entry}
use florid_usb_protocols.Stack.{Stack, App, rx_ring_bits, drain_tx}
use florid_usb_protocols.Stack.Cycle.{drain_loop, drain_rx, push_data, run_one_cycle}
use florid_usb_protocols.Stack.Quiet.{IsNoneDue, frame_whole, outbound_quiet, retries_quiet}
use florid_usb_protocols.Stack.Invariant.{narrow}

module _ (P : Platform) (L : IsPlatform P) (R : Rpl) where
  -- A valid receive ring that holds these bytes.
  pub record IsHolding (r : IsrRing) (bytes : List ℕ) : Type 0 where
    pub valid : IsValid P.size_bits rx_ring_bits r
    pub holds : contents P.size_bits rx_ring_bits r ≡ bytes

  pub cleared-IsHolding : IsHolding (cleared P.size_bits rx_ring_bits) []
  unfolding cleared contents
  cleared-IsHolding = record {
    valid = cleared-IsValid P.size_bits rx_ring_bits (narrow P L R);
    holds = ap (window 4096 (replicate 4096 0) 0) (empty_sub P.size_bits);
  }

  pub write-IsHolding :
      (r : IsrRing) (bytes : List ℕ)
      → IsHolding r []
      → length bytes ≤ 256
      → IsHolding (write P.size_bits rx_ring_bits r bytes).1 bytes
  unfolding put
  write-IsHolding r bytes h small =
      let fits : ltb 4096 (0 + length bytes) ≡ false = ground (arith, small) in
      record {
        valid = write-IsValid P.size_bits rx_ring_bits (narrow P L R) r bytes h.valid;
        holds =
            ap (λ q. q.1) (write_refines P.size_bits rx_ring_bits (narrow P L R) r bytes h.valid)
            ∙ ap (λ c. (put 4096 c bytes).1) h.holds
            ∙ rw (put, fits) refl;
      }

  available-IsHolding :
      (r : IsrRing) (bytes : List ℕ)
      → IsHolding r bytes
      → available P.size_bits rx_ring_bits r ≡ length bytes
  available-IsHolding r bytes h =
      sym (length-contents P.size_bits rx_ring_bits (narrow P L R) r) ∙ ap length h.holds

  pub read-IsHolding :
      (r : IsrRing) (bytes : List ℕ)
      → IsHolding r bytes
      → ((read P.size_bits rx_ring_bits r (length bytes)).0 ≡ bytes)
        × IsHolding (read P.size_bits rx_ring_bits r (length bytes)).1 []
  unfolding get
  read-IsHolding r bytes h =
      let refined = read_refines P.size_bits rx_ring_bits (narrow P L R) r (length bytes) h.valid in
      (
        ap (λ q. q.0) refined
            ∙ ap (λ c. (get c (length bytes)).0) h.holds
            ∙ take_all (length bytes) bytes (omega arith),
        record {
          valid = read-IsValid P.size_bits rx_ring_bits (narrow P L R) r (length bytes) h.valid;
          holds =
              ap (λ q. q.1) refined
              ∙ ap (λ c. (get c (length bytes)).1) h.holds
              ∙ drop_all (length bytes) bytes (omega arith);
        },
      )

  module _ (types : List PacketTraits) (app : App P R) where
    drain_loop_quiet :
        (n : ℕ) (clock : ℕ → ℕ → ℕ) (s : Stack P R)
        → IsHolding s.rx_ring []
        → drain_loop P R types app n clock s ≡ s
    unfolding drain_loop
    drain_loop_quiet zero clock s h = refl
    drain_loop_quiet (suc n) clock s h = rw (drain_loop, available-IsHolding s.rx_ring [] h) refl

    pub drain_rx_quiet :
        (clock : ℕ → ℕ → ℕ) (s : Stack P R)
        → IsHolding s.rx_ring []
        → drain_rx P R types app clock s ≡ s
    unfolding drain_rx
    drain_rx_quiet clock s h = drain_loop_quiet _ clock s h

    -- The receive ring, when `drain_rx` has read these bytes.
    abbrev pub emptied : Stack P R → List ℕ → Stack P R
    emptied s bytes = record s {
      rx_ring = (read P.size_bits rx_ring_bits s.rx_ring (length bytes)).1;
    }

    -- `drain_rx` hands a single frame to the parser whole.
    pub drain_rx_frame :
        (clock : ℕ → ℕ → ℕ) (s t : Stack P R) (bytes : List ℕ)
        → IsHolding s.rx_ring bytes
        → 0 < length bytes
        → length bytes ≤ 256
        → push_data P R types app (clock (length bytes - 1)) bytes (emptied s bytes) ≡ t
        → t.rx_ring ≡ (emptied s bytes).rx_ring
        → drain_rx P R types app clock s ≡ t
    unfolding drain_rx drain_loop
    drain_rx_frame clock s t bytes h some_bytes small done same = go (length bytes) refl
      where
        go : (n : ℕ) → length bytes ≡ n → drain_rx P R types app clock s ≡ t
        go zero e = absurd (omega arith)
        go (suc n) e =
            let avail = available-IsHolding s.rx_ring bytes h in
            let r = read-IsHolding s.rx_ring bytes h in
            let all : (if ltb (length bytes) 256 then length bytes else 256) ≡ length bytes =
              ground (arith, small) in
            let more : (length bytes == 0) ≡ false = ground (arith, some_bytes) in
            let last : n ≡ length bytes - 1 = omega (arith, e) in
            let left : IsHolding t.rx_ring [] = subst (λ q. IsHolding q []) (sym same) r.1 in
            let cycle : ℕ → Stack P R = λ m.
              drain_loop P R types app n clock
                (push_data P R types app (clock m) bytes (emptied s bytes)) in
            ap (λ m. drain_loop P R types app m clock s) (avail ∙ e)
            ∙ rw (drain_loop, avail, all, more, r.0, more)
                (ap cycle last
                  ∙ ap (drain_loop P R types app n clock) done
                  ∙ drain_loop_quiet n clock t left)

    -- A cycle that has nothing to send or to send again passes on what is queued.
    pub cycle_quiet :
        (packets : ℕ → ℕ → ℕ) (outbound : ℕ → ℕ) (now : ℕ) (retries : ℕ → ℕ) (s t : Stack P R)
        → drain_rx P R types app packets s ≡ t
        → t.session.outbound_queue ≡ []
        → IsNoneDue P L now t.session
        → run_one_cycle P R types app packets outbound now retries true s ≡ drain_tx P R t true
    unfolding run_one_cycle
    cycle_quiet packets outbound now retries s t drained none_queued none_due =
        rw
          (
            run_one_cycle,
            drained,
            outbound_quiet P L R types app outbound t none_queued,
            retries_quiet P L R types app now retries t none_due,
          )
          refl

  pub drain_tx-none :
      (s : Stack P R) (fn : ℕ)
      → s.send_frame ≡ some fn
      → s.tx_queue ≡ []
      → drain_tx P R s true ≡ (none, s)
  unfolding drain_tx
  drain_tx-none s fn transport empty = simp (transport, empty, drain_tx)

  pub drain_tx_first :
      (s : Stack P R) (fn : ℕ) (frame : List ℕ) (b : Bool) (rest : List TxEntry)
      → s.send_frame ≡ some fn
      → s.tx_queue ≡ tx_entry frame b ∷ rest
      → drain_tx P R s true ≡ (some frame, record s { tx_queue = rest })
  unfolding drain_tx
  drain_tx_first s fn frame b rest transport first =
      simp (transport, first, drain_tx, frame_whole frame b)
