-- ===== src/Tests/Sessions.antt =====
-- Runs of the session of include/ReliableSession.hpp.
use florid_usb_protocols.Prelude.{
  ℕ, ◌+◌, ◌≤◌, ◌<◌, ◌≡◌, refl, true, false, none, some, List, [], ◌∷◌, arith, length,
}
use florid_usb_protocols.Prelude.Eq.{nat_regular}
use florid_usb_protocols.Platform.Total.{total}
use florid_usb_protocols.IdRing.{
  cleared, contains, test_and_insert, compose_dedup_key, seen_id_ring_bits,
}
use florid_usb_protocols.IdRing.Order.{IsValid as IsIdRingValid}
use florid_usb_protocols.IdRing.Window.{cleared_lem}
use florid_usb_protocols.Session.{
  next_deadline, earliest, sooner, Session, init, register_pending, next_outbound,
}
use florid_usb_protocols.Session.Entry.{PendingEntry}
use florid_usb_protocols.Session.Invariant.{
  IsValid, IsFresh, init-IsValid, register_pending-IsValid,
}
use florid_usb_protocols.Session.Invariant.Outbound.{next_outbound-IsValid}
use florid_usb_protocols.Session.Device.Reset.{reset_device_state_forgets}
use florid_usb_protocols.Session.Deadline.{IsDeadline, next_deadline-le, next_deadline-IsDeadline}
use florid_usb_protocols.Session.Device.{reset_device_state, on_request, cache_response}
use florid_usb_protocols.Session.Device.Cache.{IsCacheValid, cache_response-IsCacheValid}
use florid_usb_protocols.Session.Device.Again.{IsReplayOf}
use florid_usb_protocols.Session.Device.Retain.{Traffic, asked, answered, answered_keys, serve}
use florid_usb_protocols.Session.Poll.{poll, Polled, PollRun, poll_from}
use florid_usb_protocols.Session.Poll.Effect.{polled, resent, retries_for, timeouts_of, gives_up}
use florid_usb_protocols.Session.Poll.Outcome.{find-poll, retries-poll, timeouts-poll, poll-PollRun}
use florid_usb_protocols.Session.Run.{begin, Reach, start}
use florid_usb_protocols.Session.Run.Memory.{reached_replays}
use florid_usb_protocols.Tests.{host, host-IsPlatform, config}

abbrev pub fresh : Session host
fresh = init host config

one-IsFresh : IsFresh host fresh 1
unfolding init
one-IsFresh = (refl, refl)

abbrev pub request : List ℕ
request = 1 ∷ 0 ∷ 0 ∷ 0 ∷ 5 ∷ []

-- One request that waits, and the same in flight.
abbrev waiting : Session host
waiting = register_pending host fresh 1 0x6107 0x6108 request (some 7) (some 8) 10 3 0

waiting-IsValid : IsValid host waiting
waiting-IsValid =
    register_pending-IsValid host host-IsPlatform fresh 1 0x6107 0x6108 request (some 7) (some 8) 10
      3 0 one-IsFresh (init-IsValid host host-IsPlatform config)

abbrev flying : Session host
flying = (next_outbound host waiting 2).1

flying-IsValid : IsValid host flying
flying-IsValid = next_outbound-IsValid host host-IsPlatform waiting 2 waiting-IsValid

abbrev clock : ℕ → ℕ
clock tx = 20 + tx

find-poll_example :
    host.find PendingEntry 1 (poll host 12 clock flying).2.pending
    ≡ polled 12 21 (host.find PendingEntry 1 flying.pending)
find-poll_example = find-poll host host-IsPlatform 12 clock flying 1

retries-poll_example :
    retries_for 1 (poll host 12 clock flying).0
    ≡ resent 12 (host.find PendingEntry 1 flying.pending)
retries-poll_example = retries-poll host host-IsPlatform 12 clock flying 1 flying-IsValid.keyed

-- The same request with no retry allowed, in flight.
abbrev spent : Session host
spent =
    (next_outbound host
      (register_pending host fresh 1 0x6107 0x6108 request (some 7) (some 8) 10 0 0) 2).1

timeouts-poll_example :
    timeouts_of 8 (poll host 12 clock spent).1
    ≡ total (gives_up 12 8) (host.entries PendingEntry spent.pending)
timeouts-poll_example = timeouts-poll host host-IsPlatform 12 clock spent 8

-- An entry in flight, and a session with it.
abbrev flying_entry : PendingEntry
flying_entry = record {
  tx_id = 1;
  request_cmd = 0x6107;
  response_cmd = 0x6108;
  request_bytes = request;
  request_len = 5;
  on_response = some 7;
  on_error = none;
  timeout = 10;
  max_retries = 3;
  retry_count = 0;
  inflight = true;
  deadline = 12;
}

abbrev one_flying : Session host
one_flying = record fresh { pending = (1, flying_entry) ∷ []; inflight_count = 1 }

next_deadline-le_example : (d : ℕ) × (next_deadline host one_flying ≡ some d) × (d ≤ 12)
next_deadline-le_example = next_deadline-le host host-IsPlatform one_flying 1 flying_entry refl refl

wakes_at : next_deadline host one_flying ≡ some 12
unfolding next_deadline earliest sooner
wakes_at = refl

next_deadline-IsDeadline_example :
    IsDeadline (λ tx. host.find PendingEntry tx one_flying.pending) 12
next_deadline-IsDeadline_example =
    next_deadline-IsDeadline host host-IsPlatform one_flying 12 wakes_at

reset_device_state_forgets_example :
    (on_request host (reset_device_state host one_flying) 0x6107 1).0.is_duplicate ≡ false
reset_device_state_forgets_example =
    reset_device_state_forgets host one_flying 0x6107 1 (omega arith) (omega arith) (omega arith)

poll-PollRun_example :
    (r : Polled host) × PollRun host 12 clock 0 (poll_from host 12 clock flying) r
    × (poll host 12 clock flying ≡ (
      r.retries,
      r.callbacks,
      record flying { pending = r.pending; inflight_count = r.inflight_count },
    ))
poll-PollRun_example = poll-PollRun host host-IsPlatform 12 clock flying

-- The device side.
fresh_ring-IsValid : IsIdRingValid seen_id_ring_bits fresh.seen_requests
unfolding init
fresh_ring-IsValid = (cleared_lem seen_id_ring_bits).0

fresh-IsCacheValid : IsCacheValid host fresh
unfolding init
fresh-IsCacheValid = record { bounded = omega arith; ordered = λ k c h. cc h }

not_answered : contains fresh.completed_order (compose_dedup_key 0x6107 1) ≡ false
unfolding init contains
not_answered = refl

not_seen : (on_request host fresh 0x6107 1).0.is_duplicate ≡ false
unfolding init on_request test_and_insert contains cleared compose_dedup_key
not_seen = refl

has_room : 0 < fresh.config.device_cache_capacity
unfolding init
has_room = omega arith

fresh-Reach : Reach host config (begin host config)
fresh-Reach = start

-- Another request comes in and is answered.
abbrev busy : List Traffic
busy = asked 0x6109 2 ∷ answered 0x6109 2 0x610a (9 ∷ []) ∷ []

busy_apart : contains (answered_keys busy) (compose_dedup_key 0x6107 1) ≡ false
unfolding contains compose_dedup_key
busy_apart = refl

few_answered : length (answered_keys busy) < fresh.config.device_cache_capacity
unfolding init
few_answered = omega arith

reached_replays_example :
    let t = cache_response host (on_request host fresh 0x6107 1).1 0x6107 1 0x6108 request in
    IsReplayOf host 0x6108 request (on_request host (serve host t busy) 0x6107 1).0
reached_replays_example =
    reached_replays host host-IsPlatform 0x6107 1 0x6108 request busy fresh-Reach not_answered
      not_seen (omega arith) (omega arith) few_answered busy_apart

cache_response-IsCacheValid_example :
    IsCacheValid host (cache_response host fresh 0x6107 1 0x6108 request)
cache_response-IsCacheValid_example =
    cache_response-IsCacheValid host host-IsPlatform fresh 0x6107 1 0x6108 request
      fresh-IsCacheValid
