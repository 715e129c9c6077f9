-- ===== src/Tests/Exchanges.antt =====
-- Runs of the programs of examples/.
use florid_usb_protocols.Prelude.{
  ℕ, ◌+◌, ◌*◌, ◌⊎◌, not, ◌≡◌, refl, Bool, true, none, some, List, [], ◌∷◌, arith, leb, length, ◌==◌,
  if◌then◌else◌,
}
use florid_usb_protocols.Prelude.Eq.{nat_regular}
use florid_usb_protocols.Rpl.{Rpl}
use florid_usb_protocols.IdRing.{
  cleared, contains, test_and_insert, compose_dedup_key, seen_id_ring_bits,
}
use florid_usb_protocols.IdRing.Window.{cleared_lem}
use florid_usb_protocols.Packet.{PacketTraits, to_bytes}
use florid_usb_protocols.Packet.Traits.{
  ack_packet_traits, set_mit_limit_request_packet_traits, set_mit_limit_response_packet_traits,
}
use florid_usb_protocols.Session.{init}
use florid_usb_protocols.Session.Device.{on_request}
use florid_usb_protocols.Stack.{Stack, handled, init_stack, register_handler, set_send_frame}
use florid_usb_protocols.Stack.Cycle.{push_data}
use florid_usb_protocols.Stack.Serving.{ack_bytes}
use florid_usb_protocols.Example.{types, request_cmd, response_cmd, request}
use florid_usb_protocols.Example.Device.{response, device, device_stack}
use florid_usb_protocols.Example.Serves.{
  IsCarried, IsExchange, IsListening, IsRoomy, served, replayed, device_replays,
}
use florid_usb_protocols.Example.Host.{host_asks, host_stack, host_flags, exit_code}
use florid_usb_protocols.Example.Loop.{Times, IsPaced, main_loop}
use florid_usb_protocols.Example.Programs.{programs_exchange}
use florid_usb_protocols.Example.Ends.{programs_end}
use florid_usb_protocols.Tests.{host, host-IsPlatform}

-- A frame is the command and the bytes of the packet.
abbrev packets_of : List PacketTraits → List ℕ → List (PacketTraits × List ℕ)
packets_of ts [] = []
packets_of [] (cmd ∷ bytes) = []
packets_of (t ∷ ts) (cmd ∷ bytes) =
    let rest = packets_of ts (cmd ∷ bytes) in if t.cmd == cmd then (t, bytes) ∷ [] else rest

abbrev pub tagged_rpl : Rpl
tagged_rpl = record {
  Parser = Unit;
  parser = tt;
  push_data = λ p frame. (p, packets_of types frame);
  advance_write_index = λ p bytes. (true, p, []);
  serialize = λ limit t bytes. if leb (length bytes + 1) limit then some (t.cmd ∷ bytes) else none;
}

abbrev limits : List ℕ
limits = 0 ∷ 0 ∷ 0x40 ∷ 0x41 ∷ 0xc3 ∷ 0xf5 ∷ 0xc8 ∷ 0x40 ∷ []

abbrev pub asking : List ℕ
asking = request 1 2 limits

request-IsCarried :
    IsCarried tagged_rpl set_mit_limit_request_packet_traits asking (request_cmd ∷ asking)
unfolding to_bytes
request-IsCarried = record {
  made = refl;
  parsed = refl;
  some_bytes = omega arith;
  fits = omega arith;
}

ack-IsCarried :
    IsCarried tagged_rpl ack_packet_traits
      (ack_bytes request_cmd 1)
      (0x6ff0 ∷ ack_bytes request_cmd 1)
unfolding to_bytes
ack-IsCarried = record { made = refl; parsed = refl; some_bytes = omega arith; fits = omega arith }

response-IsCarried :
    IsCarried tagged_rpl set_mit_limit_response_packet_traits
      (response 1 asking)
      (response_cmd ∷ response 1 asking)
unfolding to_bytes
response-IsCarried = record {
  made = refl;
  parsed = refl;
  some_bytes = omega arith;
  fits = omega arith;
}

abbrev listening : Stack host tagged_rpl
listening = device_stack host tagged_rpl

listening-IsListening : IsListening host tagged_rpl listening 1
unfolding init_stack init register_handler set_send_frame on_request test_and_insert contains
    cleared compose_dedup_key
listening-IsListening = record { idle = refl; handled = refl; new = refl; room = omega arith }

exchange :
    IsExchange tagged_rpl 1 2 limits
      (request_cmd ∷ asking)
      (0x6ff0 ∷ ack_bytes request_cmd 1)
      (response_cmd ∷ response 1 asking)
exchange = record {
  pos = omega arith;
  small = omega arith;
  size = refl;
  asked = request-IsCarried;
  acked = ack-IsCarried;
  answered = response-IsCarried;
}

listening-IsRoomy : IsRoomy host tagged_rpl listening 1
unfolding init_stack init register_handler set_send_frame contains
listening-IsRoomy = record {
  queue = omega arith;
  ring = (cleared_lem seen_id_ring_bits).0;
  cache = record { bounded = omega arith; ordered = λ k c h. cc h };
  capacity = omega arith;
  absent = refl;
}

device_replays_example :
    push_data host tagged_rpl types
      (device host tagged_rpl)
      (λ i. i)
      (request_cmd ∷ asking)
      (served host tagged_rpl 1 asking
        (0x6ff0 ∷ ack_bytes request_cmd 1)
        (response_cmd ∷ response 1 asking)
        listening)
    ≡ replayed host tagged_rpl 1 asking
        (0x6ff0 ∷ ack_bytes request_cmd 1)
        (response_cmd ∷ response 1 asking)
        (served host tagged_rpl 1 asking
          (0x6ff0 ∷ ack_bytes request_cmd 1)
          (response_cmd ∷ response 1 asking)
          listening)
device_replays_example =
    device_replays host tagged_rpl 1 2 limits (request_cmd ∷ asking)
      (0x6ff0 ∷ ack_bytes request_cmd 1) (response_cmd ∷ response 1 asking) exchange host-IsPlatform
      (λ i. i) listening listening-IsListening listening-IsRoomy

-- Cycles 10 milliseconds apart, in nanoseconds.
abbrev ticks : ℕ → Times
ticks k = record {
  packets = λ i j. k * 10000000;
  outbound = λ i. k * 10000000;
  now = k * 10000000;
  retries = λ i. k * 10000000;
}

ticks-IsPaced : IsPaced 200000 ticks
ticks-IsPaced = record {
  packet = λ k i j. omega arith;
  request = λ k i. omega arith;
  packet_late = λ k i j. omega arith;
  request_late = λ k i. omega arith;
  retry_late = λ k i. omega arith;
}

-- The first two frames of the host are lost.
abbrev line : ℕ → Bool × Bool
line i = (leb 2 i, true)

programs_exchange_example :
    let (h, d) =
      main_loop host tagged_rpl 1000 0 line ticks ticks
        ((host_asks host tagged_rpl (host_stack host tagged_rpl) (2 ∷ limits) 0).1, listening) in
    ((host_flags host tagged_rpl h).done ≡ true)
    × (exit_code (host_flags host tagged_rpl h) ≡ 0)
    × (d.calls ≡ handled 0 request_cmd 1 asking ∷ [])
programs_exchange_example =
    programs_exchange host host-IsPlatform tagged_rpl 2 0 limits (request_cmd ∷ asking)
      (0x6ff0 ∷ ack_bytes request_cmd 1) (response_cmd ∷ response 1 asking) exchange line ticks
      ticks 2 ticks-IsPaced (λ i. refl)

-- The first three answers of the device are lost, and the second request.
abbrev bad_line : ℕ → Bool × Bool
bad_line i = (not (i == 1), leb 3 i)

programs_end_example :
    let (h, d) =
      main_loop host tagged_rpl 1000 0 bad_line ticks ticks
        ((host_asks host tagged_rpl (host_stack host tagged_rpl) (2 ∷ limits) 0).1, listening) in
    ((host_flags host tagged_rpl h).done ≡ true)
    × (((d.calls ≡ []) × (exit_code (host_flags host tagged_rpl h) ≡ 1))
        ⊎ ((d.calls ≡ handled 0 request_cmd 1 asking ∷ [])
            × ((exit_code (host_flags host tagged_rpl h) ≡ 1)
                ⊎ (exit_code (host_flags host tagged_rpl h) ≡ 0))))
programs_end_example =
    programs_end host host-IsPlatform tagged_rpl 2 0 limits (request_cmd ∷ asking)
      (0x6ff0 ∷ ack_bytes request_cmd 1) (response_cmd ∷ response 1 asking) exchange bad_line ticks
      ticks ticks-IsPaced
