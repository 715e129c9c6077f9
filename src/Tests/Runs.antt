-- ===== src/Tests/Runs.antt =====
-- Runs of a session of include/ReliableSession.hpp, step by step.
use florid_usb_protocols.Prelude.{
  ℕ, ◌≤◌, ◌≡◌, refl, true, some, List, [], ◌∷◌, ◌++◌, arith, replicate,
}
use florid_usb_protocols.Prelude.Eq.{nat_regular}
use florid_usb_protocols.Session.{
  init, next_tx_id, register_pending, next_outbound, next_outbound_loop,
}
use florid_usb_protocols.Session.Entry.{PendingEntry}
use florid_usb_protocols.Session.Invariant.{IsValid}
use florid_usb_protocols.Session.Poll.{poll, poll_loop, poll_from, visit}
use florid_usb_protocols.Session.Poll.Expiry.{Reading, poll_all, IsGivenUp}
use florid_usb_protocols.Session.Run.{World, send, pump, check, Reach, start, later}
use florid_usb_protocols.Session.Run.Calls.{calls_of, sends_of}
use florid_usb_protocols.Session.Run.Safety.{Reach-IsValid, callbacks_once}
use florid_usb_protocols.Session.Run.Liveness.{Reach-IsGivenUp}
use florid_usb_protocols.Session.Run.Resends.{resends, grants, resends_bounded}
use florid_usb_protocols.Tests.{host, host-IsPlatform, config}
use florid_usb_protocols.Tests.Sessions.{fresh, request}

-- A request that is sent, goes out, and is retried once.
abbrev sent_one : World host
sent_one = record {
  session =
      register_pending host (next_tx_id host fresh).1 (next_tx_id host fresh).0 0x6107 0x6108
        request (some 7) (some 8) 10 2 0;
  called = [];
  sent = (some 7, some 8) ∷ [];
}

abbrev pumped : World host
pumped = record sent_one { session = (next_outbound host sent_one.session 2).1 }

abbrev clock : ℕ → ℕ
clock tx = 12

abbrev checked : World host
checked = record pumped {
  session = (poll host 12 clock pumped.session).2;
  called = pumped.called ++ (poll host 12 clock pumped.session).1;
}

sent_one-Reach : Reach host config sent_one
unfolding init
sent_one-Reach =
    later start (send 0x6107 0x6108 request (some 7) (some 8) 10 2 0 (omega arith) (omega arith))

checked-Reach : Reach host config checked
checked-Reach = later (later sent_one-Reach (pump 2)) (check 12 clock)

Reach-IsValid_example : IsValid host checked.session
Reach-IsValid_example = Reach-IsValid host host-IsPlatform config checked-Reach

callbacks_once_example : calls_of 8 checked.called ≤ sends_of 8 checked.sent
callbacks_once_example = callbacks_once host host-IsPlatform config 8 checked-Reach

abbrev tried_once : PendingEntry
tried_once = record {
  tx_id = 1;
  request_cmd = 0x6107;
  response_cmd = 0x6108;
  request_bytes = request ++ replicate 251 0;
  request_len = 5;
  on_response = some 7;
  on_error = some 8;
  timeout = 10;
  max_retries = 2;
  retry_count = 1;
  inflight = true;
  deadline = 22;
}

is_tried_once : host.find PendingEntry 1 checked.session.pending ≡ some tried_once
unfolding init next_tx_id register_pending next_outbound next_outbound_loop poll poll_loop poll_from
    visit
is_tried_once = refl

resends_bounded_example : resends host config 1 checked-Reach ≤ grants host config 1 checked-Reach
resends_bounded_example = resends_bounded host host-IsPlatform 1 config checked-Reach

-- Two calls more, when the deadlines 22 and 32 are over.
abbrev polls : List Reading
polls = (22, λ tx. 22) ∷ (40, λ tx. 40) ∷ []

Reach-IsGivenUp_example :
    IsGivenUp host host-IsPlatform 1 tried_once (poll_all host polls checked.session)
Reach-IsGivenUp_example =
    Reach-IsGivenUp host host-IsPlatform config 1 tried_once polls checked-Reach is_tried_once refl
      (omega arith) (omega arith, (omega arith, tt))
