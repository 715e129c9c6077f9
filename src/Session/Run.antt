-- ===== src/Session/Run.antt =====
-- Runs of include/ReliableSession.hpp: its operations in any order, as an application, a peer and the
-- clock call for them. A session beside the callbacks that it has called, and those that requests
-- have brought in. `set_next_tx_id` is not among the steps: it can bring back an id that is in use.
pub mod Entries
pub mod Calls
pub mod Numbers
pub mod Safety
pub mod Liveness
pub mod Resends
pub mod Sound
pub mod Memory
use florid_usb_protocols.Prelude.{ℕ, ◌+◌, ◌^◌, ◌<◌, Option, List, [], ◌∷◌, ◌++◌}
use florid_usb_protocols.Platform.{Platform}
use florid_usb_protocols.Session.{
  Config, Session, init, next_tx_id, register_pending, on_ack, on_response, next_outbound,
}
use florid_usb_protocols.Session.Entry.{Event}
use florid_usb_protocols.Session.Device.{on_request, cache_response, reset_device_state}
use florid_usb_protocols.Session.Poll.{poll}

pub record World (P : Platform) : Type 0 where
  pub session : Session P
  pub called : List Event
  pub sent : List (Option ℕ × Option ℕ)

-- `send` is what ProtocolStack::send does with the session, while the transaction ids last.
pub data Step (P : Platform) (s : World P) : World P → Type 0 where
  send :
      (request_cmd response_cmd : ℕ) (request : List ℕ) (on_response on_error : Option ℕ)
      → (timeout max_retries now : ℕ) → s.session.next_tx_id + 1 < 2 ^ 32
      → max_retries < 2 ^ 8
      → Step P s (record s {
        session =
            register_pending P
              (next_tx_id P s.session).1
              (next_tx_id P s.session).0
              request_cmd
              response_cmd
              request
              on_response
              on_error
              timeout
              max_retries
              now;
        sent = (on_response, on_error) ∷ s.sent;
      })
  ack : (tx_id now : ℕ) → Step P s (record s { session = on_ack P s.session tx_id now })
  respond :
      (cmd_id tx_id : ℕ) (bytes : List ℕ)
      → Step P s (record s {
        session = (on_response P s.session cmd_id tx_id bytes).0;
        called = s.called ++ (on_response P s.session cmd_id tx_id bytes).1;
      })
  pump : (now : ℕ) → Step P s (record s { session = (next_outbound P s.session now).1 })
  check :
      (now : ℕ) (clock : ℕ → ℕ)
      → Step P s (record s {
        session = (poll P now clock s.session).2;
        called = s.called ++ (poll P now clock s.session).1;
      })
  request :
      (cmd_id tx_id : ℕ) → Step P s (record s { session = (on_request P s.session cmd_id tx_id).1 })
  answer :
      (cmd_id tx_id response_cmd : ℕ) (bytes : List ℕ)
      → Step P s (record s { session = cache_response P s.session cmd_id tx_id response_cmd bytes })
  reset : Step P s (record s { session = reset_device_state P s.session })

abbrev pub begin : (P : Platform) → Config → World P
begin P c = record { session = init P c; called = []; sent = [] }

pub data Reach (P : Platform) (c : Config) : World P → Type 0 where
  start : Reach P c (begin P c)
  later : {s t : World P} → Reach P c s → Step P s t → Reach P c t
