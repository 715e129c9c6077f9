-- ===== src/Session/Run/Sound.antt =====
-- The two invariants of a session of include/ReliableSession.hpp together, operation by operation.
use florid_usb_protocols.Prelude.{ℕ, ◌+◌, ◌^◌, ◌<◌, Option, List, []}
use florid_usb_protocols.Platform.{Platform, IsPlatform}
use florid_usb_protocols.Session.{
  Config, Session, init, next_tx_id, register_pending, on_ack, on_response, next_outbound,
}
use florid_usb_protocols.Session.Device.{on_request, cache_response, reset_device_state}
use florid_usb_protocols.Session.Poll.{poll}
use florid_usb_protocols.Session.Invariant.{IsValid}
use florid_usb_protocols.Session.Run.{
  World, Step, send, ack, respond, pump, check, request, answer, reset, start,
}
use florid_usb_protocols.Session.Run.Safety.{
  IsNumbered, Step-IsValid, Step-IsNumbered, Reach-IsValid, Reach-IsNumbered,
}

pub record IsSound (P : Platform) (s : Session P) : Type 0 where
  pub valid : IsValid P s
  pub numbered : IsNumbered P s

module _ (P : Platform) (L : IsPlatform P) where
  abbrev world : Session P → World P
  world s = record { session = s; called = []; sent = [] }

  Step-IsSound :
      (s : Session P) {t : World P} → Step P (world s) t → IsSound P s → IsSound P t.session
  Step-IsSound s st v = record {
    valid = Step-IsValid P L st v.numbered v.valid;
    numbered = Step-IsNumbered P L st v.numbered;
  }

  pub init-IsSound : (c : Config) → IsSound P (init P c)
  init-IsSound c = record {
    valid = Reach-IsValid P L c start;
    numbered = Reach-IsNumbered P L c start;
  }

  pub register_pending-IsSound :
      (s : Session P) (req rsp : ℕ) (bytes : List ℕ) (ok err : Option ℕ) (timeout tries now : ℕ)
      → s.next_tx_id + 1 < 2 ^ 32
      → tries < 2 ^ 8
      → IsSound P s
      → IsSound P (
          register_pending P
            (next_tx_id P s).1
            (next_tx_id P s).0
            req
            rsp
            bytes
            ok
            err
            timeout
            tries
            now)
  register_pending-IsSound s req rsp bytes ok err timeout tries now low few v =
      Step-IsSound s (send req rsp bytes ok err timeout tries now low few) v

  pub on_ack-IsSound : (s : Session P) (tx now : ℕ) → IsSound P s → IsSound P (on_ack P s tx now)
  on_ack-IsSound s tx now v = Step-IsSound s (ack tx now) v

  pub on_response-IsSound :
      (s : Session P) (cmd tx : ℕ) (bytes : List ℕ)
      → IsSound P s
      → IsSound P (on_response P s cmd tx bytes).0
  on_response-IsSound s cmd tx bytes v = Step-IsSound s (respond cmd tx bytes) v

  pub next_outbound-IsSound :
      (s : Session P) (now : ℕ) → IsSound P s → IsSound P (next_outbound P s now).1
  next_outbound-IsSound s now v = Step-IsSound s (pump now) v

  pub poll-IsSound :
      (s : Session P) (now : ℕ) (clock : ℕ → ℕ) → IsSound P s → IsSound P (poll P now clock s).2
  poll-IsSound s now clock v = Step-IsSound s (check now clock) v

  pub on_request-IsSound :
      (s : Session P) (cmd tx : ℕ) → IsSound P s → IsSound P (on_request P s cmd tx).1
  on_request-IsSound s cmd tx v = Step-IsSound s (request cmd tx) v

  pub cache_response-IsSound :
      (s : Session P) (cmd tx rsp : ℕ) (bytes : List ℕ)
      → IsSound P s
      → IsSound P (cache_response P s cmd tx rsp bytes)
  cache_response-IsSound s cmd tx rsp bytes v = Step-IsSound s (answer cmd tx rsp bytes) v

  pub reset_device_state-IsSound :
      (s : Session P) → IsSound P s → IsSound P (reset_device_state P s)
  reset_device_state-IsSound s v = Step-IsSound s reset v
