-- ===== src/Session/Run/Liveness.antt =====
-- What becomes of a request of include/ReliableSession.hpp that nobody answers.
use florid_usb_protocols.Prelude.{ℕ, ◌+◌, ◌<◌, ◌≡◌, true, some, List, length}
use florid_usb_protocols.Platform.{Platform, IsPlatform}
use florid_usb_protocols.Session.{Config}
use florid_usb_protocols.Session.Entry.{PendingEntry}
use florid_usb_protocols.Session.Poll.Expiry.{
  Reading, poll_all, IsLate, IsGivenUp, unanswered-IsGivenUp,
}
use florid_usb_protocols.Session.Run.{World, Reach}
use florid_usb_protocols.Session.Run.Safety.{Reach-IsNumbered, Reach-IsValid}

module _ (P : Platform) (L : IsPlatform P) (c : Config) where
  -- With a map that behaves as documented, in every state that a run of a session's operations can
  -- get into: when `poll` is called more often than a request in flight has retries left, each time
  -- after the deadline of its entry, and nothing else happens, then the request is sent again
  -- exactly as often as it had retries left, its entry is dropped, and its error callback, if it
  -- has one, is told of a timeout.
  pub Reach-IsGivenUp :
      {s : World P} (tx : ℕ) (p : PendingEntry) (polls : List Reading)
      → Reach P c s
      → P.find PendingEntry tx s.session.pending ≡ some p
      → p.inflight ≡ true
      → p.max_retries < p.retry_count + length polls
      → IsLate tx p polls
      → IsGivenUp P L tx p (poll_all P polls s.session)
  Reach-IsGivenUp {s} tx p polls r h flying enough late =
      let (_, low, few) = (Reach-IsNumbered P L c r).issued tx p h in
      unanswered-IsGivenUp P L tx p polls s.session (Reach-IsValid P L c r) h flying low few enough
        late
