-- ===== src/Example/Repeating.antt =====
-- The device of examples/receive_serial.cpp, once it has served the request: what it sends, and the
-- same request again.
use florid_usb_protocols.Prelude.{
  ℕ, ◌+◌, ◌-◌, ◌≤◌, ◌≡◌, refl, sym, ap, ◌∙◌, ◌⊎◌, inl, inr, Bool, true, Option, none, some, List,
  [], ◌∷◌, ◌++◌, map, subst, arith, length, length-append, length-map,
}
use florid_usb_protocols.Prelude.Eq.{nat_regular}
use florid_usb_protocols.Platform.{Platform, IsPlatform}
use florid_usb_protocols.Rpl.{Rpl}
use florid_usb_protocols.Packet.Traits.{set_mit_limit_request_packet_traits}
use florid_usb_protocols.Session.Device.{on_request, cache_response}
use florid_usb_protocols.Session.Device.Replay.{requests, on_request_replays, on_request_seen}
use florid_usb_protocols.TxQueue.{TxEntry, tx_queue_cap, enqueue_prebuilt_frame}
use florid_usb_protocols.Stack.{Stack, handled, drain_tx}
use florid_usb_protocols.Stack.Cycle.{push_data, enqueue_ack}
use florid_usb_protocols.Stack.Requests.{cached, duplicate_replayed}
use florid_usb_protocols.Stack.Serving.{prebuilt, enqueue_prebuilt_frame_room, enqueue_ack_room}
use florid_usb_protocols.Stack.Receive.{
  IsHolding, read-IsHolding, emptied, drain_rx_frame, cycle_quiet, drain_tx_first, drain_tx-none,
}
use florid_usb_protocols.Example.{types, request_cmd, response_cmd, request}
use florid_usb_protocols.Example.Device.{device}
use florid_usb_protocols.Example.Loop.{Times, cycle}
use florid_usb_protocols.Example.Serves.{
  IsExchange, IsListening, IsRoomy, request-IsReliable, tx_id-request, push_data_carried,
}
use florid_usb_protocols.Example.Answering.{
  IsServing, answering, none_due, device_rests, answering-IsServing,
}

module _ (P : Platform) (L : IsPlatform P) (R : Rpl) (tx joint : ℕ)
    (limits request_frame ack_frame response_frame : List ℕ)
    (x : IsExchange R tx joint limits request_frame ack_frame response_frame) where
  abbrev asking : List ℕ
  asking = request tx joint limits

  -- A frame that the device sends.
  abbrev pub IsMail : List ℕ → Type 0
  IsMail f = (f ≡ ack_frame) ⊎ (f ≡ response_frame)

  abbrev pub AllMail : List (List ℕ) → Type 0
  AllMail [] = Unit
  AllMail (f ∷ fs) = IsMail f × AllMail fs

  -- The device has called its handler once, keeps the response, and these frames are queued.
  pub record IsServed (fs : List (List ℕ)) (d : Stack P R) : Type 0 where
    pub serving : IsServing P L R d
    pub idle : d.parser ≡ R.parser
    pub queue : d.tx_queue ≡ map prebuilt fs
    pub mail : AllMail fs
    pub remembers :
        on_request P d.session request_cmd tx ≡ (cached response_cmd response_frame, d.session)
    pub once : d.calls ≡ handled 0 request_cmd tx asking ∷ []

  -- The stack, when the request has come in again.
  abbrev repeated : Stack P R → Stack P R
  repeated d = record d {
    tx_queue = (d.tx_queue ++ (prebuilt ack_frame ∷ [])) ++ (prebuilt response_frame ∷ []);
  }

  push_data-repeated :
      (clock : ℕ → ℕ) (d : Stack P R)
      → d.parser ≡ R.parser
      → on_request P d.session request_cmd tx ≡ (cached response_cmd response_frame, d.session)
      → length d.tx_queue + 2 ≤ tx_queue_cap
      → push_data P R types (device P R) clock request_frame d ≡ repeated d
  push_data-repeated clock d idle remembers room =
      let s = record d { session = (on_request P d.session request_cmd tx).1 } in
      let acknowledged = record s { tx_queue = d.tx_queue ++ (prebuilt ack_frame ∷ []) } in
      let ack : enqueue_ack P R types (device P R) request_cmd tx s ≡ acknowledged =
        enqueue_ack_room P R types (device P R) request_cmd tx ack_frame s x.acked.made
          (omega (arith, x.acked.fits)) (omega (arith, room)) in
      let answer : Stack P R → Stack P R =
        λ a. record a { tx_queue = (enqueue_prebuilt_frame a.tx_queue response_frame true).1 } in
      let queued : Bool × List TxEntry → Stack P R = λ q. record acknowledged { tx_queue = q.1 } in
      push_data_carried P R types (device P R) set_mit_limit_request_packet_traits asking
        request_frame clock d x.asked idle
      ∙ duplicate_replayed P R types (device P R) (clock 0) request_cmd tx response_cmd asking
          response_frame d request-IsReliable (tx_id-request tx joint limits x.small x.size) x.pos
          (ap (λ o. o.0) remembers) x.answered.some_bytes x.answered.fits
      ∙ ap answer ack
      ∙ ap queued (
          enqueue_prebuilt_frame_room acknowledged.tx_queue response_frame
            (omega (arith, x.answered.fits))
            (omega (arith, room, length-append d.tx_queue (prebuilt ack_frame ∷ []))))
      ∙ ap (λ t. repeated (record d { session = t })) (ap (λ o. o.1) remembers)

  map-append2 :
      (fs : List (List ℕ))
      → map prebuilt (fs ++ (ack_frame ∷ response_frame ∷ []))
        ≡ (map prebuilt fs ++ (prebuilt ack_frame ∷ [])) ++ (prebuilt response_frame ∷ [])
  map-append2 [] = refl
  map-append2 (f ∷ fs) = ap (λ q. prebuilt f ∷ q) (map-append2 fs)

  AllMail-append2 :
      (fs : List (List ℕ)) → AllMail fs → AllMail (fs ++ (ack_frame ∷ response_frame ∷ []))
  AllMail-append2 [] all = (inl refl, (inr refl, tt))
  AllMail-append2 (f ∷ fs) all = (all.0, AllMail-append2 fs all.1)

  -- A cycle of the device with these frames queued: the first goes out.
  pub record IsSent (fs : List (List ℕ)) (out : Option (List ℕ) × Stack P R) : Type 0 where
    pub rest : List (List ℕ)
    pub frame : (out.0 ≡ none) ⊎ ((f : List ℕ) × (out.0 ≡ some f) × IsMail f × (fs ≡ f ∷ rest))
    pub fewer : length rest ≡ length fs - 1
    pub left : IsServed rest out.1
    pub holds : IsHolding P L R out.1.rx_ring []

  sends :
      (fs : List (List ℕ)) (u : Stack P R)
      → IsServed fs u
      → IsHolding P L R u.rx_ring []
      → IsSent fs (drain_tx P R u true)
  sends [] u v holding =
      rw (drain_tx-none P L R u 0 v.serving.transport v.queue)
        record { rest = []; frame = inl refl; fewer = refl; left = v; holds = holding }
  sends (f ∷ fs) u v holding =
      rw (drain_tx_first P L R u 0 f _ (map prebuilt fs) v.serving.transport v.queue) record {
        rest = fs;
        frame = inr (f, refl, v.mail.0, refl);
        fewer = omega arith;
        left = record {
          serving = record {
            transport = v.serving.transport;
            none_queued = v.serving.none_queued;
            none_pending = v.serving.none_pending;
          };
          idle = v.idle;
          queue = refl;
          mail = v.mail.1;
          remembers = v.remembers;
          once = v.once;
        };
        holds = holding;
      }

  -- Nothing has come in.
  pub rests-IsSent :
      (t : Times) (d : Stack P R) (fs : List (List ℕ))
      → IsServed fs d
      → IsHolding P L R d.rx_ring []
      → IsSent fs (cycle P R (device P R) t d)
  rests-IsSent t d fs v holding =
      subst (IsSent fs) (sym (device_rests P L R t d v.serving holding)) (sends fs d v holding)

  -- The request has come in again.
  pub repeats-IsSent :
      (t : Times) (d : Stack P R) (fs : List (List ℕ))
      → IsServed fs d
      → IsHolding P L R d.rx_ring request_frame
      → length fs + 2 ≤ tx_queue_cap
      → IsSent (fs ++ (ack_frame ∷ response_frame ∷ [])) (cycle P R (device P R) t d)
  repeats-IsSent t d fs v holding room =
      let full = emptied P L R types (device P R) d request_frame in
      let serving : IsServing P L R (repeated full) = record {
        transport = v.serving.transport;
        none_queued = v.serving.none_queued;
        none_pending = v.serving.none_pending;
      } in
      let served : IsServed (fs ++ (ack_frame ∷ response_frame ∷ [])) (repeated full) = record {
        serving = serving;
        idle = v.idle;
        queue =
            ap (λ q. (q ++ (prebuilt ack_frame ∷ [])) ++ (prebuilt response_frame ∷ [])) v.queue
            ∙ sym (map-append2 fs);
        mail = AllMail-append2 fs v.mail;
        remembers = v.remembers;
        once = v.once;
      } in
      let few : length d.tx_queue + 2 ≤ tx_queue_cap =
        omega (arith, ap (λ (q : List TxEntry). length q) v.queue, length-map fs prebuilt, room) in
      let done =
        cycle_quiet P L R types (device P R) t.packets t.outbound t.now t.retries d (repeated full)
          (drain_rx_frame P L R types (device P R) t.packets d (repeated full) request_frame holding
            x.asked.some_bytes x.asked.fits (push_data-repeated _ full v.idle v.remembers few) refl)
          serving.none_queued (none_due P L R t.now (repeated full) serving) in
      subst (IsSent (fs ++ (ack_frame ∷ response_frame ∷ []))) (sym done) (
        sends (fs ++ (ack_frame ∷ response_frame ∷ [])) (repeated full) served
          (read-IsHolding P L R d.rx_ring request_frame holding).1)

  -- The device, when it has served the request for the first time.
  pub answering-IsServed :
      (d : Stack P R)
      → IsServing P L R d
      → IsListening P R d tx
      → IsRoomy P R d tx
      → d.calls ≡ []
      → IsServed
          (response_frame ∷ [])
          (answering P L R tx joint limits request_frame ack_frame response_frame x d)
  unfolding requests
  answering-IsServed d v l r none_yet =
      let s =
        cache_response P (on_request P d.session request_cmd tx).1 request_cmd tx response_cmd
          response_frame in
      let again : (on_request P s request_cmd tx).0 ≡ cached response_cmd response_frame =
        on_request_replays P L d.session request_cmd tx response_cmd response_frame [] r.ring
          r.cache r.capacity r.absent l.new (omega arith) in
      let same : (on_request P s request_cmd tx).1 ≡ s =
        on_request_seen P s request_cmd tx (ap (λ o. o.is_duplicate) again) in
      record {
        serving =
            answering-IsServing P L R tx joint limits request_frame ack_frame response_frame x d v;
        idle = l.idle;
        queue = refl;
        mail = (inr refl, tt);
        remembers =
            ap (λ o. (o, (on_request P s request_cmd tx).1)) again
            ∙ ap (λ u. (cached response_cmd response_frame, u)) same;
        once = ap (λ c. c ++ (handled 0 request_cmd tx asking ∷ [])) none_yet;
      }
