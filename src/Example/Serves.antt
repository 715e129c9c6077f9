-- ===== src/Example/Serves.antt =====
-- The device of examples/receive_serial.cpp, with a request that comes in once, and again.
use florid_usb_protocols.Prelude.{
  ℕ, ◌+◌, ◌^◌, ◌≤◌, ◌<◌, ◌≡◌, refl, ap, sym, ◌∙◌, Bool, true, false, Option, some, List, [], ◌∷◌,
  ◌++◌, arith, ◌==◌, ==_iff, length, length-append,
}
use florid_usb_protocols.Prelude.Eq.{nat_regular}
use florid_usb_protocols.Platform.{Platform, IsPlatform}
use florid_usb_protocols.Rpl.{Rpl}
use florid_usb_protocols.Packet.{PacketTraits, sizeof, bit_size, to_bytes, tx_id_offset, offset}
use florid_usb_protocols.Packet.Traits.{
  ack_packet_traits, set_mit_limit_request_packet_traits, set_mit_limit_response_packet_traits,
}
use florid_usb_protocols.Packet.Region.{is_request_cmd, extract_tx_id_from_raw}
use florid_usb_protocols.Packet.Exchange.{id_first_lem, length-to_bytes}
use florid_usb_protocols.TxQueue.{TxEntry, max_frame_size, tx_queue_cap, enqueue_prebuilt_frame}
use florid_usb_protocols.IdRing.{contains, compose_dedup_key, seen_id_ring_bits}
use florid_usb_protocols.IdRing.Order.{IsValid as IsIdRingValid}
use florid_usb_protocols.Session.Device.Cache.{IsCacheValid}
use florid_usb_protocols.Session.Device.Replay.{requests, on_request_replays}
use florid_usb_protocols.Session.Device.{on_request, cache_response}
use florid_usb_protocols.Stack.{Stack, App, noted, handled}
use florid_usb_protocols.Stack.Cycle.{handle_packet_internal, enqueue_ack, dispatch, push_data}
use florid_usb_protocols.Stack.Requests.{IsReliableRequest, duplicate_replayed}
use florid_usb_protocols.Stack.Serving.{
  prebuilt, enqueue_prebuilt_frame_room, ack_bytes, enqueue_ack_room, request_handled,
  send_response_and_cache_room,
}
use florid_usb_protocols.Example.{types, request_cmd, response_cmd, request}
use florid_usb_protocols.Example.Device.{response, handle_set_mit_limit, device}

-- A packet that the serializer makes a frame of 1 to 256 bytes of, which the idle parser reads back.
pub record IsCarried (R : Rpl) (t : PacketTraits) (bytes frame : List ℕ) : Type 0 where
  pub made : R.serialize max_frame_size t bytes ≡ some frame
  pub parsed : R.push_data R.parser frame ≡ (R.parser, (t, bytes) ∷ [])
  pub some_bytes : 0 < length frame
  pub fits : length frame ≤ 256

-- A device that waits for a request of the transaction `tx`, which it has not seen.
pub record IsListening (P : Platform) (R : Rpl) (d : Stack P R) (tx : ℕ) : Type 0 where
  pub idle : d.parser ≡ R.parser
  pub handled : P.find (Option ℕ) request_cmd d.handlers ≡ some (some 0)
  pub new : (on_request P d.session request_cmd tx).0.is_duplicate ≡ false
  pub room : length d.tx_queue + 2 ≤ tx_queue_cap

-- The three packets of the transaction `tx` and their frames; `limits` are the floats of the request.
pub record IsExchange (R : Rpl) (tx joint : ℕ)
    (limits request_frame ack_frame response_frame : List ℕ) : Type 0 where
  pub pos : 0 < tx
  pub small : tx < 2 ^ 32
  pub size : length limits ≡ 8
  pub asked :
      IsCarried R set_mit_limit_request_packet_traits (request tx joint limits) request_frame
  pub acked : IsCarried R ack_packet_traits (ack_bytes request_cmd tx) ack_frame
  pub answered :
      IsCarried R set_mit_limit_response_packet_traits
        (response tx (request tx joint limits))
        response_frame

-- A device that has room for four frames, and a cache for the response.
pub record IsRoomy (P : Platform) (R : Rpl) (d : Stack P R) (tx : ℕ) : Type 0 where
  pub queue : length d.tx_queue + 4 ≤ tx_queue_cap
  pub ring : IsIdRingValid seen_id_ring_bits d.session.seen_requests
  pub cache : IsCacheValid P d.session
  pub capacity : 0 < d.session.config.device_cache_capacity
  pub absent : contains d.session.completed_order (compose_dedup_key request_cmd tx) ≡ false

module _ (P : Platform) (R : Rpl) (tx : ℕ) (bytes ack_frame response_frame : List ℕ) where
  -- The device, when it has served the request with these bytes.
  abbrev pub served : Stack P R → Stack P R
  served d = record d {
    session =
        cache_response P (on_request P d.session request_cmd tx).1 request_cmd tx response_cmd
          response_frame;
    tx_queue = (d.tx_queue ++ (prebuilt ack_frame ∷ [])) ++ (prebuilt response_frame ∷ []);
    calls = d.calls ++ (handled 0 request_cmd tx bytes ∷ []);
  }

  -- The device, when the request has come in again.
  abbrev pub replayed : Stack P R → Stack P R
  replayed d = record d {
    session = (on_request P d.session request_cmd tx).1;
    tx_queue = (d.tx_queue ++ (prebuilt ack_frame ∷ [])) ++ (prebuilt response_frame ∷ []);
  }

pub request-IsReliable : IsReliableRequest request_cmd
unfolding is_request_cmd
request-IsReliable = (refl, refl, refl)

pub tx_id-request :
    (tx joint : ℕ) (limits : List ℕ)
    → tx < 2 ^ 32
    → length limits ≡ 8
    → extract_tx_id_from_raw types request_cmd (request tx joint limits) ≡ tx
unfolding sizeof bit_size tx_id_offset offset
tx_id-request tx joint limits small size =
    id_first_lem types set_mit_limit_request_packet_traits tx (joint ∷ limits) refl small
      (omega (arith, size))

pub length-request :
    (tx joint : ℕ) (limits : List ℕ)
    → length limits ≡ 8
    → length (request tx joint limits) ≡ sizeof set_mit_limit_request_packet_traits.layout
unfolding sizeof bit_size
length-request tx joint limits size =
    omega (arith, length-append (to_bytes 4 tx) (joint ∷ limits), length-to_bytes 4 tx, size)

pub request_small :
    (tx joint : ℕ) (limits : List ℕ) → length limits ≡ 8 → length (request tx joint limits) ≤ 256
request_small tx joint limits size =
    omega (arith, length-append (to_bytes 4 tx) (joint ∷ limits), length-to_bytes 4 tx, size)

-- The idle parser hands the stack the packet of a frame.
pub push_data_carried :
    (P : Platform) (R : Rpl) (types : List PacketTraits) (app : App P R) (t : PacketTraits)
    (bytes frame : List ℕ)
    → (clock : ℕ → ℕ) (s : Stack P R) → IsCarried R t bytes frame
    → s.parser ≡ R.parser
    → push_data P R types app clock frame s
      ≡ handle_packet_internal P R types app (clock 0) t.cmd bytes s
unfolding push_data dispatch
push_data_carried P R types app t bytes frame clock s carried idle =
    let parsed : R.push_data s.parser frame ≡ (s.parser, (t, bytes) ∷ []) =
      ap (λ p. R.push_data p frame) idle
      ∙ carried.parsed
      ∙ ap (λ p. (p, (t, bytes) ∷ [])) (sym idle) in
    rw (push_data, parsed) refl

module _ (P : Platform) (R : Rpl) (tx joint : ℕ)
    (limits request_frame ack_frame response_frame : List ℕ)
    (x : IsExchange R tx joint limits request_frame ack_frame response_frame) where
  handler-served :
      (d : Stack P R)
      → length d.tx_queue + 1 ≤ tx_queue_cap
      → handle_set_mit_limit P R tx (request tx joint limits) d ≡ record d {
        session = cache_response P d.session request_cmd tx response_cmd response_frame;
        tx_queue = d.tx_queue ++ (prebuilt response_frame ∷ []);
      }
  unfolding handle_set_mit_limit
  handler-served d room =
      let whole : (length (request tx joint limits)
            == sizeof set_mit_limit_request_packet_traits.layout)
          ≡ true =
        (==_iff _ _).1 (length-request tx joint limits x.size) in
      rw whole (
        ap (λ r. r.1)
          (send_response_and_cache_room P R d set_mit_limit_request_packet_traits
            set_mit_limit_response_packet_traits tx (response tx (request tx joint limits))
            response_frame x.answered.made (omega (arith, x.answered.fits)) (omega (arith, room))))

  -- With a serializer and parser that carry the three packets of an exchange, and room in the
  -- transmit queue: the device of the example, when the frame of a SetMitLimit request comes in
  -- that it has not seen, queues an acknowledgement and the frame of a response with the status of
  -- the joint, caches that frame, and changes nothing else but the record of the requests seen.
  pub device_serves :
      (clock : ℕ → ℕ) (d : Stack P R)
      → IsListening P R d tx
      → push_data P R types (device P R) clock request_frame d
        ≡ served P R tx (request tx joint limits) ack_frame response_frame d
  device_serves clock d l =
      let seen = record d { session = (on_request P d.session request_cmd tx).1 } in
      let acknowledged = record seen { tx_queue = d.tx_queue ++ (prebuilt ack_frame ∷ []) } in
      let ack : enqueue_ack P R types (device P R) request_cmd tx seen ≡ acknowledged =
        enqueue_ack_room P R types (device P R) request_cmd tx ack_frame seen x.acked.made
          (omega (arith, x.acked.fits)) (omega (arith, l.room)) in
      let run : Stack P R → Stack P R = λ s.
        handle_set_mit_limit P R tx (request tx joint limits)
          (noted P R (handled 0 request_cmd tx (request tx joint limits)) s) in
      push_data_carried P R types (device P R) set_mit_limit_request_packet_traits
        (request tx joint limits) request_frame clock d x.asked l.idle
      ∙ request_handled P R types (device P R) (clock 0) request_cmd tx 0 (request tx joint limits)
          d request-IsReliable (tx_id-request tx joint limits x.small x.size) x.pos l.new
          (ap (λ s. P.find (Option ℕ) request_cmd s.handlers) ack ∙ l.handled)
      ∙ ap run ack
      ∙ handler-served (noted P R (handled 0 request_cmd tx (request tx joint limits)) acknowledged)
          (omega (arith, l.room, length-append d.tx_queue (prebuilt ack_frame ∷ [])))

  -- With a map that behaves as documented, a serializer and parser that carry the three packets of
  -- an exchange, and room in the transmit queue: when the device of the example has served a
  -- request that it had not seen and the same frame comes in again, it runs no handler, and queues
  -- an acknowledgement and the frame of its first response once more.
  pub device_replays :
      IsPlatform P
      → (clock : ℕ → ℕ) (d : Stack P R) → IsListening P R d tx
      → IsRoomy P R d tx
      → push_data P R types
          (device P R)
          clock
          request_frame
          (served P R tx (request tx joint limits) ack_frame response_frame d)
        ≡ replayed P R tx
            (request tx joint limits)
            ack_frame
            response_frame
            (served P R tx (request tx joint limits) ack_frame response_frame d)
  unfolding requests
  device_replays L clock d l r =
      let s = served P R tx (request tx joint limits) ack_frame response_frame d in
      let seen = record s { session = (on_request P s.session request_cmd tx).1 } in
      let acknowledged = record seen { tx_queue = s.tx_queue ++ (prebuilt ack_frame ∷ []) } in
      let two : length s.tx_queue ≡ length d.tx_queue + 2 = omega (
        arith,
        length-append d.tx_queue (prebuilt ack_frame ∷ []),
        length-append (d.tx_queue ++ (prebuilt ack_frame ∷ [])) (prebuilt response_frame ∷ []),
      ) in
      let ack : enqueue_ack P R types (device P R) request_cmd tx seen ≡ acknowledged =
        enqueue_ack_room P R types (device P R) request_cmd tx ack_frame seen x.acked.made
          (omega (arith, x.acked.fits)) (omega (arith, r.queue, two)) in
      let answer : Stack P R → Stack P R =
        λ a. record a { tx_queue = (enqueue_prebuilt_frame a.tx_queue response_frame true).1 } in
      let queued : Bool × List TxEntry → Stack P R = λ q. record acknowledged { tx_queue = q.1 } in
      push_data_carried P R types (device P R) set_mit_limit_request_packet_traits
        (request tx joint limits) request_frame clock s x.asked l.idle
      ∙ duplicate_replayed P R types (device P R) (clock 0) request_cmd tx response_cmd
          (request tx joint limits) response_frame s request-IsReliable
          (tx_id-request tx joint limits x.small x.size) x.pos
          (on_request_replays P L d.session request_cmd tx response_cmd response_frame [] r.ring
            r.cache r.capacity r.absent l.new (omega arith))
          x.answered.some_bytes x.answered.fits
      ∙ ap answer ack
      ∙ ap queued (
          enqueue_prebuilt_frame_room acknowledged.tx_queue response_frame
            (omega (arith, x.answered.fits))
            (omega (arith, r.queue, two, length-append s.tx_queue (prebuilt ack_frame ∷ []))))
