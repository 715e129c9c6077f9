-- ===== src/TxQueue/Bounds.antt =====
-- The bound of the transmit queue in include/ProtocolStack.hpp, and what a full queue gives up.
use florid_usb_protocols.Prelude.{
  ℕ, suc, ◌+◌, ◌-◌, ◌≤◌, ◌≡◌, refl, Bool, true, false, not, ◌&&◌, ◌||◌, Option, none, some, List,
  [], ◌∷◌, ◌++◌, append-nil, arith, ltb, leb, length, if◌then◌else◌, length-append, take_front,
}
use florid_usb_protocols.Packet.Region.{is_telemetry_cmd}
use florid_usb_protocols.TxQueue.{
  TxEntry, max_frame_size, tx_queue_cap, tx_entry, frame_of, is_telemetry_frame, drop_one_telemetry,
  pop_back, enqueue_pending_frame, enqueue_prebuilt_frame,
}

-- Whether an entry of the queue is telemetry.
abbrev pub has_telemetry : List TxEntry → Bool
has_telemetry [] = false
has_telemetry (x ∷ q) = x.telemetry || has_telemetry q

-- The entries of the queue that are not telemetry, in their order.
abbrev pub reliable : List TxEntry → List TxEntry
reliable [] = []
reliable (x ∷ q) = if x.telemetry then reliable q else x ∷ reliable q

reliable-append : (xs ys : List TxEntry) → reliable (xs ++ ys) ≡ reliable xs ++ reliable ys
reliable-append [] ys = refl
reliable-append (x ∷ xs) ys = ground (arith, reliable-append xs ys)

-- The transport gets the bytes of the frame that was put in.
pub frame_of-tx_entry :
    (frame : List ℕ) (telemetry : Bool) → frame_of (tx_entry frame telemetry) ≡ frame
frame_of-tx_entry frame telemetry = take_front frame _

-- `drop_one_telemetry` finds an entry if there is telemetry, and then takes one out, no command.
drop_one_telemetry_lem :
    (q : List TxEntry)
    → ((drop_one_telemetry q).0 ≡ has_telemetry q)
      × (reliable (drop_one_telemetry q).1 ≡ reliable q)
      × ((if has_telemetry q
            then suc (length (drop_one_telemetry q).1)
            else length (drop_one_telemetry q).1)
          ≡ length q)
unfolding drop_one_telemetry
drop_one_telemetry_lem [] = (refl, refl, refl)
drop_one_telemetry_lem (x ∷ q) = ground (arith, drop_one_telemetry_lem q)

-- `drop_one_telemetry` takes the oldest telemetry entry out of a queue and leaves the others in
-- their order; a queue without telemetry it leaves alone.
pub drop_one_telemetry_oldest :
    (before after : List TxEntry) (x : TxEntry)
    → has_telemetry before ≡ false
    → x.telemetry ≡ true
    → (drop_one_telemetry (before ++ (x ∷ after)) ≡ (true, before ++ after))
      × (drop_one_telemetry before ≡ (false, before))
unfolding drop_one_telemetry
drop_one_telemetry_oldest [] after x h t = (rw t refl, refl)
drop_one_telemetry_oldest (y ∷ before) after x h t =
    ground (arith, h, drop_one_telemetry_oldest before after x)

length-pop_back : (q : List TxEntry) → length (pop_back q) ≡ length q - 1
unfolding pop_back
length-pop_back [] = omega arith
length-pop_back (x ∷ []) = omega arith
length-pop_back (x ∷ y ∷ q) = omega (arith, length-pop_back (y ∷ q))

push_back : (q : List TxEntry) (x : TxEntry) → length (q ++ (x ∷ [])) ≡ length q + 1
push_back q x = length-append q (x ∷ [])

-- `enqueue_pending_frame` never makes a queue within its capacity longer than its capacity, whether
-- the packet could be serialized or not.
pub enqueue_pending_frame-bounded :
    (q : List TxEntry) (cmd : ℕ) (frame : Option (List ℕ))
    → length q ≤ tx_queue_cap
    → length (enqueue_pending_frame q cmd frame).1 ≤ tx_queue_cap
unfolding enqueue_pending_frame
enqueue_pending_frame-bounded q cmd none h = ground (arith, h, drop_one_telemetry_lem q)
enqueue_pending_frame-bounded q cmd (some f) h = ground (
  arith,
  h,
  drop_one_telemetry_lem q,
  push_back q (tx_entry f (is_telemetry_cmd cmd)),
  push_back (drop_one_telemetry q).1 (tx_entry f (is_telemetry_cmd cmd)),
)

-- `enqueue_prebuilt_frame` never makes a queue within its capacity longer than its capacity.
pub enqueue_prebuilt_frame-bounded :
    (q : List TxEntry) (frame : List ℕ) (priority : Bool)
    → length q ≤ tx_queue_cap
    → length (enqueue_prebuilt_frame q frame priority).1 ≤ tx_queue_cap
unfolding enqueue_prebuilt_frame
enqueue_prebuilt_frame-bounded q frame priority h = ground (
  arith,
  h,
  drop_one_telemetry_lem q,
  length-pop_back q,
  push_back q (tx_entry frame (is_telemetry_frame frame)),
  push_back (drop_one_telemetry q).1 (tx_entry frame (is_telemetry_frame frame)),
  push_back (pop_back q) (tx_entry frame (is_telemetry_frame frame)),
)

-- `enqueue_pending_frame` takes a frame that could be serialized if there is room, or telemetry to
-- drop; it never costs a frame that is not telemetry: those in the queue stay, in their order, and
-- the new one comes last if it is taken and is not telemetry itself.
pub enqueue_pending_frame_keeps :
    (q : List TxEntry) (cmd : ℕ) (frame : List ℕ)
    → let (done, q') = enqueue_pending_frame q cmd (some frame) in
      let telemetry = is_telemetry_cmd cmd in
      (done ≡ (ltb (length q) tx_queue_cap || has_telemetry q))
      × (reliable q'
          ≡ reliable q ++ (if done && not telemetry then tx_entry frame telemetry ∷ [] else []))
unfolding enqueue_pending_frame
enqueue_pending_frame_keeps q cmd frame = ground (
  arith,
  drop_one_telemetry_lem q,
  reliable-append q (tx_entry frame (is_telemetry_cmd cmd) ∷ []),
  reliable-append (drop_one_telemetry q).1 (tx_entry frame (is_telemetry_cmd cmd) ∷ []),
  append-nil (reliable q),
)

-- `enqueue_prebuilt_frame` takes a frame exactly if it fits an entry, and there is room, or it has
-- priority, or it is telemetry.
pub enqueue_prebuilt_frame_taken :
    (q : List TxEntry) (frame : List ℕ) (priority : Bool)
    → (enqueue_prebuilt_frame q frame priority).0 ≡ (
        leb (length frame) max_frame_size
        && (ltb (length q) tx_queue_cap || (priority || is_telemetry_frame frame)))
unfolding enqueue_prebuilt_frame
enqueue_prebuilt_frame_taken q frame priority = ground arith

-- While there is room or telemetry to drop, `enqueue_prebuilt_frame` costs no frame that is not
-- telemetry: those in the queue stay, in their order, and the new one comes last if it is taken and
-- is not telemetry itself.
pub enqueue_prebuilt_frame_keeps :
    (q : List TxEntry) (frame : List ℕ) (priority : Bool)
    → (ltb (length q) tx_queue_cap || has_telemetry q) ≡ true
    → let (done, q') = enqueue_prebuilt_frame q frame priority in
      let telemetry = is_telemetry_frame frame in
      reliable q'
      ≡ reliable q ++ (if done && not telemetry then tx_entry frame telemetry ∷ [] else [])
unfolding enqueue_prebuilt_frame
enqueue_prebuilt_frame_keeps q frame priority h = ground (
  arith,
  h,
  drop_one_telemetry_lem q,
  reliable-append q (tx_entry frame (is_telemetry_frame frame) ∷ []),
  reliable-append (drop_one_telemetry q).1 (tx_entry frame (is_telemetry_frame frame) ∷ []),
  append-nil (reliable q),
)
