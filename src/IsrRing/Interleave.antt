-- ===== src/IsrRing/Interleave.antt =====
-- `write` and `read` of include/ISRRingBuffer.hpp as they run at the same time, one by the interrupt
-- and one by the protocol task: each load, store and copied byte is a step of its own. The atomics
-- are taken to be sequentially consistent; `m_read_idx`, which is not atomic, is read as one value.
pub mod Knowledge
pub mod Stores
pub mod Order
pub mod Calls
pub mod Whole
use florid_usb_protocols.Prelude.{
  ℕ, ◌+◌, ◌-◌, ◌%◌, ◌^◌, ◌≤◌, ◌<◌, ◌≡◌, bit_and, ◌||◌, true, false, List, [], ◌∷◌, ◌++◌, length,
  get_or, set, ltb, ◌==◌, if◌then◌else◌,
}
use florid_usb_protocols.IsrRing.{IsrRing, sub_size, cleared}

-- Where the interrupt stands in `write`, with its variables.
pub data Writer : Type 0 where
  waiting : Writer
  loaded : (bytes : List ℕ) (w_idx : ℕ) → Writer  -- `w` is read
  copying : (copied rest : List ℕ) (w_idx : ℕ) → Writer  -- within the memcpys

-- Where the task stands in `read`.
pub data Reader : Type 0 where
  resting : Reader
  fetching : (out : List ℕ) (n : ℕ) → Reader  -- `avail` is read, and `out` is copied so far

-- The bytes that writes have taken and those that reads have returned stand beside the ring.
pub record System : Type 0 where
  pub ring : IsrRing
  pub writer : Writer
  pub reader : Reader
  pub taken : List ℕ
  pub returned : List ℕ

-- A write that is refused is counted.
abbrev pub drop_one : ℕ → IsrRing → IsrRing
drop_one w r = record r { drop_count = (r.drop_count + 1) % 2 ^ w }

-- `size_t` has `w` bits and `Capacity` is `2 ^ k`.
module _ (w k : ℕ) where
  -- The place of the byte `j` of a copy that starts at the index `i` and goes on at the front.
  unfoldable pub slot : ℕ → ℕ → ℕ
  slot i j =
      let at = bit_and i (2 ^ k - 1) in
      let first = 2 ^ k - at in if ltb j first then at + j else j - first

  pub data Step (s : System) : System → Type 0 where
    too_long :
        (bytes : List ℕ)
        → s.writer ≡ waiting
        → 2 ^ k < length bytes
        → Step s (record s { ring = drop_one w s.ring })
    load_write :
        (bytes : List ℕ)
        → s.writer ≡ waiting
        → length bytes ≤ 2 ^ k
        → Step s (record s { writer = loaded bytes s.ring.write_idx })
    no_room :
        {bytes : List ℕ} {i : ℕ}
        → s.writer ≡ loaded bytes i
        → sub_size w (2 ^ k) (sub_size w i s.ring.read_idx) < length bytes
        → Step s (record s { ring = drop_one w s.ring; writer = waiting })
    room :
        {bytes : List ℕ} {i : ℕ}
        → s.writer ≡ loaded bytes i
        → length bytes ≤ sub_size w (2 ^ k) (sub_size w i s.ring.read_idx)
        → Step s (record s { writer = copying [] bytes i })
    copy :
        {x : ℕ} {copied rest : List ℕ} {i : ℕ}
        → s.writer ≡ copying copied (x ∷ rest) i
        → Step s (record s {
          ring = record s.ring { buf = set s.ring.buf (slot i (length copied)) x };
          writer = copying (copied ++ (x ∷ [])) rest i;
        })
    store_write :
        {copied : List ℕ} {i : ℕ}
        → s.writer ≡ copying copied [] i
        → Step s (record s {
          ring = record s.ring { write_idx = (i + length copied) % 2 ^ w };
          writer = waiting;
          taken = s.taken ++ copied;
        })
    nothing :
        (max : ℕ)
        → s.reader ≡ resting
        → (sub_size w s.ring.write_idx s.ring.read_idx == 0 || max == 0) ≡ true
        → Step s s
    load_avail :
        (max : ℕ)
        → s.reader ≡ resting
        → (sub_size w s.ring.write_idx s.ring.read_idx == 0 || max == 0) ≡ false
        → Step s (record s {
          reader = fetching [] (
              if ltb max (sub_size w s.ring.write_idx s.ring.read_idx)
              then max
              else sub_size w s.ring.write_idx s.ring.read_idx);
        })
    fetch :
        {out : List ℕ} {n : ℕ}
        → s.reader ≡ fetching out n
        → length out < n
        → Step s (record s {
          reader =
              fetching (out ++ (get_or s.ring.buf (slot s.ring.read_idx (length out)) 0 ∷ [])) n;
        })
    store_read :
        {out : List ℕ} {n : ℕ}
        → s.reader ≡ fetching out n
        → length out ≡ n
        → Step s (record s {
          ring = record s.ring { read_idx = (s.ring.read_idx + n) % 2 ^ w };
          reader = resting;
          returned = s.returned ++ out;
        })

  unfoldable pub begin : System
  begin = record {
    ring = cleared w k;
    writer = waiting;
    reader = resting;
    taken = [];
    returned = [];
  }

  pub data Reach : System → Type 0 where
    start : Reach begin
    later : {s t : System} → Reach s → Step s t → Reach t
