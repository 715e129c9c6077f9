-- ===== src/IsrRing.antt =====
-- include/ISRRingBuffer.hpp: the byte ring between the interrupt and the protocol task. A call runs
-- as a whole here; the atomics show one value to both sides.
pub mod Window
pub mod Queue
pub mod Refine
pub mod Interleave
use florid_usb_protocols.Prelude.{
  ℕ, zero, suc, ◌+◌, ◌-◌, ◌%◌, ◌^◌, bit_and, Bool, true, false, ◌||◌, List, [], ◌∷◌, ◌++◌, length,
  set, take, drop, replicate, ltb, leb, ◌==◌, if◌then◌else◌,
}

-- The indices count bytes and wrap at the width of `size_t`.
pub record IsrRing : Type 0 where
  pub buf : List ℕ
  pub write_idx : ℕ
  pub drop_count : ℕ
  pub read_idx : ℕ

-- `a - b` on `size_t` of `w` bits.
abbrev pub sub_size : ℕ → ℕ → ℕ → ℕ
sub_size w a b = (a + 2 ^ w - b) % 2 ^ w

-- memcpy into the array at an index.
pub copy_into : List ℕ → ℕ → List ℕ → List ℕ
copy_into buf i [] = buf
copy_into buf i (x ∷ xs) = copy_into (set buf i x) (i + 1) xs

-- memcpy of `n` bytes from the array at an index.
abbrev pub copy_from : List ℕ → ℕ → ℕ → List ℕ
copy_from buf i n = take n (drop i buf)

-- `size_t` has `w` bits and `Capacity` is `2 ^ k`.
module _ (w k : ℕ) where
  unfoldable pub cleared : IsrRing
  cleared = record { buf = replicate (2 ^ k) 0; write_idx = 0; drop_count = 0; read_idx = 0 }

  pub available : IsrRing → ℕ
  available r = sub_size w r.write_idx r.read_idx

  pub dropped : IsrRing → Bool × IsrRing
  dropped r = (false, record r { drop_count = (r.drop_count + 1) % 2 ^ w })

  -- The two copies of `write`: up to the end of the array, and from its start.
  pub stored : IsrRing → List ℕ → List ℕ
  unfolding copy_into
  stored r bytes =
      let wi = bit_and r.write_idx (2 ^ k - 1) in
      let first = 2 ^ k - wi in
      if leb (length bytes) first
      then copy_into r.buf wi bytes
      else copy_into (copy_into r.buf wi (take first bytes)) 0 (drop first bytes)

  -- `bytes` are the `len` bytes behind `data`.
  unfoldable pub write : IsrRing → List ℕ → Bool × IsrRing
  unfolding dropped stored
  write r bytes =
      if ltb (2 ^ k) (length bytes)
      then dropped r
      else if ltb (sub_size w (2 ^ k) (sub_size w r.write_idx r.read_idx)) (length bytes)
      then dropped r
      else (
        true,
        record r { buf = stored r bytes; write_idx = (r.write_idx + length bytes) % 2 ^ w },
      )

  unfoldable pub dropped_writes : IsrRing → ℕ
  dropped_writes r = r.drop_count

  -- The two copies of `read`.
  pub loaded : IsrRing → ℕ → List ℕ
  loaded r n =
      let ri = bit_and r.read_idx (2 ^ k - 1) in
      let first = 2 ^ k - ri in
      if leb n first
      then copy_from r.buf ri n
      else copy_from r.buf ri first ++ copy_from r.buf 0 (n - first)

  -- The bytes that `read` puts behind `out`, as many as it returns.
  unfoldable pub read : IsrRing → ℕ → List ℕ × IsrRing
  unfolding available
  read r max =
      let avail = available r in
      if avail == 0 || max == 0
      then ([], r)
      else let n = if ltb max avail then max else avail in
        (loaded r n, record r { read_idx = (r.read_idx + n) % 2 ^ w })

  -- `clear` leaves the bytes of the array.
  unfoldable pub clear : IsrRing → IsrRing
  clear r = record r { write_idx = 0; drop_count = 0; read_idx = 0 }
