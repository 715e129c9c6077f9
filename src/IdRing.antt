-- ===== src/IdRing.antt =====
-- include/IdRingBuffer.hpp: the ring of the ids seen last, and the key that the session keeps in it.
pub mod Order
pub mod Window
pub mod Key
pub mod Retention
use florid_usb_protocols.Prelude.{
  ℕ, ◌+◌, ◌-◌, ◌*◌, ◌%◌, ◌^◌, bit_and, bit_or, Bool, true, false, List, [], ◌∷◌, set, replicate,
  if◌then◌else◌,
}
use florid_usb_protocols.Prelude.Eq.{Regular}

-- `IdRingBuffer<T, Capacity>`: `ids` is the array, oldest entry at `write_idx`.
pub record IdRing {ℓ} (T : Type ℓ) : Type ℓ where
  pub ids : List T
  pub write_idx : ℕ

module _ {ℓ} {T : Type ℓ} ⦃e : Regular T⦄ where
  -- The scan of `test_and_insert`, which stops at the first id that is equal.
  unfoldable pub contains : List T → T → Bool
  contains [] id = false
  contains (x ∷ xs) id = if e.beq x id then true else contains xs id

  -- `Capacity` is `2 ^ k`, as the static_assert asks; `size_t` has `w` bits.
  module _ (w k : ℕ) where
    unfoldable pub test_and_insert : IdRing T → T → Bool × IdRing T
    test_and_insert r id = if contains r.ids id then (true, r) else (
      false,
      record {
        ids = set r.ids r.write_idx id;
        write_idx = bit_and ((r.write_idx + 1) % 2 ^ w) (2 ^ k - 1);
      },
    )

  -- The ring as it is constructed, and after `clear`: every slot is `T{}`.
  unfoldable pub cleared : ℕ → IdRing T
  cleared k = record { ids = replicate (2 ^ k) e.blank; write_idx = 0 }

-- `using DedupKey = uint64_t`
abbrev pub DedupKey : Type 0
DedupKey = ℕ

-- `uint64_t(cmd_id) << 32 | tx_id`
unfoldable pub compose_dedup_key : ℕ → ℕ → DedupKey
compose_dedup_key cmd_id tx_id = bit_or (cmd_id * 2 ^ 32 % 2 ^ 64) tx_id

-- `using DedupRingBuffer = IdRingBuffer<DedupKey, 64>`, so `k` is 6.
abbrev pub seen_id_ring_bits : ℕ
seen_id_ring_bits = 6
