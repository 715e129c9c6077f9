-- ===== src/IdRing/Key.antt =====
-- compose_dedup_key of include/IdRingBuffer.hpp on 16-bit command ids and 32-bit transaction ids.
use florid_usb_protocols.Prelude.{ℕ, ◌+◌, ◌*◌, ◌%◌, ◌^◌, ◌<◌, bit_or, ◌≡◌, ap, ◌∙◌, arith, ◌≢◌}
use florid_usb_protocols.Prelude.Bits.{bit_or_field}
use florid_usb_protocols.IdRing.{compose_dedup_key}

-- For a 16-bit command id and a 32-bit transaction id, the key has the command id above the 32 bits
-- of the transaction id.
pub compose_dedup_key_lem :
    (cmd tx : ℕ) → cmd < 2 ^ 16 → tx < 2 ^ 32 → compose_dedup_key cmd tx ≡ cmd * 2 ^ 32 + tx
unfolding compose_dedup_key
compose_dedup_key_lem cmd tx hc ht =
    ap (λ (t : ℕ). bit_or t tx) (let e : cmd * 2 ^ 32 % 2 ^ 64 ≡ cmd * 2 ^ 32 = omega arith in e)
    ∙ bit_or_field 32 cmd tx ht

-- Two requests with 16-bit command ids and 32-bit transaction ids have the same key only if both
-- ids are the same.
pub compose_dedup_key_injective :
    (cmd tx cmd' tx' : ℕ)
    → cmd < 2 ^ 16
    → tx < 2 ^ 32
    → cmd' < 2 ^ 16
    → tx' < 2 ^ 32
    → compose_dedup_key cmd tx ≡ compose_dedup_key cmd' tx'
    → (cmd ≡ cmd') × (tx ≡ tx')
compose_dedup_key_injective cmd tx cmd' tx' hc ht hc' ht' e =
    omega (arith, compose_dedup_key_lem cmd tx hc ht, compose_dedup_key_lem cmd' tx' hc' ht', e)

-- A request with a transaction id other than 0 never has the key 0, which an empty slot holds.
pub compose_dedup_key_ne_zero :
    (cmd tx : ℕ) → cmd < 2 ^ 16 → tx < 2 ^ 32 → tx ≢ 0 → compose_dedup_key cmd tx ≢ 0
compose_dedup_key_ne_zero cmd tx hc ht h = omega (arith, compose_dedup_key_lem cmd tx hc ht)
