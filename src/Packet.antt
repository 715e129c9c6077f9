-- ===== src/Packet.antt =====
-- The packed structs of include/ArmCommand.hpp and include/ArmStatus.hpp: their members in order,
-- with `#pragma pack(push, 1)`, so no padding stands between them. A struct is little-endian.
pub mod Enums
pub mod Payloads
pub mod Structs
pub mod Traits
pub mod Region
pub mod Exchange
use Prim.Native.String.{String}
use text.Mathlib.Text.{◌==◌ as str_eq}
use florid_usb_protocols.Prelude.{
  ℕ, zero, suc, ◌+◌, ◌*◌, ◌/◌, ◌%◌, ◌^◌, Bool, true, false, ◌||◌, Option, none, some, List, [], ◌∷◌,
  take, drop, if◌then◌else◌,
}

-- `bits n` is a bit field; an enum class has the layout of its `uint8_t`.
mutual
  pub data Layout : Type 0 where
    u8 u16 u32 u64 f32 : Layout
    bits : ℕ → Layout
    array : ℕ → Layout → Layout
    struct : Members → Layout

  pub data Members : Type 0 where
    end : Members
    member : String → Layout → Members → Members

unfoldable mutual
  pub bit_size : Layout → ℕ
  bit_size u8 = 8
  bit_size u16 = 16
  bit_size u32 = 32
  bit_size u64 = 64
  bit_size f32 = 32
  bit_size (bits n) = n
  bit_size (array n l) = n * bit_size l
  bit_size (struct ms) = bit_sizes ms

  pub bit_sizes : Members → ℕ
  bit_sizes end = 0
  bit_sizes (member name l ms) = bit_size l + bit_sizes ms

-- `sizeof(T)`
unfoldable pub sizeof : Layout → ℕ
unfolding bit_size
sizeof l = bit_size l / 8

-- The bytes in front of a member, if the struct has it.
unfoldable pub offset : String → Members → Option ℕ
unfolding sizeof
offset name end = none
offset name (member m l ms) =
    if str_eq m name
    then some 0
    else elim (offset name ms) [ none ↦ none | some k ↦ some (sizeof l + k) ]

-- `requires(const T& t) { t.tx_id; }`, and where `tx_id` stands.
unfoldable pub tx_id_offset : Layout → Option ℕ
unfolding offset
tx_id_offset (struct ms) = offset "tx_id" ms
tx_id_offset _ = none

-- A number from its bytes, the lowest first, and the other way.
unfoldable pub from_bytes : List ℕ → ℕ
from_bytes [] = 0
from_bytes (b ∷ bs) = b + 256 * from_bytes bs

unfoldable pub to_bytes : ℕ → ℕ → List ℕ
to_bytes zero x = []
to_bytes (suc n) x = x % 256 ∷ to_bytes n (x / 256)

-- `reinterpret_cast<const T*>(data)->tx_id`, a uint32_t.
unfoldable pub load_tx_id : ℕ → List ℕ → ℕ
unfolding from_bytes
load_tx_id k bytes = from_bytes (take 4 (drop k bytes))

-- A specialisation of RPL::Meta::PacketTraits, with the struct that it is for.
pub record PacketTraits : Type 0 where
  pub layout : Layout
  pub cmd : ℕ
  pub size : ℕ
  pub skip_memory_pool : Bool
