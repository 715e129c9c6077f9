-- ===== src/Platform.antt =====
-- What include/*.hpp take from elsewhere: the width of `size_t`, which differs between the host
-- and the firmware, and the hash map ankerl::unordered_dense::map, whose keys are all integers.
pub mod Lookup
pub mod Total
pub mod AssocMap
use florid_usb_protocols.Prelude.{
  ℕ, ◌≤◌, ◌≡◌, Option, none, some, List, [], ◌∷◌, ◌++◌, ◌==◌, if◌then◌else◌,
}
use Lookup.{lookup, replace, Uniq}

-- The map's `find`, `insert_or_assign`, `erase`, and its elements in the order of iteration.
pub record Platform : Type 1 where
  pub size_bits : ℕ
  pub Map : Type 0 → Type 0
  pub empty : (V : Type 0) → Map V
  pub find : (V : Type 0) → ℕ → Map V → Option V
  pub insert_or_assign : (V : Type 0) → ℕ → V → Map V → Map V
  pub erase : (V : Type 0) → ℕ → Map V → Map V
  pub entries : (V : Type 0) → Map V → List (ℕ × V)

-- The documented behaviour of the map that the sources rely on. Iteration visits each key once.
-- A write to a key that is present leaves the order alone. `erase` leaves the elements in front of
-- the erased one in their places; those behind it may be reordered.
pub record IsPlatform (P : Platform) : Type 1 where
  pub wide : 32 ≤ P.size_bits
  pub find-empty : (V : Type 0) (k : ℕ) → P.find V k (P.empty V) ≡ none
  pub find-insert :
      (V : Type 0) (j k : ℕ) (v : V) (m : P.Map V)
      → P.find V j (P.insert_or_assign V k v m) ≡ (if k == j then some v else P.find V j m)
  pub find-erase :
      (V : Type 0) (j k : ℕ) (m : P.Map V)
      → P.find V j (P.erase V k m) ≡ (if k == j then none else P.find V j m)
  pub find-entries : (V : Type 0) (k : ℕ) (m : P.Map V) → P.find V k m ≡ lookup k (P.entries V m)
  pub entries-Uniq : (V : Type 0) (m : P.Map V) → Uniq (P.entries V m)
  pub entries-assign :
      (V : Type 0) (k : ℕ) (u v : V) (m : P.Map V)
      → P.find V k m ≡ some u
      → P.entries V (P.insert_or_assign V k v m) ≡ replace k v (P.entries V m)
  pub entries-erase :
      (V : Type 0) (k : ℕ) (v : V) (m : P.Map V) (before after : List (ℕ × V))
      → P.entries V m ≡ before ++ ((k, v) ∷ after)
      → (moved : List (ℕ × V)) × (P.entries V (P.erase V k m) ≡ before ++ moved)
