-- ===== src/IdRing/Order.antt =====
-- The array of include/IdRingBuffer.hpp read in the order of insertion: a queue of fixed length.
use native.Mathlib.Nat.{mod-eq_of_lt, mod_self}
use native.Mathlib.Decide.{dec_lt}
use native.Mathlib.Numerals.{add-one}
use florid_usb_protocols.Prelude.{
  ℕ, zero, suc, ◌+◌, ◌-◌, ◌%◌, ◌^◌, ◌≤◌, ◌<◌, ◌≡◌, refl, ap, sym, ◌∙◌, inl, inr, ◌⊎◌, bit_and, List,
  [], ◌∷◌, ◌++◌, append-nil, arith, length, set, take, drop, take_all, drop_all, length-set,
  append_assoc,
}
use florid_usb_protocols.Prelude.Bits.{bit_and_mask, mod-mod_pow}
use florid_usb_protocols.IdRing.{IdRing}

-- The array has its full length and the index lies in it.
pub record IsValid {ℓ} {T : Type ℓ} (k : ℕ) (r : IdRing T) : Type 0 where
  pub full : length r.ids ≡ 2 ^ k
  pub index : r.write_idx < 2 ^ k

-- The ids in the order in which they were written, the oldest first.
abbrev pub recent {ℓ} : {T : Type ℓ} → IdRing T → List T
recent r = drop r.write_idx r.ids ++ take r.write_idx r.ids

abbrev pub rest {ℓ} : {T : Type ℓ} → List T → List T
rest [] = []
rest (x ∷ xs) = xs

-- The index after a write, with the wrap of `size_t` and the mask.
next_index :
    (w k i : ℕ)
    → k ≤ w
    → i < 2 ^ k
    → ((suc i < 2 ^ k) × (bit_and ((i + 1) % 2 ^ w) (2 ^ k - 1) ≡ suc i))
      ⊎ ((suc i ≡ 2 ^ k) × (bit_and ((i + 1) % 2 ^ w) (2 ^ k - 1) ≡ 0))
next_index w k i fits h =
    rw (bit_and_mask k, mod-mod_pow w k (i + 1) fits)
      (elim (dec_lt (suc i) (2 ^ k)) [
        | yes lt ↦ inl (lt, rw add-one (mod-eq_of_lt lt))
        | no ge ↦ inr (
          omega arith,
          ap (λ (t : ℕ). t % 2 ^ k) (let e : i + 1 ≡ 2 ^ k = omega arith in e) ∙ mod_self (2 ^ k),
        )
      ])

module _ {ℓ} {T : Type ℓ} where
  drop-set : (xs : List T) (i : ℕ) (v : T) → drop (suc i) (set xs i v) ≡ drop (suc i) xs
  drop-set [] i v = refl
  drop-set (x ∷ xs) zero v = refl
  drop-set (x ∷ xs) (suc i) v = drop-set xs i v

  take-set :
      (xs : List T) (i : ℕ) (v : T)
      → i < length xs
      → take (suc i) (set xs i v) ≡ take i xs ++ (v ∷ [])
  take-set [] i v h = absurd (omega arith)
  take-set (x ∷ xs) zero v h = refl
  take-set (x ∷ xs) (suc i) v h = ap (◌∷◌ x) (take-set xs i v (omega arith))

  rest-drop :
      (xs ys : List T) (i : ℕ) → i < length xs → rest (drop i xs ++ ys) ≡ drop (suc i) xs ++ ys
  rest-drop [] ys i h = absurd (omega arith)
  rest-drop (x ∷ xs) ys zero h = refl
  rest-drop (x ∷ xs) ys (suc i) h = rest-drop xs ys i (omega arith)

  -- Replacing the oldest entry and moving the index on appends to the order.
  rotate_step :
      (xs : List T) (i : ℕ) (v : T)
      → i < length xs
      → drop (suc i) (set xs i v) ++ take (suc i) (set xs i v)
        ≡ rest (drop i xs ++ take i xs) ++ (v ∷ [])
  rotate_step xs i v h =
      rw (drop-set xs i v, take-set xs i v h, rest-drop xs (take i xs) i h)
        (sym (append_assoc (drop (suc i) xs) (take i xs) (v ∷ [])))

  -- At the end of the array the index goes back to 0.
  rotate_wrap :
      (xs : List T) (i : ℕ) (v : T)
      → suc i ≡ length xs
      → set xs i v ++ [] ≡ rest (drop i xs ++ take i xs) ++ (v ∷ [])
  rotate_wrap xs i v h =
      append-nil (set xs i v)
      ∙ sym (take_all (suc i) (set xs i v) (omega (arith, length-set xs i v)))
      ∙ take-set xs i v (omega arith)
      ∙ ap (λ t. t ++ (v ∷ []))
          (sym (
            rest-drop xs (take i xs) i (omega arith)
            ∙ ap (λ t. t ++ take i xs) (drop_all (suc i) xs (omega arith))))

  module _ (w k : ℕ) (fits : k ≤ w) where
    pub recent-set :
        (r : IdRing T) (v : T)
        → IsValid k r
        → let i = bit_and ((r.write_idx + 1) % 2 ^ w) (2 ^ k - 1) in
          let xs = set r.ids r.write_idx v in
          (drop i xs ++ take i xs ≡ rest (recent r) ++ (v ∷ [])) × (i < 2 ^ k)
    recent-set r v h = elim (next_index w k r.write_idx fits h.index) [
      | inl (lt, e) ↦ rw e (rotate_step r.ids r.write_idx v (omega (arith, h.full, h.index)), lt)
      | inr (last, e) ↦
          rw e (rotate_wrap r.ids r.write_idx v (omega (arith, h.full)), omega (arith, h.index))
    ]
