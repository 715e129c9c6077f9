-- ===== src/IdRing/Window.antt =====
-- include/IdRingBuffer.hpp against a queue of fixed length, its specification.
use florid_usb_protocols.Prelude.{
  ℕ, ◌^◌, ◌≤◌, ◌≡◌, refl, ap, sym, ◌∙◌, inl, inr, Bool, true, false, ◌||◌, List, [], ◌∷◌, ◌++◌,
  append-nil, arith, if◌then◌else◌, Bool-cases, length, take, drop, replicate, length-set,
  length-append, length-take, length-drop, length-replicate, take-append-drop,
}
use native.Mathlib.Nat.{one-le-pow}
use florid_usb_protocols.Prelude.Eq.{Regular}
use florid_usb_protocols.IdRing.{IdRing, contains, test_and_insert, cleared}
use florid_usb_protocols.IdRing.Order.{IsValid, recent, rest, recent-set}

module _ {ℓ} {T : Type ℓ} ⦃e : Regular T⦄ where
  -- The specification: a queue of fixed length that forgets its oldest id for each new one.
  unfoldable pub remember : List T → T → Bool × List T
  remember q id = if contains q id then (true, q) else (false, rest q ++ (id ∷ []))

  pub contains-append :
      (xs ys : List T) (id : T) → contains (xs ++ ys) id ≡ (contains xs id || contains ys id)
  unfolding contains
  contains-append [] ys id = refl
  contains-append (x ∷ xs) ys id = ground (arith, contains-append xs ys id)

  contains-take-drop :
      (xs : List T) (i : ℕ) (id : T) → contains (drop i xs ++ take i xs) id ≡ contains xs id
  contains-take-drop xs i id =
      contains-append (drop i xs) (take i xs) id
      ∙ or_comm (contains (drop i xs) id) (contains (take i xs) id)
      ∙ sym (contains-append (take i xs) (drop i xs) id)
      ∙ ap (λ t. contains t id) (take-append-drop i xs)
    where
      or_comm : (a b : Bool) → (a || b) ≡ (b || a)
      or_comm a b = ground arith

  pub length-recent : {k : ℕ} (r : IdRing T) → IsValid k r → length (recent r) ≡ 2 ^ k
  length-recent r v = omega (
    arith,
    length-append (drop r.write_idx r.ids) (take r.write_idx r.ids),
    length-drop r.write_idx r.ids,
    length-take r.write_idx r.ids,
    v.full,
    v.index,
  )

  -- A fresh or cleared ring is valid and holds nothing but `T{}`.
  pub cleared_lem :
      (k : ℕ)
      → IsValid k (cleared {T = T} k) × (recent (cleared {T = T} k) ≡ replicate (2 ^ k) e.blank)
  unfolding cleared
  cleared_lem k = (
    record { full = length-replicate (2 ^ k) e.blank; index = one-le-pow k 2 (omega arith) },
    append-nil _,
  )

  module _ (w k : ℕ) (fits : k ≤ w) where
    -- `test_and_insert` keeps the array and the index valid.
    pub test_and_insert-IsValid :
        (r : IdRing T) (id : T) → IsValid k r → IsValid k (test_and_insert w k r id).1
    unfolding test_and_insert
    test_and_insert-IsValid r id v = elim (Bool-cases (contains r.ids id)) [
      | inl old ↦ rw old v
      | inr new ↦ rw new (record {
        full = length-set r.ids r.write_idx id ∙ v.full;
        index = (recent-set w k fits r id v).1;
      })
    ]

    -- For a valid ring whose size fits `size_t`: `test_and_insert` answers as a queue of fixed
    -- length does that forgets its oldest id for each new one, and leaves the ring holding the
    -- queue's ids in their order.
    pub test_and_insert_refines :
        (r : IdRing T) (id : T)
        → IsValid k r
        → let (seen, r') = test_and_insert w k r id in (seen, recent r') ≡ remember (recent r) id
    unfolding test_and_insert remember
    test_and_insert_refines r id v =
        rw (contains-take-drop r.ids r.write_idx id) (elim (Bool-cases (contains r.ids id)) [
          | inl old ↦ rw old refl
          | inr new ↦ rw new (ap (λ q. (false, q)) (recent-set w k fits r id v).0)
        ])
