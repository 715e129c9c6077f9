-- ===== src/IdRing/Retention.antt =====
-- Rows of calls of `test_and_insert` in include/IdRingBuffer.hpp.
use florid_usb_protocols.Prelude.{
  ℕ, zero, suc, ◌-◌, ◌^◌, ◌≤◌, ◌<◌, ◌≡◌, refl, ap, ◌∙◌, sym, inl, inr, true, false, List, [], ◌∷◌,
  ◌++◌, arith, Bool-cases, length, drop, set, replicate,
}
use florid_usb_protocols.Prelude.Eq.{Regular}
use florid_usb_protocols.IdRing.{IdRing, contains, test_and_insert, cleared}
use florid_usb_protocols.IdRing.Order.{IsValid, recent, rest}
use florid_usb_protocols.IdRing.Window.{
  remember, contains-append, length-recent, test_and_insert-IsValid, test_and_insert_refines,
}

module _ {ℓ} {T : Type ℓ} ⦃e : Regular T⦄ where
  -- A row of calls of `test_and_insert`, whose answers are thrown away.
  unfoldable pub insert_all : ℕ → ℕ → IdRing T → List T → IdRing T
  insert_all w k r [] = r
  insert_all w k r (x ∷ xs) = insert_all w k (test_and_insert w k r x).1 xs

  contains-drop :
      (n : ℕ) (q : List T) (id : T) → contains (drop n q) id ≡ true → contains q id ≡ true
  unfolding contains
  contains-drop zero q id h = h
  contains-drop (suc n) [] id h = h
  contains-drop (suc n) (x ∷ q) id h = ground (arith, contains-drop n q id h)

  contains-drop_less :
      (n : ℕ) (q : List T) (id : T)
      → contains (drop (suc n) q) id ≡ true
      → contains (drop n q) id ≡ true
  unfolding contains
  contains-drop_less n [] id h = cc
  contains-drop_less zero (x ∷ q) id h = ground arith
  contains-drop_less (suc n) (x ∷ q) id h = contains-drop_less n q id h

  contains-drop-append :
      (n : ℕ) (q ys : List T) (id : T)
      → contains (drop n q) id ≡ true
      → contains (drop n (q ++ ys)) id ≡ true
  unfolding contains
  contains-drop-append zero q ys id h = ground (arith, contains-append q ys id)
  contains-drop-append (suc n) [] ys id h = cc
  contains-drop-append (suc n) (x ∷ q) ys id h = contains-drop-append n q ys id h

  contains-drop_last :
      (n : ℕ) (q : List T) (id : T) → n ≤ length q → contains (drop n (q ++ (id ∷ []))) id ≡ true
  unfolding contains
  contains-drop_last zero [] id h = rw (e.beq_iff id id).1 refl
  contains-drop_last zero (x ∷ q) id h = ground (arith, contains-drop_last zero q id (omega arith))
  contains-drop_last (suc n) [] id h = absurd (omega arith)
  contains-drop_last (suc n) (x ∷ q) id h = contains-drop_last n q id (omega arith)

  length-rest : (q : List T) → length (rest q) ≡ length q - 1
  length-rest [] = omega arith
  length-rest (x ∷ q) = omega arith

  -- An id moves one place nearer to the end of the queue with each new id.
  remember_held :
      (n : ℕ) (q : List T) (id x : T)
      → contains (drop (suc n) q) id ≡ true
      → contains (drop n (remember q x).1) id ≡ true
  unfolding remember contains
  remember_held n [] id x h = cc
  remember_held n (y ∷ q) id x h = elim (Bool-cases (contains (y ∷ q) x)) [
    | inl old ↦ rw old (contains-drop_less n (y ∷ q) id h)
    | inr new ↦ rw new (contains-drop-append n q (x ∷ []) id h)
  ]

  module _ (w k : ℕ) (fits : k ≤ w) where
    held :
        (xs : List T) (n : ℕ) (r : IdRing T) (id : T)
        → IsValid k r
        → length xs ≤ n
        → contains (drop n (recent r)) id ≡ true
        → contains (recent (insert_all w k r xs)) id ≡ true
    unfolding insert_all
    held [] n r id v h c = contains-drop n (recent r) id c
    held (x ∷ xs) zero r id v h c = absurd (omega arith)
    held (x ∷ xs) (suc n) r id v h c =
        held xs n (test_and_insert w k r x).1 id (test_and_insert-IsValid w k fits r x v)
          (omega arith)
          (ap (λ t. contains (drop n t) id) (ap (λ p. p.1) (test_and_insert_refines w k fits r x v))
            ∙ remember_held n (recent r) id x c)

    insert_all-IsValid :
        (xs : List T) (r : IdRing T) → IsValid k r → IsValid k (insert_all w k r xs)
    unfolding insert_all
    insert_all-IsValid [] r v = v
    insert_all-IsValid (x ∷ xs) r v =
        insert_all-IsValid xs _ (test_and_insert-IsValid w k fits r x v)

    seen_recent :
        (r : IdRing T) (id : T)
        → IsValid k r
        → (test_and_insert w k r id).0 ≡ contains (recent r) id
    unfolding remember
    seen_recent r id v = ap (λ p. p.0) (test_and_insert_refines w k fits r id v) ∙ ground arith

    -- A new id goes to the end of the queue.
    newest :
        (r : IdRing T) (id : T)
        → IsValid k r
        → (test_and_insert w k r id).0 ≡ false
        → contains (drop (2 ^ k - 1) (recent (test_and_insert w k r id).1)) id ≡ true
    unfolding remember
    newest r id v new =
        ap (λ t. contains (drop (2 ^ k - 1) t) id)
          (ap (λ p. p.1) (test_and_insert_refines w k fits r id v)
            ∙ rw (sym (seen_recent r id v) ∙ new) refl)
        ∙ contains-drop_last (2 ^ k - 1) (rest (recent r)) id
            (omega (arith, length-recent r v, length-rest (recent r)))

    -- In a valid ring whose size fits `size_t`, an id that was new is reported as seen after it is
    -- inserted and other ids are inserted, fewer than the ring has slots.
    pub test_and_insert_remembers :
        (r : IdRing T) (id : T) (xs : List T)
        → IsValid k r
        → (test_and_insert w k r id).0 ≡ false
        → length xs < 2 ^ k
        → (test_and_insert w k (insert_all w k (test_and_insert w k r id).1 xs) id).0 ≡ true
    test_and_insert_remembers r id xs v new h =
        let s = (test_and_insert w k r id).1 in
        let sv = test_and_insert-IsValid w k fits r id v in
        seen_recent (insert_all w k s xs) id (insert_all-IsValid xs s sv)
        ∙ held xs (2 ^ k - 1) s id sv (omega arith) (newest r id v new)

  contains-set :
      (xs : List T) (i : ℕ) (x id : T)
      → contains xs id ≡ false
      → e.beq x id ≡ false
      → contains (set xs i x) id ≡ false
  unfolding contains
  contains-set [] i x id h n = refl
  contains-set (y ∷ xs) zero x id h n = ground arith
  contains-set (y ∷ xs) (suc i) x id h n = ground (arith, contains-set xs i x id)

  insert_all-absent :
      (w k : ℕ) (r : IdRing T) (xs : List T) (id : T)
      → contains xs id ≡ false
      → contains r.ids id ≡ false
      → contains (insert_all w k r xs).ids id ≡ false
  unfolding insert_all
  insert_all-absent w k r [] id h c = c
  insert_all-absent w k r (x ∷ xs) id h c =
      insert_all-absent w k (test_and_insert w k r x).1 xs id (unfold contains in ground arith)
        (unfold contains test_and_insert in ground (arith, contains-set r.ids r.write_idx x id))

  contains-replicate : (n : ℕ) (x id : T) → e.beq x id ≡ false → contains (replicate n x) id ≡ false
  unfolding contains
  contains-replicate zero x id h = refl
  contains-replicate (suc n) x id h = ground (arith, contains-replicate n x id)

  -- An id that is not `T{}`, and was not inserted since the ring was cleared, is never reported as
  -- seen.
  pub insert_all_no_false_positive :
      (w k : ℕ) (xs : List T) (id : T)
      → contains xs id ≡ false
      → e.beq e.blank id ≡ false
      → (test_and_insert w k (insert_all w k (cleared k) xs) id).0 ≡ false
  unfolding test_and_insert cleared
  insert_all_no_false_positive w k xs id h b =
      ground
        (arith, insert_all-absent w k (cleared k) xs id h (contains-replicate (2 ^ k) e.blank id b))
