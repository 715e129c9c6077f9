-- ===== src/Platform/Total.antt =====
-- A sum over the elements of a map does not depend on their order, so it follows the updates.
use florid_usb_protocols.Prelude.{
  ℕ, ◌+◌, ◌≡◌, refl, ap, sym, ◌∙◌, Option, none, some, List, [], ◌∷◌, arith, length,
}
use florid_usb_protocols.Platform.{Platform, IsPlatform}
use florid_usb_protocols.Platform.Lookup.{
  lookup, remove, Uniq, lookup-remove, remove-Uniq, remove_absent,
}

module _ {ℓ} {V : Type ℓ} (weight : V → ℕ) where
  abbrev pub weight_of : Option V → ℕ
  weight_of none = 0
  weight_of (some v) = weight v

  abbrev pub total : List (ℕ × V) → ℕ
  total [] = 0
  total ((k, v) ∷ m) = weight v + total m

  total-remove :
      (k : ℕ) (m : List (ℕ × V)) → Uniq m → total (remove k m) + weight_of (lookup k m) ≡ total m
  total-remove k [] u = omega arith
  total-remove k ((i, v) ∷ m) u = ground (arith, total-remove k m u.1, remove_absent k m)

  -- Two lists with the same elements have the same sum.
  pub total_unique :
      (xs ys : List (ℕ × V))
      → Uniq xs
      → Uniq ys
      → ((k : ℕ) → lookup k xs ≡ lookup k ys)
      → total xs ≡ total ys
  total_unique [] [] ux uy h = refl
  total_unique [] ((k, v) ∷ ys) ux uy h = ground (arith, h k)
  total_unique ((k, v) ∷ xs) ys ux uy h = ground (
    arith,
    total-remove k ys uy,
    h k,
    total_unique xs (remove k ys) ux.1 (remove-Uniq k ys uy) same,
  )
    where
      same : (j : ℕ) → lookup j xs ≡ lookup j (remove k ys)
      same j = ground (arith, lookup-remove j k ys, h j, ux.0)

module _ (P : Platform) (L : IsPlatform P) (V : Type 0) (weight : V → ℕ) where
  pub total-empty : total weight (P.entries V (P.empty V)) ≡ 0
  total-empty =
      go (P.entries V (P.empty V)) (λ k. sym (L.find-entries V k (P.empty V)) ∙ L.find-empty V k)
    where
      go : (xs : List (ℕ × V)) → ((k : ℕ) → lookup k xs ≡ none) → total weight xs ≡ 0
      go [] h = refl
      go ((k, v) ∷ xs) h = ground (arith, h k)

  pub total-insert :
      (k : ℕ) (v : V) (m : P.Map V)
      → total weight (P.entries V (P.insert_or_assign V k v m)) + weight_of weight (P.find V k m)
        ≡ total weight (P.entries V m) + weight v
  total-insert k v m = omega (
    arith,
    total_unique weight (P.entries V (P.insert_or_assign V k v m))
        ((k, v) ∷ remove k (P.entries V m)) (L.entries-Uniq V (P.insert_or_assign V k v m))
        ((absent, remove-Uniq k (P.entries V m) (L.entries-Uniq V m))) same,
    total-remove weight k (P.entries V m) (L.entries-Uniq V m),
    ap (weight_of weight) (L.find-entries V k m),
  )
    where
      absent : lookup k (remove k (P.entries V m)) ≡ none
      absent = ground (arith, lookup-remove k k (P.entries V m))

      same :
          (j : ℕ)
          → lookup j (P.entries V (P.insert_or_assign V k v m))
            ≡ lookup j ((k, v) ∷ remove k (P.entries V m))
      same j = ground (
        arith,
        L.find-entries V j (P.insert_or_assign V k v m),
        L.find-insert V j k v m,
        L.find-entries V j m,
        lookup-remove j k (P.entries V m),
      )

  pub total-erase :
      (k : ℕ) (m : P.Map V)
      → total weight (P.entries V (P.erase V k m)) + weight_of weight (P.find V k m)
        ≡ total weight (P.entries V m)
  total-erase k m = omega (
    arith,
    total_unique weight (P.entries V (P.erase V k m)) (remove k (P.entries V m))
        (L.entries-Uniq V (P.erase V k m)) (remove-Uniq k (P.entries V m) (L.entries-Uniq V m))
        same,
    total-remove weight k (P.entries V m) (L.entries-Uniq V m),
    ap (weight_of weight) (L.find-entries V k m),
  )
    where
      same : (j : ℕ) → lookup j (P.entries V (P.erase V k m)) ≡ lookup j (remove k (P.entries V m))
      same j = ground (
        arith,
        L.find-entries V j (P.erase V k m),
        L.find-erase V j k m,
        L.find-entries V j m,
        lookup-remove j k (P.entries V m),
      )

pub total-one {ℓ} : {V : Type ℓ} (m : List (ℕ × V)) → total (λ (v : V). 1) m ≡ length m
total-one [] = refl
total-one ((k, v) ∷ m) = omega (arith, total-one m)

pub length-erase :
    (P : Platform)
    → IsPlatform P
    → (V : Type 0) (k : ℕ) (v : V) (m : P.Map V) → P.find V k m ≡ some v
    → length (P.entries V (P.erase V k m)) + 1 ≡ length (P.entries V m)
length-erase P L V k v m present = omega (
  arith,
  total-erase P L V (λ _. 1) k m,
  total-one (P.entries V (P.erase V k m)),
  total-one (P.entries V m),
  ap (weight_of (λ (v : V). 1)) present,
)
