-- ===== src/Platform/Lookup.antt =====
-- Lists of keys and values with distinct keys: the elements of a map in some order.
use florid_usb_protocols.Prelude.{
  ℕ, ◌≡◌, refl, false, Option, none, some, List, [], ◌∷◌, ◌++◌, arith, ◌==◌, if◌then◌else◌, length,
  get_elem?,
}

module _ {ℓ} {V : Type ℓ} where
  abbrev pub lookup : ℕ → List (ℕ × V) → Option V
  lookup k [] = none
  lookup k ((j, v) ∷ m) = if j == k then some v else lookup k m

  abbrev pub replace : ℕ → V → List (ℕ × V) → List (ℕ × V)
  replace k v [] = []
  replace k v ((j, u) ∷ m) = if j == k then (k, v) ∷ m else (j, u) ∷ replace k v m

  abbrev pub remove : ℕ → List (ℕ × V) → List (ℕ × V)
  remove k [] = []
  remove k ((j, v) ∷ m) = if j == k then remove k m else (j, v) ∷ remove k m

  abbrev pub Uniq : List (ℕ × V) → Type ℓ
  Uniq [] = Unit
  Uniq ((k, v) ∷ m) = (lookup k m ≡ none) × Uniq m

  pub lookup-remove :
      (j k : ℕ) (m : List (ℕ × V)) → lookup j (remove k m) ≡ (if k == j then none else lookup j m)
  lookup-remove j k [] = ground arith
  lookup-remove j k ((i, v) ∷ m) = ground (arith, lookup-remove j k m)

  pub remove-Uniq : (k : ℕ) (m : List (ℕ × V)) → Uniq m → Uniq (remove k m)
  remove-Uniq k [] u = tt
  remove-Uniq k ((i, v) ∷ m) u = ground (arith, remove-Uniq k m u.1, lookup-remove i k m)

  pub remove_absent : (k : ℕ) (m : List (ℕ × V)) → lookup k m ≡ none → remove k m ≡ m
  remove_absent k [] h = refl
  remove_absent k ((i, v) ∷ m) h = ground (arith, remove_absent k m)

  pub lookup-replace :
      (j k : ℕ) (v u : V) (m : List (ℕ × V))
      → lookup k m ≡ some u
      → lookup j (replace k v m) ≡ (if k == j then some v else lookup j m)
  lookup-replace j k v u [] h = cc
  lookup-replace j k v u ((i, w) ∷ m) h = ground (arith, lookup-replace j k v u m)

  pub lookup-append :
      (k : ℕ) (xs ys : List (ℕ × V))
      → lookup k (xs ++ ys) ≡ elim (lookup k xs) [ none ↦ lookup k ys | some v ↦ some v ]
  lookup-append k [] ys = refl
  lookup-append k ((i, w) ∷ xs) ys = ground (arith, lookup-append k xs ys)

  pub Uniq-append :
      (xs ys : List (ℕ × V)) (k : ℕ) (v : V)
      → Uniq (xs ++ ys)
      → lookup k xs ≡ some v
      → lookup k ys ≡ none
  Uniq-append [] ys k v u h = cc
  Uniq-append ((i, w) ∷ xs) ys k v u h =
      ground (arith, Uniq-append xs ys k v u.1, lookup-append i xs ys, u.0)

  -- An element in the middle is the one with its key.
  pub lookup-middle :
      (k : ℕ) (v : V) (before after : List (ℕ × V))
      → Uniq (before ++ ((k, v) ∷ after))
      → (lookup k before ≡ none) × (lookup k after ≡ none)
  lookup-middle k v [] after u = (refl, u.0)
  lookup-middle k v ((i, w) ∷ before) after u =
      ground
        (arith, lookup-middle k v before after u.1, lookup-append i before ((k, v) ∷ after), u.0)

  pub replace-middle :
      (k : ℕ) (v w : V) (before after : List (ℕ × V))
      → lookup k before ≡ none
      → replace k w (before ++ ((k, v) ∷ after)) ≡ before ++ ((k, w) ∷ after)
  replace-middle k v w [] after h = ground arith
  replace-middle k v w ((i, u) ∷ before) after h = ground (arith, replace-middle k v w before after)

  pub get_elem?-middle :
      (x : ℕ × V) (before after : List (ℕ × V))
      → get_elem? (before ++ (x ∷ after)) (length before) ≡ some x
  get_elem?-middle x [] after = refl
  get_elem?-middle x (y ∷ before) after = get_elem?-middle x before after

  pub get_elem?-end : (xs : List (ℕ × V)) → get_elem? xs (length xs) ≡ none
  get_elem?-end [] = refl
  get_elem?-end (x ∷ xs) = get_elem?-end xs

  -- A list with one key.
  pub lookup_single :
      (k : ℕ) (v : V) (m : List (ℕ × V))
      → Uniq m
      → lookup k m ≡ some v
      → ((j : ℕ) → (k == j) ≡ false → lookup j m ≡ none)
      → m ≡ (k, v) ∷ []
  lookup_single k v [] u here alone = cc
  lookup_single k v ((j, w) ∷ []) u here alone = ground (arith, here)
  lookup_single k v ((j, w) ∷ (i, x) ∷ m) u here alone = ground (arith, here, u.0, alone j, alone i)
