-- ===== src/Platform/AssocMap.antt =====
-- A platform that behaves as the documentation asks: maps are association lists, where an element
-- in front hides those behind it with the same key, and erasure keeps the order.
use florid_usb_protocols.Prelude.{
  ℕ, ◌≤◌, ◌≡◌, ◌≢◌, refl, ap, sym, subst, ◌∙◌, inl, inr, none, some, List, [], ◌∷◌, ◌++◌, arith,
  ◌==◌, if◌then◌else◌, Option-cases,
}
use florid_usb_protocols.Platform.{Platform, IsPlatform}
use florid_usb_protocols.Platform.Lookup.{
  lookup, replace, remove, Uniq, lookup-remove, remove-Uniq, remove_absent, lookup-replace,
  lookup-append,
}

module _ {V : Type 0} where
  abbrev pub distinct : List (ℕ × V) → List (ℕ × V)
  distinct [] = []
  distinct ((k, v) ∷ m) = (k, v) ∷ remove k (distinct m)

  abbrev pub assign : ℕ → V → List (ℕ × V) → List (ℕ × V)
  assign k v m = elim (lookup k m) [ none ↦ m ++ ((k, v) ∷ []) | some u ↦ replace k v m ]

  lookup-assign :
      (j k : ℕ) (v : V) (m : List (ℕ × V))
      → lookup j (assign k v m) ≡ (if k == j then some v else lookup j m)
  lookup-assign j k v m = elim (Option-cases (lookup k m)) [
    | inl absent ↦ rw (absent, assign) (ground (arith, lookup-append j m ((k, v) ∷ []), absent))
    | inr (u, present) ↦ rw (present, assign) (lookup-replace j k v u m present)
  ]

  lookup-distinct : (k : ℕ) (m : List (ℕ × V)) → lookup k (distinct m) ≡ lookup k m
  lookup-distinct k [] = refl
  lookup-distinct k ((i, v) ∷ m) =
      ground (arith, lookup-distinct k m, lookup-remove k i (distinct m))

  distinct-Uniq : (m : List (ℕ × V)) → Uniq (distinct m)
  distinct-Uniq [] = tt
  distinct-Uniq ((i, v) ∷ m) =
      (ground (arith, lookup-remove i i (distinct m)), remove-Uniq i (distinct m) (distinct-Uniq m))

  remove-replace :
      (j k : ℕ) (v : V) (m : List (ℕ × V))
      → j ≢ k
      → remove j (replace k v m) ≡ replace k v (remove j m)
  remove-replace j k v [] h = refl
  remove-replace j k v ((i, u) ∷ m) h = ground (arith, remove-replace j k v m h)

  distinct-replace :
      (k : ℕ) (v : V) (m : List (ℕ × V)) → distinct (replace k v m) ≡ replace k v (distinct m)
  distinct-replace k v [] = refl
  distinct-replace k v ((j, u) ∷ m) =
      ground (arith, distinct-replace k v m, remove-replace j k v (distinct m))

  remove_comm : (j k : ℕ) (m : List (ℕ × V)) → remove j (remove k m) ≡ remove k (remove j m)
  remove_comm j k [] = refl
  remove_comm j k ((i, u) ∷ m) = ground (arith, remove_comm j k m)

  remove_twice : (k : ℕ) (m : List (ℕ × V)) → remove k (remove k m) ≡ remove k m
  remove_twice k [] = refl
  remove_twice k ((i, u) ∷ m) = ground (arith, remove_twice k m)

  distinct-remove : (k : ℕ) (m : List (ℕ × V)) → distinct (remove k m) ≡ remove k (distinct m)
  distinct-remove k [] = refl
  distinct-remove k ((j, u) ∷ m) =
      ground (arith, distinct-remove k m, remove_comm j k (distinct m), remove_twice k (distinct m))

  remove-middle :
      (k : ℕ) (v : V) (before after : List (ℕ × V))
      → Uniq (before ++ ((k, v) ∷ after))
      → remove k (before ++ ((k, v) ∷ after)) ≡ before ++ after
  remove-middle k v [] after u = ground (arith, remove_absent k after u.0)
  remove-middle k v ((i, w) ∷ before) after u =
      ground
        (arith, remove-middle k v before after u.1, lookup-append i before ((k, v) ∷ after), u.0)

-- `bits` is the width of `size_t`.
abbrev pub assoc_platform : ℕ → Platform
assoc_platform bits = record {
  size_bits = bits;
  Map = λ V. List (ℕ × V);
  empty = λ V. [];
  find = λ V k m. lookup k m;
  insert_or_assign = λ V k v m. assign k v m;
  erase = λ V k m. remove k m;
  entries = λ V m. distinct m;
}

pub assoc_platform-IsPlatform : (bits : ℕ) → 32 ≤ bits → IsPlatform (assoc_platform bits)
assoc_platform-IsPlatform bits h = record {
  wide = h;
  find-empty = λ V k. refl;
  find-insert = λ V j k v m. lookup-assign j k v m;
  find-erase = λ V j k m. lookup-remove j k m;
  find-entries = λ V k m. sym (lookup-distinct k m);
  entries-Uniq = λ V m. distinct-Uniq m;
  entries-assign = λ V k u v m present. assigned V k u v m present;
  entries-erase = λ V k v m before after e. (
    after,
    distinct-remove k m
        ∙ ap (remove k) e
        ∙ remove-middle k v before after (subst Uniq e (distinct-Uniq m)),
  );
}
  where
    assigned :
        (V : Type 0) (k : ℕ) (u v : V) (m : List (ℕ × V))
        → lookup k m ≡ some u
        → distinct (assign k v m) ≡ replace k v (distinct m)
    assigned V k u v m present = rw (present, assign) (distinct-replace k v m)
