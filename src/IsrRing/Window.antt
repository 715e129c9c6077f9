-- ===== src/IsrRing/Window.antt =====
-- Circular windows of an array: what a walk of `n` steps from an index reads.
use native.Mathlib.Nat.{mod-add-mod, mod-eq_of_lt, mod_self, mod-lt, suc-mod, mod-eq-sub-mod}
use native.Mathlib.Decide.{dec_lt}
use florid_usb_protocols.Prelude.{
  ℕ, zero, suc, ◌+◌, ◌-◌, ◌%◌, ◌≤◌, ◌<◌, ◌≡◌, ◌≢◌, refl, ap, ap₂, sym, ◌∙◌, inl, inr, ◌⊎◌, List, [],
  ◌∷◌, ◌++◌, append-nil, append_assoc, arith, length, get_or, set, take, drop, length-set,
  get_or-set_self, get_or-set_ne,
}
use florid_usb_protocols.IsrRing.{copy_into, copy_from}

-- The remainder of a successor.
suc-mod_cases :
    (c i : ℕ)
    → 0 < c
    → ((suc (i % c) < c) × (suc i % c ≡ suc (i % c))) ⊎ ((suc (i % c) ≡ c) × (suc i % c ≡ 0))
suc-mod_cases c i h = elim (dec_lt (suc (i % c)) c) [
  | yes lt ↦ inl (lt, suc-mod i c ∙ mod-eq_of_lt lt)
  | no ge ↦
      let e : suc (i % c) ≡ c = omega (arith, mod-lt i h) in
      inr (e, suc-mod i c ∙ ap (λ (t : ℕ). t % c) e ∙ mod_self c)
]

-- Fewer than `c` steps do not come back to the same place.
add-mod-ne : (c i d : ℕ) → 0 < d → d < c → (i + d) % c ≢ i % c
add-mod-ne c i d h g e = elim (dec_lt (i % c + d) c) [
  | yes lt ↦ omega (arith, mod-add-mod i c d, mod-eq_of_lt lt, e)
  | no ge ↦ omega (
    arith,
    mod-add-mod i c d,
    mod-eq-sub-mod {n = i % c + d} {m = c} (omega arith),
    mod-eq_of_lt {n = i % c + d - c} {m = c} (omega (arith, mod-lt i {m = c} (omega arith))),
    mod-lt i {m = c} (omega arith),
    e,
  )
]

-- From any place, the rest of the array leads to index 0.
pub rest-mod : (c i : ℕ) → 0 < c → (i + (c - i % c)) % c ≡ 0
rest-mod c i h =
    sym (mod-add-mod i c (c - i % c))
    ∙ ap (λ (t : ℕ). t % c) (let e : i % c + (c - i % c) ≡ c = omega (arith, mod-lt i h) in e)
    ∙ mod_self c

module _ (c : ℕ) where
  abbrev pub window : List ℕ → ℕ → ℕ → List ℕ
  window buf i zero = []
  window buf i (suc n) = get_or buf (i % c) 0 ∷ window buf (suc i) n

  -- Writes going round the array.
  abbrev pub put_all : List ℕ → ℕ → List ℕ → List ℕ
  put_all buf i [] = buf
  put_all buf i (x ∷ xs) = put_all (set buf (i % c) x) (suc i) xs

  pub length-put_all : (buf : List ℕ) (i : ℕ) (xs : List ℕ) → length (put_all buf i xs) ≡ length buf
  length-put_all buf i [] = refl
  length-put_all buf i (x ∷ xs) =
      length-put_all (set buf (i % c) x) (suc i) xs ∙ length-set buf (i % c) x

  pub length-window : (buf : List ℕ) (i n : ℕ) → length (window buf i n) ≡ n
  length-window buf i zero = refl
  length-window buf i (suc n) = ap suc (length-window buf (suc i) n)

  window_eq : (buf : List ℕ) {i j n m : ℕ} → i ≡ j → n ≡ m → window buf i n ≡ window buf j m
  window_eq buf p q = ap₂ (window buf) p q

  pub window-mod : (buf : List ℕ) (i j n : ℕ) → i % c ≡ j % c → window buf i n ≡ window buf j n
  window-mod buf i j zero h = refl
  window-mod buf i j (suc n) h = ap₂ ◌∷◌ (ap (λ t. get_or buf t 0) h) (
      window-mod buf (suc i) (suc j) n
        (suc-mod i c ∙ ap (λ (t : ℕ). suc t % c) h ∙ sym (suc-mod j c)))

  pub put_all-mod :
      (xs buf : List ℕ) (i j : ℕ) → i % c ≡ j % c → put_all buf i xs ≡ put_all buf j xs
  put_all-mod [] buf i j h = refl
  put_all-mod (x ∷ xs) buf i j h =
      ap (λ t. put_all (set buf t x) (suc i) xs) h
      ∙ put_all-mod xs (set buf (j % c) x) (suc i) (suc j)
          (suc-mod i c ∙ ap (λ (t : ℕ). suc t % c) h ∙ sym (suc-mod j c))

  pub put_all-append :
      (xs ys buf : List ℕ) (i : ℕ)
      → put_all buf i (xs ++ ys) ≡ put_all (put_all buf i xs) (i + length xs) ys
  put_all-append [] ys buf i = ap (λ (t : ℕ). put_all buf t ys) (omega arith)
  put_all-append (x ∷ xs) ys buf i =
      put_all-append xs ys (set buf (i % c) x) (suc i)
      ∙ ap (λ (t : ℕ). put_all (put_all (set buf (i % c) x) (suc i) xs) t ys) (omega arith)

  pub window-add :
      (buf : List ℕ) (i n m : ℕ) → window buf i (n + m) ≡ window buf i n ++ window buf (i + n) m
  window-add buf i zero m = window_eq buf (omega arith) (omega arith)
  window-add buf i (suc n) m =
      window_eq buf {i = i} {j = i} {m = suc (n + m)} refl (omega arith)
      ∙ ap (◌∷◌ (get_or buf (i % c) 0)) (
          window-add buf (suc i) n m
          ∙ ap (λ t. window buf (suc i) n ++ t) (window_eq buf (omega arith) refl))

  module _ (pos : 0 < c) where
    -- A write in front of the walk is not seen.
    pub window-set_ne :
        (buf : List ℕ) (i n j x : ℕ)
        → i + n ≤ j
        → j < i + c
        → window (set buf (j % c) x) i n ≡ window buf i n
    window-set_ne buf i zero j x h g = refl
    window-set_ne buf i (suc n) j x h g =
        ap₂ ◌∷◌
          (get_or-set_ne buf (j % c) (i % c) x 0 (λ e.
            add-mod-ne c i (j - i) (omega arith) (omega arith)
              (ap (λ (t : ℕ). t % c) (let p : i + (j - i) ≡ j = omega arith in p) ∙ e)))
          (window-set_ne buf (suc i) n j x (omega arith) (omega arith))

    pub window-set_end :
        (buf : List ℕ) (i n x : ℕ)
        → length buf ≡ c
        → n < c
        → window (set buf ((i + n) % c) x) i (suc n) ≡ window buf i n ++ (x ∷ [])
    window-set_end buf i n x e h =
        window_eq (set buf ((i + n) % c) x) {i = i} {j = i} {n = suc n} {m = n + 1} refl
          (omega arith)
        ∙ window-add (set buf ((i + n) % c) x) i n 1
        ∙ ap₂ ◌++◌ (window-set_ne buf i n (i + n) x (omega arith) (omega arith)) (
            ap (λ t. t ∷ [])
              (get_or-set_self buf ((i + n) % c) x 0 (omega (arith, mod-lt (i + n) pos))))

    -- Bytes put behind a window extend it.
    pub window-put_all :
        (xs buf : List ℕ) (i n : ℕ)
        → length buf ≡ c
        → n + length xs ≤ c
        → window (put_all buf (i + n) xs) i (n + length xs) ≡ window buf i n ++ xs
    window-put_all [] buf i n e h =
        window_eq buf {i = i} {j = i} {m = n} refl (omega arith) ∙ sym (append-nil (window buf i n))
    window-put_all (x ∷ xs) buf i n e h =
        let buf' = set buf ((i + n) % c) x in
        ap₂ (λ (a b : ℕ). window (put_all buf' a xs) i b) (omega arith) (omega arith)
        ∙ window-put_all xs buf' i (suc n) (length-set buf ((i + n) % c) x ∙ e) (omega arith)
        ∙ ap (λ t. t ++ xs) (window-set_end buf i n x e (omega arith))
        ∙ append_assoc (window buf i n) (x ∷ []) xs

    pub copy_into-put_all :
        (xs buf : List ℕ) (i : ℕ)
        → i % c + length xs ≤ c
        → copy_into buf (i % c) xs ≡ put_all buf i xs
    unfolding copy_into
    copy_into-put_all [] buf i h = refl
    copy_into-put_all (x ∷ []) buf i h = refl
    copy_into-put_all (x ∷ y ∷ xs) buf i h = elim (suc-mod_cases c i pos) [
      | inl (lt, e) ↦
          ap (λ (t : ℕ). copy_into (set buf (i % c) x) t (y ∷ xs))
            (let p : i % c + 1 ≡ suc i % c = omega (arith, e) in p)
          ∙ copy_into-put_all (y ∷ xs) (set buf (i % c) x) (suc i) (omega (arith, e))
      | inr (last, e) ↦ absurd (omega arith)
    ]

    take-drop :
        (xs : List ℕ) (a n : ℕ)
        → a < length xs
        → take (suc n) (drop a xs) ≡ get_or xs a 0 ∷ take n (drop (suc a) xs)
    take-drop [] a n h = absurd (omega arith)
    take-drop (x ∷ xs) zero n h = refl
    take-drop (x ∷ xs) (suc a) n h = take-drop xs a n (omega arith)

    pub copy_from-window :
        (n : ℕ) (buf : List ℕ) (i : ℕ)
        → length buf ≡ c
        → i % c + n ≤ c
        → copy_from buf (i % c) n ≡ window buf i n
    copy_from-window zero buf i e h = refl
    copy_from-window (suc zero) buf i e h = take-drop buf (i % c) 0 (omega (arith, mod-lt i pos))
    copy_from-window (suc (suc n)) buf i e h = elim (suc-mod_cases c i pos) [
      | inl (lt, p) ↦
          take-drop buf (i % c) (suc n) (omega (arith, mod-lt i pos))
          ∙ ap (λ t. get_or buf (i % c) 0 ∷ t)
              (ap (λ (t : ℕ). take (suc n) (drop t buf)) (sym p)
                ∙ copy_from-window (suc n) buf (suc i) e (omega (arith, p)))
      | inr (last, p) ↦ absurd (omega arith)
    ]
