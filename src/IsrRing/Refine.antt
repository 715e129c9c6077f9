-- ===== src/IsrRing/Refine.antt =====
-- The operations of include/ISRRingBuffer.hpp against those of the queue.
use native.Mathlib.Nat.{mod-lt, mod_self}
use mathlib.Core.Bool.{true≢false}
use florid_usb_protocols.Prelude.{
  ℕ, zero, suc, ◌+◌, ◌-◌, ◌%◌, ◌^◌, ◌≤◌, ◌<◌, ◌≡◌, refl, ap, ap₂, sym, ◌∙◌, inl, inr, true, false,
  List, [], ◌∷◌, ◌++◌, arith, length, take, drop, ltb, ◌==◌, ◌||◌, Bool-cases, ltb_false→le, ltb→lt,
  length-replicate, take_front, drop_front, take_all, drop_all,
}
use florid_usb_protocols.Prelude.Bits.{mod-mod_pow}
use florid_usb_protocols.IsrRing.{
  IsrRing, sub_size, cleared, available, dropped, stored, write, loaded, read,
}
use florid_usb_protocols.IsrRing.Window.{
  window, put_all-mod, length-put_all, length-window, window-mod, window-add, window-put_all,
}
use florid_usb_protocols.IsrRing.Queue.{
  put, get, IsValid, contents, length-contents, diff_add, diff_sub, diff_start, cap-pos, cap-word,
  stored-put_all, loaded-window, write-dropped, write-stored,
}

pub empty_sub : (w : ℕ) → sub_size w 0 0 ≡ 0
empty_sub w =
    ap (λ (t : ℕ). t % 2 ^ w) (let e : 0 + 2 ^ w - 0 ≡ 2 ^ w = omega arith in e) ∙ mod_self (2 ^ w)

module _ (w k : ℕ) (narrow : k < w) where
  abbrev held : IsrRing → ℕ
  held r = sub_size w r.write_idx r.read_idx

  -- The write index is as many steps from the read index as bytes are held.
  pub write_place :
      (r : IsrRing) → IsValid w k r → r.write_idx % 2 ^ k ≡ (r.read_idx + held r) % 2 ^ k
  write_place r v =
      ap (λ (t : ℕ). t % 2 ^ k)
        (sym (diff_start (2 ^ w) r.write_idx r.read_idx v.write_word v.read_word))
      ∙ mod-mod_pow w k (r.read_idx + held r) (omega arith)

  held_more :
      (r : IsrRing) (bytes : List ℕ)
      → IsValid w k r
      → held r + length bytes ≤ 2 ^ k
      → sub_size w ((r.write_idx + length bytes) % 2 ^ w) r.read_idx ≡ held r + length bytes
  held_more r bytes v h =
      diff_add (2 ^ w) r.write_idx r.read_idx (length bytes) v.write_word v.read_word
        (omega (arith, cap-word w k narrow))

  -- Bytes that fit are appended.
  contents-stored :
      (r : IsrRing) (bytes : List ℕ)
      → IsValid w k r
      → held r + length bytes ≤ 2 ^ k
      → contents w k
          (record r { buf = stored w k r bytes; write_idx = (r.write_idx + length bytes) % 2 ^ w })
        ≡ contents w k r ++ bytes
  unfolding contents
  contents-stored r bytes v h =
      ap₂ (λ b (n : ℕ). window (2 ^ k) b r.read_idx n)
        (stored-put_all w k narrow r bytes (omega arith)
          ∙ put_all-mod (2 ^ k) bytes r.buf r.write_idx (r.read_idx + held r) (write_place r v))
        (held_more r bytes v h)
      ∙ window-put_all (2 ^ k) (cap-pos w k narrow) bytes r.buf r.read_idx (held r) v.full h

  -- For a ring of fewer bytes than `size_t` counts, `write` keeps a valid ring valid, also when its
  -- index wraps.
  pub write-IsValid :
      (r : IsrRing) (bytes : List ℕ) → IsValid w k r → IsValid w k (write w k r bytes).1
  unfolding available dropped
  write-IsValid r bytes v = elim (Bool-cases (ltb (2 ^ k) (available w k r + length bytes))) [
    | inl over ↦ rw (write-dropped w k narrow r bytes v (ltb→lt _ _ over)) (record {
      full = v.full;
      write_word = v.write_word;
      read_word = v.read_word;
      held = v.held;
    })
    | inr fits ↦ rw (write-stored w k narrow r bytes v (ltb_false→le _ _ fits)) (record {
      full =
          ap length (stored-put_all w k narrow r bytes (omega (arith, ltb_false→le _ _ fits)))
          ∙ length-put_all (2 ^ k) r.buf r.write_idx bytes
          ∙ v.full;
      write_word =
          mod-lt (r.write_idx + length bytes) {m = 2 ^ w} (omega (arith, cap-word w k narrow));
      read_word = v.read_word;
      held = omega (arith, held_more r bytes v (ltb_false→le _ _ fits), ltb_false→le _ _ fits);
    })
  ]

  -- For a valid ring of fewer bytes than `size_t` counts: `write` takes the bytes whole if they fit
  -- into the room that is left, and otherwise none; the ring then holds what a bounded queue holds.
  pub write_refines :
      (r : IsrRing) (bytes : List ℕ)
      → IsValid w k r
      → let (done, r') = write w k r bytes in
        (done, contents w k r') ≡ put (2 ^ k) (contents w k r) bytes
  unfolding put dropped
  write_refines r bytes v =
      rw (length-contents w k narrow r)
        (elim (Bool-cases (ltb (2 ^ k) (available w k r + length bytes))) [
          | inl over ↦
              rw (write-dropped w k narrow r bytes v (ltb→lt _ _ over), over)
                (unfold contents in refl)
          | inr fits ↦
              rw (write-stored w k narrow r bytes v (ltb_false→le _ _ fits), fits)
                (ap (λ t. (true, t))
                  (contents-stored r bytes v (unfold available in ltb_false→le _ _ fits)))
        ])

  -- The ring after `n` bytes are read.
  abbrev advanced : IsrRing → ℕ → IsrRing
  advanced r n = record r { read_idx = (r.read_idx + n) % 2 ^ w }

  held_less :
      (r : IsrRing) (n : ℕ)
      → IsValid w k r
      → n ≤ held r
      → sub_size w r.write_idx ((r.read_idx + n) % 2 ^ w) ≡ held r - n
  held_less r n v h = diff_sub (2 ^ w) r.write_idx r.read_idx n v.write_word v.read_word h

  contents_split :
      (r : IsrRing) (n : ℕ)
      → IsValid w k r
      → n ≤ held r
      → contents w k r ≡ loaded w k r n ++ contents w k (advanced r n)
  unfolding contents
  contents_split r n v h =
      ap (window (2 ^ k) r.buf r.read_idx) (let e : held r ≡ n + (held r - n) = omega arith in e)
      ∙ window-add (2 ^ k) r.buf r.read_idx n (held r - n)
      ∙ ap₂ ◌++◌ (sym (loaded-window w k narrow r n v (omega (arith, v.held)))) (
          window-mod (2 ^ k) r.buf (r.read_idx + n) ((r.read_idx + n) % 2 ^ w) (held r - n)
            (sym (mod-mod_pow w k (r.read_idx + n) (omega arith)))
          ∙ ap (window (2 ^ k) r.buf ((r.read_idx + n) % 2 ^ w)) (sym (held_less r n v h)))

  length-loaded : (r : IsrRing) (n : ℕ) → IsValid w k r → n ≤ held r → length (loaded w k r n) ≡ n
  length-loaded r n v h =
      ap length (loaded-window w k narrow r n v (omega (arith, v.held)))
      ∙ length-window (2 ^ k) r.buf r.read_idx n

  read_n :
      (r : IsrRing) (n : ℕ)
      → IsValid w k r
      → n ≤ held r
      → (loaded w k r n ≡ take n (contents w k r))
        × (contents w k (advanced r n) ≡ drop n (contents w k r))
  read_n r n v h =
      let xs = loaded w k r n in
      let ys = contents w k (advanced r n) in
      let e : length xs ≡ n = length-loaded r n v h in
      (
        sym (take_front xs ys) ∙ ap₂ take e (sym (contents_split r n v h)),
        sym (drop_front xs ys) ∙ ap₂ drop e (sym (contents_split r n v h)),
      )

  -- For a valid ring of fewer bytes than `size_t` counts: `read` takes the oldest bytes, as many as
  -- asked for or as there are, and leaves the rest.
  pub read_refines :
      (r : IsrRing) (max : ℕ)
      → IsValid w k r
      → let (out, r') = read w k r max in (out, contents w k r') ≡ get (contents w k r) max
  unfolding get read available
  read_refines r max v = elim (Bool-cases (held r == 0 || max == 0)) [
    | inl nothing ↦ rw nothing (idle max nothing)
    | inr some_bytes ↦ elim (Bool-cases (ltb max (held r))) [
      | inl fewer ↦
          rw (some_bytes, fewer)
            (ap₂ (λ a b. (a, b)) (read_n r max v (omega (arith, ltb→lt _ _ fewer))).0
              (read_n r max v (omega (arith, ltb→lt _ _ fewer))).1)
      | inr all ↦
          rw (some_bytes, all)
            (ap₂ (λ a b. (a, b))
              ((read_n r (held r) v (omega arith)).0
                ∙ take_all (held r) q (omega (arith, whole))
                ∙ sym (take_all max q (omega (arith, whole, ltb_false→le _ _ all))))
              ((read_n r (held r) v (omega arith)).1
                ∙ drop_all (held r) q (omega (arith, whole))
                ∙ sym (drop_all max q (omega (arith, whole, ltb_false→le _ _ all)))))
    ]
  ]
    where
      q : List ℕ
      q = contents w k r

      whole : length q ≡ held r
      whole = length-contents w k narrow r

      empty : (q : List ℕ) → length q ≡ 0 → q ≡ []
      empty [] e = refl
      empty (x ∷ q) e = absurd (omega arith)

      idle :
          (n : ℕ)
          → (held r == 0 || n == 0) ≡ true
          → ◌≡◌ {A = List ℕ × List ℕ}
              ([], contents w k r)
              (take n (contents w k r), drop n (contents w k r))
      idle zero h = refl
      idle (suc n) h =
          let e : contents w k r ≡ [] = empty (contents w k r) (whole ∙ ground arith) in rw e refl

  advanced-IsValid : (r : IsrRing) (n : ℕ) → IsValid w k r → n ≤ held r → IsValid w k (advanced r n)
  advanced-IsValid r n v h = record {
    full = v.full;
    write_word = v.write_word;
    read_word = mod-lt (r.read_idx + n) {m = 2 ^ w} (omega (arith, v.read_word));
    held = omega (arith, held_less r n v h, v.held);
  }

  -- For a ring of fewer bytes than `size_t` counts, `read` keeps a valid ring valid, also when its
  -- index wraps.
  pub read-IsValid : (r : IsrRing) (max : ℕ) → IsValid w k r → IsValid w k (read w k r max).1
  unfolding read available
  read-IsValid r max v = elim (Bool-cases (held r == 0 || max == 0)) [
    | inl nothing ↦ rw nothing v
    | inr some_bytes ↦ elim (Bool-cases (ltb max (held r))) [
      | inl fewer ↦
          rw (some_bytes, fewer) (advanced-IsValid r max v (omega (arith, ltb→lt _ _ fewer)))
      | inr all ↦ rw (some_bytes, all) (advanced-IsValid r (held r) v (omega arith))
    ]
  ]

  pub cleared-IsValid : IsValid w k (cleared w k)
  unfolding cleared
  cleared-IsValid = record {
    full = length-replicate (2 ^ k) 0;
    write_word = omega (arith, cap-word w k narrow);
    read_word = omega (arith, cap-word w k narrow);
    held = omega (arith, empty_sub w);
  }

  -- For a valid ring of fewer bytes than `size_t` counts: a `write` that fails counts one dropped
  -- write, and changes nothing else.
  pub write_refused :
      (r : IsrRing) (bytes : List ℕ)
      → IsValid w k r
      → (write w k r bytes).0 ≡ false
      → (write w k r bytes).1 ≡ record r { drop_count = (r.drop_count + 1) % 2 ^ w }
  unfolding dropped
  write_refused r bytes v h = elim (Bool-cases (ltb (2 ^ k) (available w k r + length bytes))) [
    | inl over ↦ ap (λ t. t.1) (write-dropped w k narrow r bytes v (ltb→lt _ _ over))
    | inr fits ↦ absurd (
        true≢false
          (sym (ap (λ t. t.0) (write-stored w k narrow r bytes v (ltb_false→le _ _ fits))) ∙ h))
  ]
