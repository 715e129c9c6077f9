-- ===== src/IsrRing/Queue.antt =====
-- The specification of include/ISRRingBuffer.hpp: a bounded queue of bytes that takes a write whole
-- or not at all.
use native.Mathlib.Decide.{dec_lt}
use native.Mathlib.Nat.{
  mod-eq_of_lt, mod-lt, mod-eq-sub-mod, one-le-pow, pow-le-pow_right, two-pow-succ,
}
use florid_usb_protocols.Prelude.{
  ℕ, suc, ◌+◌, ◌-◌, ◌%◌, ◌^◌, ◌≤◌, ◌<◌, ◌≡◌, refl, ap, ap₂, sym, ◌∙◌, inl, inr, ◌⊎◌, Bool, true,
  false, List, ◌++◌, arith, length, take, drop, ltb, leb, leb→le, leb_false→lt, if◌then◌else◌,
  Bool-cases, take-append-drop, length-take, length-drop,
}
use florid_usb_protocols.Prelude.Bits.{bit_and_mask}
use florid_usb_protocols.IsrRing.{
  IsrRing, sub_size, copy_into, copy_from, available, dropped, stored, write, loaded,
}
use florid_usb_protocols.IsrRing.Window.{
  window, put_all, length-window, put_all-append, window-add, copy_into-put_all, copy_from-window,
  rest-mod,
}

-- The specification: a queue of at most `cap` bytes.
unfoldable pub put : ℕ → List ℕ → List ℕ → Bool × List ℕ
put cap q bytes = if ltb cap (length q + length bytes) then (false, q) else (true, q ++ bytes)

unfoldable pub get : List ℕ → ℕ → List ℕ × List ℕ
get q max = (take max q, drop max q)

-- A remainder of a number below twice the modulus.
mod_once : (M x : ℕ) → x < M + M → ((x < M) × (x % M ≡ x)) ⊎ ((M ≤ x) × (x % M ≡ x - M))
mod_once M x h = elim (dec_lt x M) [
  | yes lt ↦ inl (lt, mod-eq_of_lt lt)
  | no ge ↦
      inr (omega arith, mod-eq-sub-mod {n = x} {m = M} (omega arith) ∙ mod-eq_of_lt (omega arith))
]

pub diff_add :
    (M a b n : ℕ)
    → a < M
    → b < M
    → (a + M - b) % M + n < M
    → ((a + n) % M + M - b) % M ≡ (a + M - b) % M + n
diff_add M a b n ha hb h = omega (
  arith,
  mod_once M (a + M - b) (omega arith),
  mod_once M (a + n) (omega arith),
  mod_once M ((a + n) % M + M - b) (omega (arith, mod-lt (a + n) {m = M} (omega arith))),
)

pub diff_sub :
    (M a b n : ℕ)
    → a < M
    → b < M
    → n ≤ (a + M - b) % M
    → (a + M - (b + n) % M) % M ≡ (a + M - b) % M - n
diff_sub M a b n ha hb h = omega (
  arith,
  mod_once M (a + M - b) (omega arith),
  mod_once M (b + n) (omega (arith, mod-lt (a + M - b) {m = M} (omega arith))),
  mod_once M (a + M - (b + n) % M) (omega (arith, mod-lt (b + n) {m = M} (omega arith))),
)

pub diff_start : (M a b : ℕ) → a < M → b < M → (b + (a + M - b) % M) % M ≡ a
diff_start M a b ha hb = omega (
  arith,
  mod_once M (a + M - b) (omega arith),
  mod_once M (b + (a + M - b) % M) (omega (arith, mod-lt (a + M - b) {m = M} (omega arith))),
)

-- The array has its length, the indices fit `size_t`, and no more bytes are held than it has room.
pub record IsValid (w k : ℕ) (r : IsrRing) : Type 0 where
  pub full : length r.buf ≡ 2 ^ k
  pub write_word : r.write_idx < 2 ^ w
  pub read_word : r.read_idx < 2 ^ w
  pub held : sub_size w r.write_idx r.read_idx ≤ 2 ^ k

-- The bytes that wait to be read, the oldest first.
unfoldable pub contents : ℕ → ℕ → IsrRing → List ℕ
contents w k r = window (2 ^ k) r.buf r.read_idx (sub_size w r.write_idx r.read_idx)

module _ (w k : ℕ) (narrow : k < w) where
  pub cap-pos : 0 < 2 ^ k
  cap-pos = one-le-pow k 2 (omega arith)

  pub cap-word : 2 ^ k < 2 ^ w
  cap-word = omega (
    arith,
    pow-le-pow_right {n = 2} (omega arith) {i = suc k} {j = w} narrow,
    two-pow-succ k,
    cap-pos,
  )

  pub length-contents : (r : IsrRing) → length (contents w k r) ≡ available w k r
  unfolding contents available
  length-contents r = length-window (2 ^ k) r.buf r.read_idx (sub_size w r.write_idx r.read_idx)

  -- The two copies of a write go round the array.
  pub stored-put_all :
      (r : IsrRing) (bytes : List ℕ)
      → length bytes ≤ 2 ^ k
      → stored w k r bytes ≡ put_all (2 ^ k) r.buf r.write_idx bytes
  unfolding stored
  stored-put_all r bytes h =
      rw (bit_and_mask k r.write_idx)
        (elim (Bool-cases (leb (length bytes) (2 ^ k - r.write_idx % 2 ^ k))) [
          | inl fits ↦ rw fits (
              copy_into-put_all (2 ^ k) cap-pos bytes r.buf r.write_idx
                (omega (arith, leb→le _ _ fits, mod-lt r.write_idx cap-pos)))
          | inr over ↦ rw over (round first (leb_false→lt _ _ over) refl)
        ])
    where
      c : ℕ
      c = 2 ^ k

      first : ℕ
      first = c - r.write_idx % c

      round :
          (f : ℕ)
          → f < length bytes
          → f ≡ c - r.write_idx % c
          → copy_into (copy_into r.buf (r.write_idx % c) (take f bytes)) 0 (drop f bytes)
            ≡ put_all c r.buf r.write_idx bytes
      round f lt e =
          ap (λ t. copy_into t 0 (drop f bytes))
            (copy_into-put_all c cap-pos (take f bytes) r.buf r.write_idx
              (omega (arith, length-take f bytes, mod-lt r.write_idx cap-pos, e)))
          ∙ ap (λ (t : ℕ). copy_into (put_all c r.buf r.write_idx (take f bytes)) t (drop f bytes))
              (sym start)
          ∙ copy_into-put_all c cap-pos (drop f bytes) (put_all c r.buf r.write_idx (take f bytes))
              (r.write_idx + f) (omega (arith, length-drop f bytes, start))
          ∙ ap (λ (t : ℕ). put_all c (put_all c r.buf r.write_idx (take f bytes)) t (drop f bytes))
              (omega (arith, length-take f bytes))
          ∙ sym (put_all-append c (take f bytes) (drop f bytes) r.buf r.write_idx)
          ∙ ap (put_all c r.buf r.write_idx) (take-append-drop f bytes)
        where
          start : (r.write_idx + f) % c ≡ 0
          start = ap (λ (t : ℕ). (r.write_idx + t) % c) e ∙ rest-mod c r.write_idx cap-pos

  -- So do the two copies of a read.
  pub loaded-window :
      (r : IsrRing) (n : ℕ)
      → IsValid w k r
      → n ≤ 2 ^ k
      → loaded w k r n ≡ window (2 ^ k) r.buf r.read_idx n
  unfolding loaded
  loaded-window r n v h =
      rw (bit_and_mask k r.read_idx) (elim (Bool-cases (leb n (2 ^ k - r.read_idx % 2 ^ k))) [
        | inl fits ↦ rw fits (
            copy_from-window (2 ^ k) cap-pos n r.buf r.read_idx v.full
              (omega (arith, leb→le _ _ fits, mod-lt r.read_idx cap-pos)))
        | inr over ↦ rw over (round first (leb_false→lt _ _ over) refl)
      ])
    where
      c : ℕ
      c = 2 ^ k

      first : ℕ
      first = c - r.read_idx % c

      round :
          (f : ℕ)
          → f < n
          → f ≡ c - r.read_idx % c
          → copy_from r.buf (r.read_idx % c) f ++ copy_from r.buf 0 (n - f)
            ≡ window c r.buf r.read_idx n
      round f lt e =
          ap₂ ◌++◌
            (copy_from-window c cap-pos f r.buf r.read_idx v.full
              (omega (arith, mod-lt r.read_idx cap-pos, e)))
            (ap (λ (t : ℕ). copy_from r.buf t (n - f)) (sym start)
              ∙ copy_from-window c cap-pos (n - f) r.buf (r.read_idx + f) v.full
                  (omega (arith, start)))
          ∙ sym (window-add c r.buf r.read_idx f (n - f))
          ∙ ap (window c r.buf r.read_idx) (omega arith)
        where
          start : (r.read_idx + f) % c ≡ 0
          start = ap (λ (t : ℕ). (r.read_idx + t) % c) e ∙ rest-mod c r.read_idx cap-pos

  -- The room that `write` computes.
  pub room :
      (r : IsrRing)
      → IsValid w k r
      → sub_size w (2 ^ k) (sub_size w r.write_idx r.read_idx)
        ≡ 2 ^ k - sub_size w r.write_idx r.read_idx
  room r v = omega (
    arith,
    mod_once (2 ^ w) (2 ^ k + 2 ^ w - sub_size w r.write_idx r.read_idx)
        (omega (arith, cap-word, v.held)),
    v.held,
    cap-word,
  )

  pub write-dropped :
      (r : IsrRing) (bytes : List ℕ)
      → IsValid w k r
      → 2 ^ k < available w k r + length bytes
      → write w k r bytes ≡ dropped w k r
  unfolding write available
  write-dropped r bytes v h = ground (arith, room r v, v.held)

  pub write-stored :
      (r : IsrRing) (bytes : List ℕ)
      → IsValid w k r
      → available w k r + length bytes ≤ 2 ^ k
      → write w k r bytes ≡ (
        true,
        record r { buf = stored w k r bytes; write_idx = (r.write_idx + length bytes) % 2 ^ w },
      )
  unfolding write available
  write-stored r bytes v h = ground (arith, room r v, v.held)
