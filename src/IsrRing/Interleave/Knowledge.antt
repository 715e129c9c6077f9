-- ===== src/IsrRing/Interleave/Knowledge.antt =====
-- What the interrupt and the task of include/ISRRingBuffer.hpp know of the ring in the middle of a
-- write and of a read.
use native.Mathlib.Nat.{mod-lt, mod-add-mod, mod-eq_of_lt, mod-eq-sub-mod}
use florid_usb_protocols.Prelude.{
  ℕ, suc, ◌+◌, ◌-◌, ◌%◌, ◌^◌, ◌≤◌, ◌<◌, ◌≡◌, ap, ap₂, sym, ◌∙◌, inl, inr, List, [], ◌∷◌, ◌++◌,
  arith, length, set, ltb, ltb→lt, ltb_false→le, Bool-cases, length-append,
}
use florid_usb_protocols.Prelude.Bits.{bit_and_mask}
use florid_usb_protocols.IsrRing.{IsrRing, sub_size}
use florid_usb_protocols.IsrRing.Window.{window, window-set_ne, window-set_end}
use florid_usb_protocols.IsrRing.Queue.{IsValid, cap-pos}
use florid_usb_protocols.IsrRing.Refine.{write_place}
use florid_usb_protocols.IsrRing.Interleave.{
  Writer, waiting, loaded, copying, Reader, resting, fetching, System, slot,
}

module _ (w k : ℕ) (narrow : k < w) where
  abbrev pub held : IsrRing → ℕ
  held r = sub_size w r.write_idx r.read_idx

  -- What the writer knows: no one else moves the write index, and the room can only grow.
  abbrev pub IsWriting : IsrRing → Writer → Type 0
  IsWriting r waiting = Unit
  IsWriting r (loaded bytes i) = (i ≡ r.write_idx) × (length bytes ≤ 2 ^ k)
  IsWriting r (copying copied rest i) =
      (i ≡ r.write_idx)
      × (held r + length copied + length rest ≤ 2 ^ k)
      × (window (2 ^ k) r.buf r.write_idx (length copied) ≡ copied)

  -- What the reader knows: the bytes that it is after stay in the ring.
  abbrev pub IsReading : IsrRing → Reader → Type 0
  IsReading r resting = Unit
  IsReading r (fetching out n) =
      (n ≤ held r) × (length out ≤ n) × (window (2 ^ k) r.buf r.read_idx (length out) ≡ out)

  pub record IsOrdered (s : System) : Type 0 where
    pub valid : IsValid w k s.ring
    pub in_order : s.taken ≡ s.returned ++ window (2 ^ k) s.ring.buf s.ring.read_idx (held s.ring)
    pub writing : IsWriting s.ring s.writer
    pub reading : IsReading s.ring s.reader

  pub slot_lem : (i j : ℕ) → j < 2 ^ k → slot w k i j ≡ (i + j) % 2 ^ k
  unfolding slot
  slot_lem i j h = rw (bit_and_mask k i) (elim (Bool-cases (ltb j (2 ^ k - i % 2 ^ k))) [
    | inl lt ↦ rw lt (sym (mod-eq_of_lt (omega (arith, ltb→lt _ _ lt))) ∙ mod-add-mod i (2 ^ k) j)
    | inr ge ↦ rw ge (
        omega (
          arith,
          ltb_false→le _ _ ge,
          mod-add-mod i (2 ^ k) j,
          mod-lt i {m = 2 ^ k} (cap-pos w k narrow),
          mod-eq-sub-mod {n = i % 2 ^ k + j} {m = 2 ^ k}
              (omega (arith, ltb_false→le _ _ ge, mod-lt i {m = 2 ^ k} (cap-pos w k narrow))),
          mod-eq_of_lt {n = i % 2 ^ k + j - 2 ^ k} {m = 2 ^ k}
              (omega (arith, mod-lt i {m = 2 ^ k} (cap-pos w k narrow))),
        ))
  ])

  -- The reader's bytes are left alone by what only adds bytes behind them.
  pub keep-IsReading :
      (r r' : IsrRing) (q : Reader)
      → held r ≤ held r'
      → ((n : ℕ)
          → n ≤ held r
          → window (2 ^ k) r'.buf r'.read_idx n ≡ window (2 ^ k) r.buf r.read_idx n)
      → IsReading r q
      → IsReading r' q
  keep-IsReading r r' resting h same g = tt
  keep-IsReading r r' (fetching out n) h same g =
      (omega arith, g.1, same (length out) (omega (arith, g.0, g.1)) ∙ g.2)

  -- The room for the writer only grows when bytes are taken out.
  pub keep-IsWriting :
      (r r' : IsrRing) (q : Writer)
      → held r' ≤ held r
      → r'.write_idx ≡ r.write_idx
      → r'.buf ≡ r.buf
      → IsWriting r q
      → IsWriting r' q
  keep-IsWriting r r' waiting h e b g = tt
  keep-IsWriting r r' (loaded bytes i) h e b g = (g.0 ∙ sym e, g.1)
  keep-IsWriting r r' (copying copied rest i) h e b g = (
    g.0 ∙ sym e,
    omega (arith, g.1),
    ap₂ (λ xs (j : ℕ). window (2 ^ k) xs j (length copied)) b e ∙ g.2,
  )

  pub drop-IsValid :
      (r : IsrRing) (n : ℕ) → IsValid w k r → IsValid w k (record r { drop_count = n })
  drop-IsValid r n v = record {
    full = v.full;
    write_word = v.write_word;
    read_word = v.read_word;
    held = v.held;
  }

  -- One more byte is copied behind those that wait.
  module _ (r : IsrRing) (v : IsValid w k r) (m x : ℕ) (fits : held r + m < 2 ^ k) where
    abbrev pub more : List ℕ
    more = set r.buf ((r.write_idx + m) % 2 ^ k) x

    pub place : (r.write_idx + m) % 2 ^ k ≡ (r.read_idx + (held r + m)) % 2 ^ k
    place =
        sym (mod-add-mod r.write_idx (2 ^ k) m)
        ∙ ap (λ (t : ℕ). (t + m) % 2 ^ k) (write_place w k narrow r v)
        ∙ mod-add-mod (r.read_idx + held r) (2 ^ k) m
        ∙ ap (λ (t : ℕ). t % 2 ^ k) (omega arith)

    pub more-held :
        (n : ℕ) → n ≤ held r → window (2 ^ k) more r.read_idx n ≡ window (2 ^ k) r.buf r.read_idx n
    more-held n h =
        ap (λ (t : ℕ). window (2 ^ k) (set r.buf t x) r.read_idx n) place
        ∙ window-set_ne (2 ^ k) (cap-pos w k narrow) r.buf r.read_idx n (r.read_idx + (held r + m))
            x (omega arith) (omega arith)

    pub more-copied :
        (copied : List ℕ)
        → length copied ≡ m
        → window (2 ^ k) r.buf r.write_idx m ≡ copied
        → window (2 ^ k) more r.write_idx (length (copied ++ (x ∷ []))) ≡ copied ++ (x ∷ [])
    more-copied copied e h =
        ap (window (2 ^ k) more r.write_idx) (
          let p : length (copied ++ (x ∷ [])) ≡ suc m =
            omega (arith, length-append copied (x ∷ []), e) in
          p)
        ∙ window-set_end (2 ^ k) (cap-pos w k narrow) r.buf r.write_idx m x v.full (omega arith)
        ∙ ap (λ t. t ++ (x ∷ [])) h
