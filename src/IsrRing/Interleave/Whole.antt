-- ===== src/IsrRing/Interleave/Whole.antt =====
-- A `write` or a `read` of include/ISRRingBuffer.hpp that is not interrupted, as a run of its steps.
use florid_usb_protocols.Prelude.{
  ℕ, zero, suc, ◌+◌, ◌%◌, ◌^◌, ◌≤◌, ◌<◌, ◌≡◌, refl, ap, ap₂, sym, ◌∙◌, subst, inl, inr, true, false,
  Bool, List, [], ◌∷◌, ◌++◌, append_assoc, append-nil, arith, length, get_or, set, ltb, ltb→lt,
  ltb_false→le, ◌==◌, ◌||◌, if◌then◌else◌, Bool-cases, length-append,
}
use florid_usb_protocols.IsrRing.{IsrRing, sub_size, available, write, read, dropped, stored}
use florid_usb_protocols.IsrRing.Window.{window, put_all, window-add, length-window}
use florid_usb_protocols.IsrRing.Queue.{
  IsValid, stored-put_all, loaded-window, write-dropped, write-stored, room as room_left,
}
use florid_usb_protocols.IsrRing.Interleave.{
  drop_one, waiting, copying, resting, fetching, System, too_long, load_write, no_room, room, copy,
  store_write, nothing, load_avail, fetch, store_read, Reach, slot,
}
use florid_usb_protocols.IsrRing.Interleave.Calls.{
  WriteRun, write_called, write_going, ReadRun, read_called, read_going,
}
use florid_usb_protocols.IsrRing.Interleave.Knowledge.{slot_lem}
use florid_usb_protocols.IsrRing.Interleave.Order.{Reach-IsOrdered}

module _ (w k : ℕ) (narrow : k < w) where
  -- The rest of a copy, a byte at a time.
  copies :
      (bytes : List ℕ) (s0 : System) (rest copied : List ℕ) (i : ℕ) (s : System)
      → WriteRun w k bytes s0 (record s { writer = copying copied rest i })
      → length copied + length rest ≤ 2 ^ k
      → WriteRun w k bytes s0 (record s {
        ring = record s.ring { buf = put_all (2 ^ k) s.ring.buf (i + length copied) rest };
        writer = copying (copied ++ rest) [] i;
      })
  copies bytes s0 [] copied i s r h =
      subst (λ xs. WriteRun w k bytes s0 (record s { writer = copying xs [] i }))
        (sym (append-nil copied)) r
  copies bytes s0 (x ∷ rest) copied i s r h =
      subst
        (λ (t : List ℕ × List ℕ).
          WriteRun w k bytes s0
            (record s { ring = record s.ring { buf = t.0 }; writer = copying t.1 [] i }))
        (ap₂ (λ a b. (a, b))
          (ap₂ (λ (a b : ℕ). put_all (2 ^ k) (set s.ring.buf a x) b rest)
            (slot_lem w k narrow i (length copied) (omega arith))
            (omega (arith, length-append copied (x ∷ []))))
          (append_assoc copied (x ∷ []) rest))
        (copies bytes s0 rest (copied ++ (x ∷ [])) i
          (record s {
            ring = record s.ring { buf = set s.ring.buf (slot w k i (length copied)) x };
          })
          (write_going r (copy refl) tt) (omega (arith, length-append copied (x ∷ []))))

  -- The state after a `write` that ends with `done`.
  abbrev pub wrote : System → List ℕ → Bool × IsrRing → System
  wrote s bytes (done, ring) = record s {
    ring = ring;
    writer = waiting;
    taken = if done then s.taken ++ bytes else s.taken;
  }

  refused-WriteRun :
      (s : System) (bytes : List ℕ)
      → IsValid w k s.ring
      → 2 ^ k < available w k s.ring + length bytes
      → WriteRun w k bytes
          (record s { writer = waiting })
          (wrote s bytes (false, drop_one w s.ring))
  unfolding available
  refused-WriteRun s bytes v h = elim (Bool-cases (ltb (2 ^ k) (length bytes))) [
    | inl long ↦ write_called (too_long bytes refl (ltb→lt _ _ long)) refl
    | inr short ↦
        write_going (write_called (load_write bytes refl (ltb_false→le _ _ short)) refl)
          (no_room refl (omega (arith, room_left w k narrow s.ring v))) tt
  ]

  stored-WriteRun :
      (s : System) (bytes : List ℕ)
      → IsValid w k s.ring
      → available w k s.ring + length bytes ≤ 2 ^ k
      → WriteRun w k bytes
          (record s { writer = waiting })
          (wrote s bytes (
            true,
            record s.ring {
              buf = stored w k s.ring bytes;
              write_idx = (s.ring.write_idx + length bytes) % 2 ^ w;
            },
          ))
  unfolding available
  stored-WriteRun s bytes v h =
      subst
        (λ xs.
          WriteRun w k bytes (record s { writer = waiting })
            (wrote s bytes (
              true,
              record s.ring { buf = xs; write_idx = (s.ring.write_idx + length bytes) % 2 ^ w },
            )))
        (ap (λ (i : ℕ). put_all (2 ^ k) s.ring.buf i bytes) (omega arith)
          ∙ sym (stored-put_all w k narrow s.ring bytes (omega arith)))
        (write_going
          (copies bytes (record s { writer = waiting }) bytes [] s.ring.write_idx s
            (write_going (write_called (load_write bytes refl (omega arith)) refl)
              (room refl (omega (arith, room_left w k narrow s.ring v))) tt)
            (omega arith))
          (store_write refl) tt)

  -- For a ring of fewer bytes than `size_t` counts, in every state that an interleaving can get
  -- into where no write is going on, wherever the task stands in a read: a `write` as a whole is
  -- one call of write with its bytes, step by step from its start to its return and with no step of
  -- another write or of a read, and the bytes are taken exactly if it returns true.
  pub write-WriteRun :
      (s : System) (bytes : List ℕ)
      → Reach w k (record s { writer = waiting })
      → WriteRun w k bytes (record s { writer = waiting }) (wrote s bytes (write w k s.ring bytes))
  unfolding dropped
  write-WriteRun s bytes r =
      let v = (Reach-IsOrdered w k narrow r).valid in
      elim (Bool-cases (ltb (2 ^ k) (available w k s.ring + length bytes))) [
        | inl over ↦
            subst (λ p. WriteRun w k bytes (record s { writer = waiting }) (wrote s bytes p))
              (sym (write-dropped w k narrow s.ring bytes v (ltb→lt _ _ over)))
              (refused-WriteRun s bytes v (ltb→lt _ _ over))
        | inr fits ↦
            subst (λ p. WriteRun w k bytes (record s { writer = waiting }) (wrote s bytes p))
              (sym (write-stored w k narrow s.ring bytes v (ltb_false→le _ _ fits)))
              (stored-WriteRun s bytes v (ltb_false→le _ _ fits))
      ]

  -- The rest of a read, a byte at a time.
  fetches :
      (max : ℕ) (s0 : System) (m : ℕ) (s : System) (n j : ℕ)
      → ReadRun w k max s0
          (record s { reader = fetching (window (2 ^ k) s.ring.buf s.ring.read_idx j) n })
      → j + m ≡ n
      → n ≤ 2 ^ k
      → ReadRun w k max s0
          (record s { reader = fetching (window (2 ^ k) s.ring.buf s.ring.read_idx n) n })
  fetches max s0 zero s n j r h g =
      subst
        (λ i.
          ReadRun w k max s0
            (record s { reader = fetching (window (2 ^ k) s.ring.buf s.ring.read_idx i) n }))
        (let p : j ≡ n = omega arith in p) r
  fetches max s0 (suc m) s n j r h g =
      fetches max s0 m s n (j + 1)
        (subst (λ xs. ReadRun w k max s0 (record s { reader = fetching xs n }))
          (ap
              (λ (i : ℕ).
                window (2 ^ k) s.ring.buf s.ring.read_idx j ++ (get_or s.ring.buf i 0 ∷ []))
              (slot_lem w k narrow s.ring.read_idx _
                  (omega (arith, length-window (2 ^ k) s.ring.buf s.ring.read_idx j))
                ∙ ap (λ (i : ℕ). (s.ring.read_idx + i) % 2 ^ k)
                    (length-window (2 ^ k) s.ring.buf s.ring.read_idx j))
            ∙ sym (window-add (2 ^ k) s.ring.buf s.ring.read_idx j 1))
          (read_going r
            (fetch refl (omega (arith, length-window (2 ^ k) s.ring.buf s.ring.read_idx j))) tt))
        (omega arith) g

  -- For a ring of fewer bytes than `size_t` counts, in every state that an interleaving can get
  -- into where no read is going on, wherever the interrupt stands in a write: a `read` as a whole
  -- is one call of read for at most that many bytes, step by step from its start to its return and
  -- with no step of another read or of a write, and the bytes that it returns are those that `read`
  -- gives.
  pub read-ReadRun :
      (s : System) (max : ℕ)
      → Reach w k (record s { reader = resting })
      → let (out, ring) = read w k s.ring max in
        ReadRun w k max
          (record s { reader = resting })
          (record s { ring = ring; reader = resting; returned = s.returned ++ out })
  unfolding read available
  read-ReadRun s max r =
      elim (Bool-cases (sub_size w s.ring.write_idx s.ring.read_idx == 0 || max == 0)) [
        | inl none ↦ rw none (
            subst
              (λ xs.
                ReadRun w k max (record s { reader = resting })
                  (record s { reader = resting; returned = xs }))
              (sym (append-nil s.returned)) (read_called (nothing max refl none) refl))
        | inr some_bytes ↦ rw some_bytes (
            subst
              (λ xs.
                ReadRun w k max (record s { reader = resting })
                  (record s {
                    ring = record s.ring { read_idx = (s.ring.read_idx + n) % 2 ^ w };
                    reader = resting;
                    returned = s.returned ++ xs;
                  }))
              (sym (loaded-window w k narrow s.ring n (Reach-IsOrdered w k narrow r).valid small))
              (read_going
                (fetches max (record s { reader = resting }) n s n 0
                  (read_called (load_avail max refl some_bytes) refl) (omega arith) small)
                (store_read refl (length-window (2 ^ k) s.ring.buf s.ring.read_idx n)) tt))
      ]
    where
      n : ℕ
      n =
          if ltb max (sub_size w s.ring.write_idx s.ring.read_idx)
          then max
          else sub_size w s.ring.write_idx s.ring.read_idx

      small : n ≤ 2 ^ k
      small = ground (arith, (Reach-IsOrdered w k narrow r).valid.held)
