-- ===== src/IsrRing/Interleave/Order.antt =====
-- The bytes of include/ISRRingBuffer.hpp in every interleaving of a write with a read.
use florid_usb_protocols.Prelude.{
  ℕ, ◌^◌, ◌<◌, ◌≡◌, refl, ap, ap₂, sym, ◌∙◌, subst, List, [], ◌∷◌, ◌++◌, arith, length, get_or,
  length-append,
}
use florid_usb_protocols.IsrRing.{IsrRing, sub_size, cleared}
use florid_usb_protocols.IsrRing.Window.{window, window-add}
use florid_usb_protocols.IsrRing.Queue.{IsValid, contents, room as room_left}
use florid_usb_protocols.IsrRing.Refine.{cleared-IsValid, empty_sub}
use florid_usb_protocols.IsrRing.Interleave.{
  drop_one, Writer, waiting, loaded, copying, Reader, fetching, System, Step, too_long, load_write,
  no_room, room, copy, store_write, nothing, load_avail, fetch, store_read, begin, Reach, start,
  later, slot,
}
use florid_usb_protocols.IsrRing.Interleave.Knowledge.{
  IsWriting, IsReading, IsOrdered, slot_lem, keep-IsReading, keep-IsWriting, drop-IsValid,
}
use florid_usb_protocols.IsrRing.Interleave.Stores.{
  copy-IsOrdered, store_write-IsOrdered, store_read-IsOrdered,
}

module _ (w k : ℕ) (narrow : k < w) where
  drop-IsOrdered :
      (s : System)
      → IsOrdered w k narrow s
      → IsOrdered w k narrow (record s { ring = drop_one w s.ring })
  drop-IsOrdered s v = record {
    valid = drop-IsValid w k narrow s.ring _ v.valid;
    in_order = v.in_order;
    writing =
        keep-IsWriting w k narrow s.ring (drop_one w s.ring) s.writer (omega arith) refl refl
          v.writing;
    reading =
        keep-IsReading w k narrow s.ring (drop_one w s.ring) s.reader (omega arith) (λ n h. refl)
          v.reading;
  }

  with_writer :
      (s : System) (q : Writer)
      → IsOrdered w k narrow s
      → IsWriting w k narrow s.ring q
      → IsOrdered w k narrow (record s { writer = q })
  with_writer s q v g = record {
    valid = v.valid;
    in_order = v.in_order;
    writing = g;
    reading = v.reading;
  }

  with_reader :
      (s : System) (q : Reader)
      → IsOrdered w k narrow s
      → IsReading w k narrow s.ring q
      → IsOrdered w k narrow (record s { reader = q })
  with_reader s q v g = record {
    valid = v.valid;
    in_order = v.in_order;
    writing = v.writing;
    reading = g;
  }

  -- One more w k narrow byte is fetched.
  fetch-IsReading :
      (r : IsrRing) (out : List ℕ) (n : ℕ)
      → IsValid w k r
      → IsReading w k narrow r (fetching out n)
      → length out < n
      → IsReading w k narrow r
          (fetching (out ++ (get_or r.buf (slot w k r.read_idx (length out)) 0 ∷ [])) n)
  fetch-IsReading r out n v g h = (
    g.0,
    omega (arith, length-append out (get_or r.buf (slot w k r.read_idx (length out)) 0 ∷ [])),
    ap (window (2 ^ k) r.buf r.read_idx)
          (length-append out (get_or r.buf (slot w k r.read_idx (length out)) 0 ∷ []))
        ∙ window-add (2 ^ k) r.buf r.read_idx (length out) 1
        ∙ ap₂ (λ xs (j : ℕ). xs ++ (get_or r.buf j 0 ∷ [])) g.2
            (sym (slot_lem w k narrow r.read_idx (length out) (omega (arith, g.0, v.held)))),
  )

  pub Step-IsOrdered :
      {s t : System} → Step w k s t → IsOrdered w k narrow s → IsOrdered w k narrow t
  Step-IsOrdered (too_long bytes e h) v = drop-IsOrdered _ v
  Step-IsOrdered (load_write bytes e h) v = with_writer _ (loaded bytes _) v (refl, h)
  Step-IsOrdered (no_room e h) v = with_writer _ waiting (drop-IsOrdered _ v) tt
  Step-IsOrdered {s} (room {bytes} {i} e h) v =
      let g : IsWriting w k narrow s.ring (loaded bytes i) =
        subst (IsWriting w k narrow s.ring) e v.writing in
      with_writer s (copying [] bytes i) v (
        g.0,
        omega (
          arith,
          h,
          ap (λ (j : ℕ). sub_size w (2 ^ k) (sub_size w j s.ring.read_idx)) g.0,
          room_left w k narrow s.ring v.valid,
          v.valid.held,
        ),
        refl,
      )
  Step-IsOrdered {s} (copy e) v =
      copy-IsOrdered w k narrow s _ _ _ _ v (subst (IsWriting w k narrow s.ring) e v.writing)
  Step-IsOrdered {s} (store_write e) v =
      store_write-IsOrdered w k narrow s _ _ v (subst (IsWriting w k narrow s.ring) e v.writing)
  Step-IsOrdered (nothing max e h) v = v
  Step-IsOrdered (load_avail max e h) v =
      with_reader _ (fetching [] _) v (ground arith, omega arith, refl)
  Step-IsOrdered {s} (fetch e h) v =
      with_reader s _ v
        (fetch-IsReading s.ring _ _ v.valid (subst (IsReading w k narrow s.ring) e v.reading) h)
  Step-IsOrdered {s} (store_read e h) v =
      store_read-IsOrdered w k narrow s _ _ v (subst (IsReading w k narrow s.ring) e v.reading) h

  begin-IsOrdered : IsOrdered w k narrow (begin w k)
  unfolding begin cleared
  begin-IsOrdered = record {
    valid = cleared-IsValid w k narrow;
    in_order = ap (window (2 ^ k) _ 0) (sym (empty_sub w));
    writing = tt;
    reading = tt;
  }

  pub Reach-IsOrdered : {s : System} → Reach w k s → IsOrdered w k narrow s
  Reach-IsOrdered start = begin-IsOrdered
  Reach-IsOrdered (later r st) = Step-IsOrdered st (Reach-IsOrdered r)

  -- For a ring of fewer bytes than `size_t` counts, in every interleaving of the loads, stores and
  -- copied bytes of writes by the interrupt with those of reads by the task, all sequentially
  -- consistent: the bytes that reads have returned are those that writes have taken, in the same
  -- order and none twice, less those that wait in the ring.
  pub interleaved_fifo : {s : System} → Reach w k s → s.taken ≡ s.returned ++ contents w k s.ring
  unfolding contents
  interleaved_fifo r = (Reach-IsOrdered r).in_order
