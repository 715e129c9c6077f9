-- ===== src/Tests/Interleaved.antt =====
-- Runs of the receive ring of include/ISRRingBuffer.hpp where a write and a read interleave.
use florid_usb_protocols.Prelude.{◌≡◌, refl, [], ◌∷◌, ◌++◌, arith}
use florid_usb_protocols.Prelude.Eq.{nat_regular}
use florid_usb_protocols.IsrRing.{cleared, write, read}
use florid_usb_protocols.IsrRing.Queue.{contents}
use florid_usb_protocols.IsrRing.Interleave.{
  System, waiting, loaded, resting, fetching, slot, load_write, room, copy, store_write, load_avail,
  fetch, begin, Reach, start, later,
}
use florid_usb_protocols.IsrRing.Interleave.Order.{interleaved_fifo}
use florid_usb_protocols.IsrRing.Interleave.Calls.{WriteRun, ReadRun}
use florid_usb_protocols.IsrRing.Interleave.Whole.{wrote, write-WriteRun, read-ReadRun}

-- Two bytes are written.
abbrev written : System
written = record {
  ring = record { buf = 5 ∷ 6 ∷ 0 ∷ 0 ∷ []; write_idx = 2; read_idx = 0; drop_count = 0 };
  writer = waiting;
  reader = resting;
  taken = 5 ∷ 6 ∷ [];
  returned = [];
}

written-Reach : Reach 8 2 written
unfolding begin cleared slot
written-Reach =
    later
      (later
        (later
          (later (later start (load_write (5 ∷ 6 ∷ []) refl (omega arith)))
            (room refl (omega arith)))
          (copy refl))
        (copy refl))
      (store_write refl)

-- A read has fetched the first of them when the next write starts.
abbrev crossing : System
crossing = record written { writer = loaded (7 ∷ []) 2; reader = fetching (5 ∷ []) 2 }

crossing-Reach : Reach 8 2 crossing
unfolding slot
crossing-Reach =
    later
      (later (later written-Reach (load_avail 8 refl refl))
        (load_write (7 ∷ []) refl (omega arith)))
      (fetch refl (omega arith))

interleaved_fifo_example : crossing.taken ≡ crossing.returned ++ contents 8 2 crossing.ring
interleaved_fifo_example = interleaved_fifo 8 2 (omega arith) crossing-Reach

write-WriteRun_example :
    WriteRun 8 2
      (8 ∷ [])
      written
      (wrote 8 2 (omega arith) written (8 ∷ []) (write 8 2 written.ring (8 ∷ [])))
write-WriteRun_example = write-WriteRun 8 2 (omega arith) written (8 ∷ []) written-Reach

read-ReadRun_example :
    let (out, ring) = read 8 2 written.ring 1 in
    ReadRun 8 2 1 written (record written { ring = ring; reader = resting; returned = [] ++ out })
read-ReadRun_example = read-ReadRun 8 2 (omega arith) written 1 written-Reach
