-- ===== src/IsrRing/Interleave/Stores.antt =====
-- The steps of a write and of a read in include/ISRRingBuffer.hpp that change the ring.
use native.Mathlib.Nat.{mod-lt}
use florid_usb_protocols.Prelude.{
  ℕ, ◌+◌, ◌-◌, ◌%◌, ◌^◌, ◌≤◌, ◌<◌, ◌≡◌, refl, ap, ap₂, sym, ◌∙◌, List, [], ◌∷◌, ◌++◌, append_assoc,
  arith, length, set, length-set, length-append,
}
use florid_usb_protocols.Prelude.Bits.{mod-mod_pow}
use florid_usb_protocols.IsrRing.{sub_size}
use florid_usb_protocols.IsrRing.Window.{window, window-add, window-mod}
use florid_usb_protocols.IsrRing.Queue.{cap-word, diff_add, diff_sub}
use florid_usb_protocols.IsrRing.Refine.{write_place}
use florid_usb_protocols.IsrRing.Interleave.{waiting, copying, resting, fetching, System, slot}
use florid_usb_protocols.IsrRing.Interleave.Knowledge.{
  held, IsWriting, IsReading, IsOrdered, slot_lem, keep-IsReading, keep-IsWriting, more, more-held,
  more-copied,
}

module _ (w k : ℕ) (narrow : k < w) where
  pub copy-IsOrdered :
      (s : System) (x : ℕ) (copied rest : List ℕ) (i : ℕ)
      → IsOrdered w k narrow s
      → IsWriting w k narrow s.ring (copying copied (x ∷ rest) i)
      → IsOrdered w k narrow (record s {
        ring = record s.ring { buf = set s.ring.buf (slot w k i (length copied)) x };
        writer = copying (copied ++ (x ∷ [])) rest i;
      })
  copy-IsOrdered s x copied rest i v g =
      rw (g.0, slot_lem w k narrow s.ring.write_idx (length copied) (omega (arith, g.1)))
        (record {
          valid = record {
            full =
                length-set s.ring.buf ((s.ring.write_idx + length copied) % 2 ^ k) x ∙ v.valid.full;
            write_word = v.valid.write_word;
            read_word = v.valid.read_word;
            held = v.valid.held;
          };
          in_order =
              v.in_order
              ∙ ap (λ t. s.returned ++ t) (sym (kept (held w k narrow s.ring) (omega arith)));
          writing = (
            refl,
            omega (arith, g.1, length-append copied (x ∷ [])),
            more-copied w k narrow s.ring v.valid (length copied) x fits copied refl g.2,
          );
          reading =
              keep-IsReading w k narrow s.ring
                (record s.ring { buf = more w k narrow s.ring v.valid (length copied) x fits })
                s.reader (omega arith) kept v.reading;
        })
    where
      fits : held w k narrow s.ring + length copied < 2 ^ k
      fits = omega (arith, g.1)

      kept :
          (n : ℕ)
          → n ≤ held w k narrow s.ring
          → window (2 ^ k) (more w k narrow s.ring v.valid (length copied) x fits) s.ring.read_idx n
            ≡ window (2 ^ k) s.ring.buf s.ring.read_idx n
      kept = more-held w k narrow s.ring v.valid (length copied) x fits

  -- The new write index makes the copied bytes part of those that wait.
  pub store_write-IsOrdered :
      (s : System) (copied : List ℕ) (i : ℕ)
      → IsOrdered w k narrow s
      → IsWriting w k narrow s.ring (copying copied [] i)
      → IsOrdered w k narrow (record s {
        ring = record s.ring { write_idx = (i + length copied) % 2 ^ w };
        writer = waiting;
        taken = s.taken ++ copied;
      })
  store_write-IsOrdered s copied i v g = rw (g.0) (record {
    valid = record {
      full = v.valid.full;
      write_word = mod-lt (s.ring.write_idx + m) {m = 2 ^ w} (omega (arith, cap-word w k narrow));
      read_word = v.valid.read_word;
      held = omega (arith, grown, g.1);
    };
    in_order =
        ap₂ ◌++◌ v.in_order (sym g.2)
        ∙ append_assoc s.returned (window c s.ring.buf s.ring.read_idx (held w k narrow s.ring))
            (window c s.ring.buf s.ring.write_idx m)
        ∙ ap (λ t. s.returned ++ t)
            (ap (λ t. window c s.ring.buf s.ring.read_idx (held w k narrow s.ring) ++ t)
                (window-mod c s.ring.buf s.ring.write_idx (s.ring.read_idx + held w k narrow s.ring)
                  m (write_place w k narrow s.ring v.valid))
              ∙ sym (window-add c s.ring.buf s.ring.read_idx (held w k narrow s.ring) m)
              ∙ ap (window c s.ring.buf s.ring.read_idx) (sym grown));
    writing = tt;
    reading =
        keep-IsReading w k narrow s.ring
          (record s.ring { write_idx = (s.ring.write_idx + m) % 2 ^ w }) s.reader
          (omega (arith, grown)) (λ n h. refl) v.reading;
  })
    where
      c : ℕ
      c = 2 ^ k

      m : ℕ
      m = length copied

      grown :
          sub_size w ((s.ring.write_idx + m) % 2 ^ w) s.ring.read_idx ≡ held w k narrow s.ring + m
      grown =
          diff_add (2 ^ w) s.ring.write_idx s.ring.read_idx m v.valid.write_word v.valid.read_word
            (omega (arith, cap-word w k narrow, g.1))

  -- The new read index takes the bytes out that have been copied.
  pub store_read-IsOrdered :
      (s : System) (out : List ℕ) (n : ℕ)
      → IsOrdered w k narrow s
      → IsReading w k narrow s.ring (fetching out n)
      → length out ≡ n
      → IsOrdered w k narrow (record s {
        ring = record s.ring { read_idx = (s.ring.read_idx + n) % 2 ^ w };
        reader = resting;
        returned = s.returned ++ out;
      })
  store_read-IsOrdered s out n v g e = record {
    valid = record {
      full = v.valid.full;
      write_word = v.valid.write_word;
      read_word = mod-lt (s.ring.read_idx + n) {m = 2 ^ w} (omega (arith, cap-word w k narrow));
      held = omega (arith, shrunk, v.valid.held);
    };
    in_order =
        v.in_order
        ∙ ap (λ t. s.returned ++ t)
            (ap (window c s.ring.buf s.ring.read_idx) (
                let p : held w k narrow s.ring ≡ n + (held w k narrow s.ring - n) =
                  omega (arith, g.0) in
                p)
              ∙ window-add c s.ring.buf s.ring.read_idx n (held w k narrow s.ring - n)
              ∙ ap₂ ◌++◌ (ap (window c s.ring.buf s.ring.read_idx) (sym e) ∙ g.2) (
                  window-mod c s.ring.buf (s.ring.read_idx + n) ((s.ring.read_idx + n) % 2 ^ w)
                    (held w k narrow s.ring - n)
                    (sym (mod-mod_pow w k (s.ring.read_idx + n) (omega arith)))
                  ∙ ap (window c s.ring.buf ((s.ring.read_idx + n) % 2 ^ w)) (sym shrunk)))
        ∙ sym (append_assoc s.returned out _);
    writing =
        keep-IsWriting w k narrow s.ring
          (record s.ring { read_idx = (s.ring.read_idx + n) % 2 ^ w }) s.writer
          (omega (arith, shrunk)) refl refl v.writing;
    reading = tt;
  }
    where
      c : ℕ
      c = 2 ^ k

      shrunk :
          sub_size w s.ring.write_idx ((s.ring.read_idx + n) % 2 ^ w) ≡ held w k narrow s.ring - n
      shrunk =
          diff_sub (2 ^ w) s.ring.write_idx s.ring.read_idx n v.valid.write_word v.valid.read_word
            g.0
