-- ===== src/IsrRing/Interleave/Calls.antt =====
-- One call of `write` or of `read` of include/ISRRingBuffer.hpp as a run of its steps.
use florid_usb_protocols.Prelude.{ℕ, ◌≡◌, List}
use florid_usb_protocols.IsrRing.Interleave.{
  System, too_long, load_write, no_room, room, copy, store_write, nothing, load_avail, fetch,
  store_read, Step,
}

module _ (w k : ℕ) where
  -- The step is the call of `write` with these bytes, up to its return or its load of the index.
  abbrev pub IsWriteCall : List ℕ → {s t : System} → Step w k s t → Type 0
  IsWriteCall bytes (too_long own w long) = own ≡ bytes
  IsWriteCall bytes (load_write own w short) = own ≡ bytes
  IsWriteCall bytes _ = ⊥

  -- The step is a later one of the write that has been called.
  abbrev pub IsWriteGoing : {s t : System} → Step w k s t → Type 0
  IsWriteGoing (no_room w h) = Unit
  IsWriteGoing (room w h) = Unit
  IsWriteGoing (copy w) = Unit
  IsWriteGoing (store_write w) = Unit
  IsWriteGoing _ = ⊥

  -- One call of `write` with these bytes, from `s`, and no step of another: it has returned in a
  -- state whose writer is waiting.
  pub data WriteRun (bytes : List ℕ) (s : System) : System → Type 0 where
    write_called : {t : System} (st : Step w k s t) → IsWriteCall bytes st → WriteRun bytes s t
    write_going :
        {t u : System}
        → WriteRun bytes s t
        → (st : Step w k t u) → IsWriteGoing st
        → WriteRun bytes s u

  abbrev pub IsReadCall : ℕ → {s t : System} → Step w k s t → Type 0
  IsReadCall max (nothing own r h) = own ≡ max
  IsReadCall max (load_avail own r h) = own ≡ max
  IsReadCall max _ = ⊥

  abbrev pub IsReadGoing : {s t : System} → Step w k s t → Type 0
  IsReadGoing (fetch r h) = Unit
  IsReadGoing (store_read r h) = Unit
  IsReadGoing _ = ⊥

  -- One call of `read` for at most `max` bytes, from `s`, and no step of another: it has returned
  -- in a state whose reader is resting.
  pub data ReadRun (max : ℕ) (s : System) : System → Type 0 where
    read_called : {t : System} (st : Step w k s t) → IsReadCall max st → ReadRun max s t
    read_going :
        {t u : System} → ReadRun max s t → (st : Step w k t u) → IsReadGoing st → ReadRun max s u
