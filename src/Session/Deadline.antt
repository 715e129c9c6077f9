-- ===== src/Session/Deadline.antt =====
-- `next_deadline` of include/ReliableSession.hpp: when the task has to wake up.
use florid_usb_protocols.Prelude.{
  ℕ, ◌≤◌, ◌≡◌, refl, ap, sym, ◌∙◌, inl, inr, ◌⊎◌, true, Option, none, some, List, [], ◌∷◌, arith,
  ltb, ◌==◌, if◌then◌else◌, Bool-cases, Option-cases, ==_refl,
}
use florid_usb_protocols.Platform.{Platform, IsPlatform}
use florid_usb_protocols.Platform.Lookup.{lookup, Uniq}
use florid_usb_protocols.Session.{Session, next_deadline, earliest, sooner}
use florid_usb_protocols.Session.Entry.{PendingEntry}

-- A deadline no later than `d`.
abbrev IsBy : Option ℕ → ℕ → Type 0
IsBy o d = (e : ℕ) × (o ≡ some e) × (e ≤ d)

sooner-IsBy : (deadline : ℕ) (best : Option ℕ) → IsBy (sooner deadline best) deadline
unfolding sooner
sooner-IsBy deadline none = (deadline, refl, omega arith)
sooner-IsBy deadline (some d) = elim (Bool-cases (ltb deadline d)) [
  | inl e ↦ (deadline, ground (arith, e), omega arith)
  | inr e ↦ (d, ground (arith, e), ground (arith, e))
]

sooner-IsBy_best : (deadline d : ℕ) → IsBy (sooner deadline (some d)) d
unfolding sooner
sooner-IsBy_best deadline d = elim (Bool-cases (ltb deadline d)) [
  | inl e ↦ (deadline, ground (arith, e), ground (arith, e))
  | inr e ↦ (d, ground (arith, e), omega arith)
]

-- The loop never goes back to a later deadline.
earliest-IsBy_best :
    (xs : List (ℕ × PendingEntry)) (best : Option ℕ) (d : ℕ)
    → IsBy best d
    → IsBy (earliest best xs) d
unfolding earliest
earliest-IsBy_best [] best d h = h
earliest-IsBy_best ((tx, p) ∷ xs) best d (e, is, le) = elim (Bool-cases p.inflight) [
  | inl flying ↦
      let (f, is', le') = sooner-IsBy_best p.deadline e in
      rw flying (
        earliest-IsBy_best xs (sooner p.deadline best) d
          (f, ap (sooner p.deadline) is ∙ is', omega arith))
  | inr idle ↦ rw idle (earliest-IsBy_best xs best d (e, is, le))
]

earliest-IsBy :
    (xs : List (ℕ × PendingEntry)) (best : Option ℕ) (tx : ℕ) (p : PendingEntry)
    → lookup tx xs ≡ some p
    → p.inflight ≡ true
    → IsBy (earliest best xs) p.deadline
unfolding earliest
earliest-IsBy [] best tx p h flying = cc
earliest-IsBy ((k, q) ∷ xs) best tx p h flying = elim (Bool-cases (k == tx)) [
  | inl here ↦
      let same : q ≡ p = ground (arith, h, here) in
      let q_flying : q.inflight ≡ true = ap (λ r. r.inflight) same ∙ flying in
      let (e, is, le) =
        earliest-IsBy_best xs (sooner q.deadline best) q.deadline (sooner-IsBy q.deadline best) in
      rw q_flying (e, is, omega (arith, le, ap (λ r. r.deadline) same))
  | inr there ↦ earliest-IsBy xs _ tx p (ground (arith, h, there)) flying
]

-- An entry in flight whose deadline is `d`.
abbrev pub IsDeadline : (ℕ → Option PendingEntry) → ℕ → Type 0
IsDeadline find d =
    (tx : ℕ) × (p : PendingEntry) × (find tx ≡ some p) × (p.inflight ≡ true) × (p.deadline ≡ d)

-- Where the deadline comes from that one round of the loop leaves.
sooner-cases :
    (q : PendingEntry) (best : Option ℕ) (d : ℕ)
    → (if q.inflight then sooner q.deadline best else best) ≡ some d
    → (best ≡ some d) ⊎ ((q.inflight ≡ true) × (q.deadline ≡ d))
unfolding sooner
sooner-cases q best d e = elim (Bool-cases q.inflight) [
  | inr idle ↦ inl (ground (arith, e, idle))
  | inl flying ↦ elim (Option-cases best) [
    | inl first ↦ inr (flying, ground (arith, e, flying, first))
    | inr (b, other) ↦ elim (Bool-cases (ltb q.deadline b)) [
      | inl less ↦ inr (flying, ground (arith, e, flying, other, less))
      | inr more ↦ inl (ground (arith, e, flying, other, more))
    ]
  ]
]

earliest-IsDeadline :
    (xs : List (ℕ × PendingEntry)) (best : Option ℕ) (d : ℕ)
    → Uniq xs
    → earliest best xs ≡ some d
    → (best ≡ some d) ⊎ IsDeadline (λ tx. lookup tx xs) d
unfolding earliest
earliest-IsDeadline [] best d u h = inl h
earliest-IsDeadline ((k, q) ∷ xs) best d u h =
    elim (earliest-IsDeadline xs (if q.inflight then sooner q.deadline best else best) d u.1 h) [
      | inl e ↦ elim (sooner-cases q best d e) [
        | inl old ↦ inl old
        | inr (flying, same) ↦ inr (k, q, rw (==_refl k) refl, flying, same)
      ]
      | inr (tx, p, found, flying, same) ↦ inr (tx, p, ground (arith, found, u.0), flying, same)
    ]

module _ (P : Platform) (L : IsPlatform P) where
  -- With a map that behaves as documented, whatever its order: if an entry is in flight,
  -- `next_deadline` gives a deadline, and one no later than that of the entry.
  pub next_deadline-le :
      (s : Session P) (tx : ℕ) (p : PendingEntry)
      → P.find PendingEntry tx s.pending ≡ some p
      → p.inflight ≡ true
      → (d : ℕ) × (next_deadline P s ≡ some d) × (d ≤ p.deadline)
  unfolding next_deadline
  next_deadline-le s tx p h flying =
      earliest-IsBy (P.entries PendingEntry s.pending) none tx p
        (sym (L.find-entries PendingEntry tx s.pending) ∙ h) flying

  -- With a map that behaves as documented, whatever its order: a deadline that `next_deadline`
  -- gives is that of an entry in flight.
  pub next_deadline-IsDeadline :
      (s : Session P) (d : ℕ)
      → next_deadline P s ≡ some d
      → IsDeadline (λ tx. P.find PendingEntry tx s.pending) d
  unfolding next_deadline
  next_deadline-IsDeadline s d h =
      elim (earliest-IsDeadline (P.entries PendingEntry s.pending) none d
        (L.entries-Uniq PendingEntry s.pending) h) [
          | inl e ↦ cc e
          | inr (tx, p, found, flying, same) ↦
              (tx, p, L.find-entries PendingEntry tx s.pending ∙ found, flying, same)
        ]
