-- ===== src/Session/Poll/Visits.antt =====
-- The loop of `poll` in include/ReliableSession.hpp as a list of visits.
use florid_usb_protocols.Prelude.{
  ℕ, zero, suc, ◌+◌, ◌≤◌, ◌≡◌, ◌≢◌, refl, ap, sym, ◌∙◌, subst, append-nil, inl, inr, true, false,
  none, some, List, [], ◌∷◌, ◌++◌, append_assoc, arith, length, get_elem?, ◌==◌, if◌then◌else◌,
  Bool-cases, Option-cases, length-append,
}
use florid_usb_protocols.Platform.{Platform, IsPlatform}
use florid_usb_protocols.Platform.Lookup.{
  lookup, replace, Uniq, lookup-append, lookup-middle, replace-middle, Uniq-append,
  get_elem?-middle, get_elem?-end,
}
use florid_usb_protocols.Platform.Total.{length-erase}
use florid_usb_protocols.Session.Entry.{PendingEntry}
use florid_usb_protocols.Session.Poll.{
  Polled, is_due, is_exhausted, retried, visit, poll_loop, PollRun, at_end,
  visited as round_visited,
}

module _ (P : Platform) (now : ℕ) (clock : ℕ → ℕ) where
  -- The visits of a list of entries, one after the other.
  unfoldable pub visit_all : List (ℕ × PendingEntry) → Polled P → Polled P
  visit_all [] s = s
  visit_all ((tx, p) ∷ rest) s = visit_all rest (visit P now clock tx p s).1

  -- The entries that the loop goes through from `after` on, in some order.
  pub record Visits (after : List (ℕ × PendingEntry)) (s result : Polled P) : Type 0 where
    pub visited : List (ℕ × PendingEntry)
    pub all : result ≡ visit_all visited s
    pub once : Uniq visited
    pub same : (tx : ℕ) → lookup tx visited ≡ lookup tx after

  visit-skip :
      (tx : ℕ) (p : PendingEntry) (s : Polled P)
      → is_due now p ≡ false
      → visit P now clock tx p s ≡ (false, s)
  unfolding visit
  visit-skip tx p s e = rw e

  visit-expire :
      (tx : ℕ) (p : PendingEntry) (s : Polled P)
      → is_due now p ≡ true
      → is_exhausted p ≡ true
      → ((visit P now clock tx p s).0 ≡ true)
        × ((visit P now clock tx p s).1.pending ≡ P.erase PendingEntry tx s.pending)
  unfolding visit
  visit-expire tx p s e f = rw (e, f) (refl, refl)

  visit-retry :
      (tx : ℕ) (p : PendingEntry) (s : Polled P)
      → is_due now p ≡ true
      → is_exhausted p ≡ false
      → ((visit P now clock tx p s).0 ≡ false)
        × ((visit P now clock tx p s).1.pending
            ≡ P.insert_or_assign PendingEntry tx (retried (clock tx) p) s.pending)
  unfolding visit
  visit-retry tx p s e f = rw (e, f) (refl, refl)

  poll_loop-step :
      (n i tx : ℕ) (p : PendingEntry) (s : Polled P)
      → get_elem? (P.entries PendingEntry s.pending) i ≡ some (tx, p)
      → poll_loop P now clock (suc n) i s
        ≡ poll_loop P now clock n
            (if (visit P now clock tx p s).0 then i else i + 1)
            (visit P now clock tx p s).1
  unfolding poll_loop
  poll_loop-step n i tx p s e = rw (e, poll_loop)

  poll_loop-end :
      (n i : ℕ) (s : Polled P)
      → get_elem? (P.entries PendingEntry s.pending) i ≡ none
      → poll_loop P now clock n i s ≡ s
  unfolding poll_loop
  poll_loop-end zero i s e = refl
  poll_loop-end (suc n) i s e = rw (e, poll_loop)

  Visits-cons :
      (tx : ℕ) (p : PendingEntry) (after after' : List (ℕ × PendingEntry)) (s : Polled P)
      {result : Polled P}
      → lookup tx after' ≡ none
      → ((j : ℕ) → tx ≢ j → lookup j after' ≡ lookup j after)
      → Visits after' (visit P now clock tx p s).1 result
      → Visits ((tx, p) ∷ after) s result
  unfolding visit_all
  Visits-cons tx p after after' s gone others v = record {
    visited = (tx, p) ∷ v.visited;
    all = v.all;
    once = (v.same tx ∙ gone, v.once);
    same = λ j. elim (Bool-cases (tx == j)) [
      | inl eq ↦ rw eq refl
      | inr ne ↦ rw ne (v.same j ∙ others j (λ e. ground (arith, e)))
    ];
  }

  module _ (L : IsPlatform P) where
    -- What `erase` leaves behind the erased element, in whatever order.
    behind :
        (tx : ℕ) (p : PendingEntry) (before after moved : List (ℕ × PendingEntry)) (s : Polled P)
        → P.entries PendingEntry s.pending ≡ before ++ ((tx, p) ∷ after)
        → P.entries PendingEntry (P.erase PendingEntry tx s.pending) ≡ before ++ moved
        → (j : ℕ) → lookup j moved ≡ (if tx == j then none else lookup j after)
    behind tx p before after moved s e e' j = elim (Option-cases (lookup j before)) [
      | inl absent ↦ ground (
        arith,
        absent,
        lookups,
        lookup-append j before moved,
        lookup-append j before ((tx, p) ∷ after),
      )
      | inr (v, here) ↦ ground (
        arith,
        Uniq-append before moved j v
            (subst Uniq e' (L.entries-Uniq PendingEntry (P.erase PendingEntry tx s.pending))) here,
        Uniq-append before ((tx, p) ∷ after) j v
            (subst Uniq e (L.entries-Uniq PendingEntry s.pending)) here,
      )
    ]
      where
        lookups :
            lookup j (before ++ moved)
            ≡ (if tx == j then none else lookup j (before ++ ((tx, p) ∷ after)))
        lookups =
            ap (lookup j) (sym e')
            ∙ sym (L.find-entries PendingEntry j (P.erase PendingEntry tx s.pending))
            ∙ L.find-erase PendingEntry j tx s.pending
            ∙ ap (λ t. if tx == j then none else t)
                (L.find-entries PendingEntry j s.pending ∙ ap (lookup j) e)

    -- The three kinds of visit at the position behind `before`, each with what it leaves to visit.
    abbrev Later :
        (before : List (ℕ × PendingEntry)) (tx : ℕ) (p : PendingEntry)
        (after : List (ℕ × PendingEntry)) (s : Polled P)
        → Type 0
    Later before tx p after s =
        (before' after' : List (ℕ × PendingEntry)) × (P.entries PendingEntry
            (visit P now clock tx p s).1.pending
          ≡ before' ++ after')
        × ((if (visit P now clock tx p s).0 then length before else length before + 1)
            ≡ length before')
        × (length after' ≤ length after)
        × (lookup tx after' ≡ none)
        × ((j : ℕ) → tx ≢ j → lookup j after' ≡ lookup j after)

    later :
        (before : List (ℕ × PendingEntry)) (tx : ℕ) (p : PendingEntry)
        (after : List (ℕ × PendingEntry)) (s : Polled P)
        → P.entries PendingEntry s.pending ≡ before ++ ((tx, p) ∷ after)
        → Later before tx p after s
    later before tx p after s e = elim (Bool-cases (is_due now p)) [
      | inl due ↦ elim (Bool-cases (is_exhausted p)) [
        | inl out ↦ erased due out
        | inr left ↦ kept (retried (clock tx) p) (visit-retry tx p s due left).0 (
            ap (P.entries PendingEntry) (visit-retry tx p s due left).1
            ∙ L.entries-assign PendingEntry tx p (retried (clock tx) p) s.pending present
            ∙ ap (replace tx (retried (clock tx) p)) e
            ∙ replace-middle tx p (retried (clock tx) p) before after absent.0)
      ]
      | inr early ↦
          kept p (ap (λ r. r.0) (visit-skip tx p s early))
            (ap (λ r. P.entries PendingEntry r.1.pending) (visit-skip tx p s early) ∙ e)
    ]
      where
        uniq : Uniq (before ++ ((tx, p) ∷ after))
        uniq = subst Uniq e (L.entries-Uniq PendingEntry s.pending)

        absent : (lookup tx before ≡ none) × (lookup tx after ≡ none)
        absent = lookup-middle tx p before after uniq

        present : P.find PendingEntry tx s.pending ≡ some p
        present =
            L.find-entries PendingEntry tx s.pending
            ∙ ap (lookup tx) e
            ∙ ground (arith, lookup-append tx before ((tx, p) ∷ after), absent)

        kept :
            (q : PendingEntry)
            → (visit P now clock tx p s).0 ≡ false
            → P.entries PendingEntry (visit P now clock tx p s).1.pending
              ≡ before ++ ((tx, q) ∷ after)
            → Later before tx p after s
        kept q stays e' = (
          before ++ ((tx, q) ∷ []),
          after,
          e' ∙ sym (append_assoc before ((tx, q) ∷ []) after),
          rw stays (sym (length-append before ((tx, q) ∷ []))),
          omega arith,
          absent.1,
          λ j ne. refl,
        )

        erased : is_due now p ≡ true → is_exhausted p ≡ true → Later before tx p after s
        erased due out =
            let (moved, e'') = L.entries-erase PendingEntry tx p s.pending before after e in
            let e' : P.entries PendingEntry (visit P now clock tx p s).1.pending ≡ before ++ moved =
              ap (P.entries PendingEntry) (visit-expire tx p s due out).1 ∙ e'' in
            (
              before,
              moved,
              e',
              rw (visit-expire tx p s due out).0 refl,
              omega (
                arith,
                length-erase P L PendingEntry tx p s.pending present,
                ap length e'',
                ap length e,
                length-append before moved,
                length-append before ((tx, p) ∷ after),
              ),
              behind tx p before after moved s e e'' tx ∙ ground arith,
              λ j ne. behind tx p before after moved s e e'' j ∙ ground arith,
            )

    pub loop-Visits :
        (n : ℕ) (before after : List (ℕ × PendingEntry)) (s : Polled P)
        → P.entries PendingEntry s.pending ≡ before ++ after
        → length after ≤ n
        → Visits after s (poll_loop P now clock n (length before) s)
    unfolding visit_all
    loop-Visits n before [] s e h = record {
      visited = [];
      all =
          poll_loop-end n (length before) s
            (ap (λ t. get_elem? t (length before)) (e ∙ append-nil before) ∙ get_elem?-end before);
      once = tt;
      same = λ tx. refl;
    }
    loop-Visits zero before (x ∷ after) s e h = absurd (omega arith)
    loop-Visits (suc n) before ((tx, p) ∷ after) s e h =
        let (before', after', e', at, fits, gone, others) = later before tx p after s e in
        Visits-cons tx p after after' s gone others (
          subst (Visits after' (visit P now clock tx p s).1)
            (sym (
              poll_loop-step n (length before) tx p s
                (ap (λ t. get_elem? t (length before)) e ∙ get_elem?-middle (tx, p) before after)
              ∙ ap (λ i. poll_loop P now clock n i (visit P now clock tx p s).1) at))
            (loop-Visits n before' after' (visit P now clock tx p s).1 e' (omega arith)))

    -- With a round for each entry from the position on, the loop ends at the end of the map.
    pub loop-PollRun :
        (n : ℕ) (before after : List (ℕ × PendingEntry)) (s : Polled P)
        → P.entries PendingEntry s.pending ≡ before ++ after
        → length after ≤ n
        → PollRun P now clock (length before) s (poll_loop P now clock n (length before) s)
    loop-PollRun n before [] s e h =
        let over =
          ap (λ t. get_elem? t (length before)) (e ∙ append-nil before) ∙ get_elem?-end before in
        subst (PollRun P now clock (length before) s) (sym (poll_loop-end n (length before) s over))
          (at_end over)
    loop-PollRun zero before (x ∷ after) s e h = absurd (omega arith)
    loop-PollRun (suc n) before ((tx, p) ∷ after) s e h =
        let here =
          ap (λ t. get_elem? t (length before)) e ∙ get_elem?-middle (tx, p) before after in
        let (before', after', e', at, fits, _, _) = later before tx p after s e in
        let next = (visit P now clock tx p s).1 in
        subst (PollRun P now clock (length before) s)
          (sym (poll_loop-step n (length before) tx p s here))
          (round_visited here (
            subst (λ i. PollRun P now clock i next (poll_loop P now clock n i next)) (sym at)
              (loop-PollRun n before' after' next e' (omega arith))))
