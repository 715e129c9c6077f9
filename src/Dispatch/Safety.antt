-- ===== src/Dispatch/Safety.antt =====
-- The pointers of include/ProtocolDispatch.hpp lead to stacks that are alive.
use florid_usb_protocols.Prelude.{
  ℕ, Option, none, some, ◌≡◌, ◌≢◌, ◌==◌, arith, Bool-cases, Option-cases, inl, inr, ==_refl,
}
use florid_usb_protocols.Prelude.Eq.{nat_regular}
use florid_usb_protocols.Dispatch.{
  Thread, update, is_this, bind_to_current_thread, unbind, target, Process, Step, construct, bind,
  destroy, Reach, start, later,
}

-- A thread leads to living stacks only, each of the right type.
abbrev LeadsToLiving : (ℕ → Option ℕ) → Thread → Type 0
LeadsToLiving alive t = (kind this : ℕ) → t.instance_of kind ≡ some this → alive this ≡ some kind

bind-LeadsToLiving :
    (alive : ℕ → Option ℕ) (kind this : ℕ) (t : Thread)
    → alive this ≡ some kind
    → LeadsToLiving alive t
    → LeadsToLiving alive (bind_to_current_thread kind this t)
unfolding bind_to_current_thread
bind-LeadsToLiving alive kind this t here old k x h = ground (arith, here, h, old k x)

-- A stack that is added, or dropped where nothing leads to it.
grown-LeadsToLiving :
    (alive : ℕ → Option ℕ) (kind this : ℕ) (t : Thread)
    → alive this ≡ none
    → LeadsToLiving alive t
    → LeadsToLiving (update this (some kind) alive) t
grown-LeadsToLiving alive kind this t free old k x h = ground (arith, free, h, old k x)

shrunk-LeadsToLiving :
    (alive : ℕ → Option ℕ) (kind this : ℕ) (t : Thread)
    → alive this ≡ some kind
    → t.instance_of kind ≢ some this
    → LeadsToLiving alive t
    → LeadsToLiving (update this none alive) t
shrunk-LeadsToLiving alive kind this t here away old k x h = ground (arith, here, away, h, old k x)

unbind-LeadsToLiving :
    (alive : ℕ → Option ℕ) (kind this : ℕ) (t : Thread)
    → alive this ≡ some kind
    → LeadsToLiving alive t
    → LeadsToLiving (update this none alive) (unbind kind this t)
unfolding unbind
unbind-LeadsToLiving alive kind this t here old =
    elim (Bool-cases (is_this (t.instance_of kind) this)) [
      | inl e ↦ λ k x h. ground (arith, here, e, h, old k x, ==_refl kind)
      | inr e ↦ rw e (
          shrunk-LeadsToLiving alive kind this t here (λ h. ground (arith, e, h, ==_refl this)) old)
    ]

-- A predicate of all threads, where one of them changes.
at_each :
    (Q : Thread → Type 0) (th : ℕ) (t : Thread) (threads : ℕ → Thread) (at : ℕ)
    → Q t
    → (at ≢ th → Q (threads at))
    → Q (update th t threads at)
at_each Q th t threads at new old = elim (Bool-cases (at == th)) [
  | inl e ↦ rw e new
  | inr e ↦ rw e (old (ground (arith, e)))
]

Step-LeadsToLiving :
    {s t : Process}
    → Step s t
    → ((th : ℕ) → LeadsToLiving s.alive (s.threads th))
    → (th : ℕ) → LeadsToLiving t.alive (t.threads th)
Step-LeadsToLiving {s} (construct th kind this free) old at =
    at_each (LeadsToLiving (update this (some kind) s.alive)) th
      (bind_to_current_thread kind this (s.threads th)) s.threads at
      (bind-LeadsToLiving _ kind this (s.threads th) (ground (arith, ==_refl this))
        (grown-LeadsToLiving s.alive kind this (s.threads th) free (old th)))
      (λ h. grown-LeadsToLiving s.alive kind this (s.threads at) free (old at))
Step-LeadsToLiving {s} (bind th kind this here) old at =
    at_each (LeadsToLiving s.alive) th (bind_to_current_thread kind this (s.threads th)) s.threads
      at (bind-LeadsToLiving s.alive kind this (s.threads th) here (old th)) (λ h. old at)
Step-LeadsToLiving {s} (destroy th kind this here away) old at =
    at_each (LeadsToLiving (update this none s.alive)) th (unbind kind this (s.threads th))
      s.threads at (unbind-LeadsToLiving s.alive kind this (s.threads th) here (old th))
      (λ h. shrunk-LeadsToLiving s.alive kind this (s.threads at) here (away at h) (old at))

Reach-LeadsToLiving : {s : Process} → Reach s → (th : ℕ) → LeadsToLiving s.alive (s.threads th)
Reach-LeadsToLiving start th = λ kind this h. cc h
Reach-LeadsToLiving (later r st) th = Step-LeadsToLiving st (Reach-LeadsToLiving r) th

-- After any constructions, bindings and destructions on any threads, where each stack is destroyed
-- on a thread outside of which no thread is bound to it: a packet that is parsed on a thread goes
-- to no stack, or to one that is alive and has the type that the thread's `on_packet` casts it to.
pub target_alive :
    {s : Process} (th this : ℕ)
    → Reach s
    → target (s.threads th) ≡ some this
    → (kind : ℕ) × ((s.threads th).on_packet ≡ some kind) × (s.alive this ≡ some kind)
unfolding target
target_alive {s} th this r h = elim (Option-cases (s.threads th).on_packet) [
  | inl e ↦ ground (arith, e, h)
  | inr (kind, e) ↦ (kind, e, Reach-LeadsToLiving r th kind this (ground (arith, e, h)))
]
