-- ===== src/Dispatch.antt =====
-- include/ProtocolDispatch.hpp, and what include/ProtocolStack.hpp does with it: the pointers of each
-- thread that lead a parsed packet to a stack. A stack object is a number, and so is its type, an
-- instantiation of the template.
pub mod Safety
pub mod Delivery
use florid_usb_protocols.Prelude.{
  ℕ, Bool, true, false, Option, none, some, ◌≡◌, ◌≢◌, ◌==◌, if◌then◌else◌,
}

-- The thread_local pointers. A value of `on_packet` is the lambda of a type of stack, and
-- `instance_of` is the `instance()` of each type.
pub record Thread : Type 0 where
  pub on_packet : Option ℕ
  pub current_stack : Option ℕ
  pub instance_of : ℕ → Option ℕ

abbrev pub idle_thread : Thread
idle_thread = record { on_packet = none; current_stack = none; instance_of = λ kind. none }

abbrev pub update {ℓ} : {A : Type ℓ} → ℕ → A → (ℕ → A) → ℕ → A
update k v f j = if j == k then v else f j

-- `instance() == this`
abbrev pub is_this : Option ℕ → ℕ → Bool
is_this none this = false
is_this (some x) this = x == this

-- What the constructor does with the pointers of the thread that it runs on.
unfoldable pub bind_to_current_thread : (kind this : ℕ) → Thread → Thread
bind_to_current_thread kind this t = record t {
  on_packet = some kind;
  instance_of = update kind (some this) t.instance_of;
}

-- The destructor.
unfoldable pub unbind : (kind this : ℕ) → Thread → Thread
unbind kind this t =
    if is_this (t.instance_of kind) this
    then record t { on_packet = none; instance_of = update kind none t.instance_of }
    else t

-- The stack that gets the packet in `dispatch_after_parse`, through the lambda of `on_packet`.
unfoldable pub target : Thread → Option ℕ
target t = elim t.on_packet [ none ↦ none | some kind ↦ t.instance_of kind ]

-- The threads, and the type of each stack that is alive.
pub record Process : Type 0 where
  pub threads : ℕ → Thread
  pub alive : ℕ → Option ℕ

-- Constructors, destructors and `bind_to_current_thread`, each on a thread `th`. A stack is
-- destroyed on a thread outside of which nothing leads to it.
pub data Step (s : Process) : Process → Type 0 where
  construct :
      (th kind this : ℕ)
      → s.alive this ≡ none
      → Step s (record {
        threads = update th (bind_to_current_thread kind this (s.threads th)) s.threads;
        alive = update this (some kind) s.alive;
      })
  bind :
      (th kind this : ℕ)
      → s.alive this ≡ some kind
      → Step s (record s {
        threads = update th (bind_to_current_thread kind this (s.threads th)) s.threads;
      })
  destroy :
      (th kind this : ℕ)
      → s.alive this ≡ some kind
      → ((other : ℕ) → other ≢ th → (s.threads other).instance_of kind ≢ some this)
      → Step s (record {
        threads = update th (unbind kind this (s.threads th)) s.threads;
        alive = update this none s.alive;
      })

pub data Reach : Process → Type 0 where
  start : Reach (record { threads = λ th. idle_thread; alive = λ this. none })
  later : {s t : Process} → Reach s → Step s t → Reach t
