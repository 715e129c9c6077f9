-- ===== src/Tests/Bindings.antt =====
-- Runs of the thread-local pointers of include/ProtocolDispatch.hpp.
use florid_usb_protocols.Prelude.{ℕ, ◌≡◌, ◌≢◌, refl, Option, none, some, List, [], ◌∷◌, arith}
use florid_usb_protocols.Prelude.Eq.{nat_regular}
use florid_usb_protocols.Dispatch.{
  Thread, Process, idle_thread, update, bind_to_current_thread, unbind, target, construct, bind,
  destroy, Reach, start, later,
}
use florid_usb_protocols.Dispatch.Safety.{target_alive}
use florid_usb_protocols.Dispatch.Delivery.{push_data_of, push_data_own, push_data_other}
use florid_usb_protocols.Packet.Exchange.{all_types}
use florid_usb_protocols.Stack.{Stack}
use florid_usb_protocols.Stack.Cycle.{push_data}
use florid_usb_protocols.Tests.{host, plain_rpl}
use florid_usb_protocols.Tests.Stacks.{device, fresh_stack}

-- The thread 0 constructs the stacks 4 and 5, of the types 0 and 1, and destroys 4; the thread 1
-- binds 5.
abbrev after : Process
after = record {
  threads = update 1 (bind_to_current_thread 1 5 idle_thread) (
      update 0 (unbind 0 4 (bind_to_current_thread 1 5 (bind_to_current_thread 0 4 idle_thread))) (
        update 0 (bind_to_current_thread 1 5 (bind_to_current_thread 0 4 idle_thread))
          (update 0 (bind_to_current_thread 0 4 idle_thread) (λ th. idle_thread))));
  alive = update 4 none (update 5 (some 1) (update 4 (some 0) (λ this. none)));
}

after-Reach : Reach after
unfolding bind_to_current_thread unbind
after-Reach =
    later
      (later (later (later start (construct 0 0 4 refl)) (construct 0 1 5 refl))
        (destroy 0 0 4 refl (λ other away h. ground (arith, away, h))))
      (bind 1 1 5 refl)

-- The destructor of one stack takes the packets of its thread from another that is alive.
silenced : target (after.threads 0) ≡ none
unfolding target bind_to_current_thread unbind
silenced = refl

bound : target (after.threads 1) ≡ some 5
unfolding target bind_to_current_thread
bound = refl

target_alive_example :
    (kind : ℕ) × ((after.threads 1).on_packet ≡ some kind) × (after.alive 5 ≡ some kind)
target_alive_example = target_alive 1 5 after-Reach bound

-- A stack that is bound on two threads, and destroyed on one of them, is still led to by the other.
dangling :
    target (
      update 0
        (unbind 0 4 (bind_to_current_thread 0 4 idle_thread))
        (λ th. bind_to_current_thread 0 4 idle_thread)
        1)
    ≡ some 4
unfolding target bind_to_current_thread
dangling = refl

-- Two stacks of all packet types, and a chunk that is an acknowledgement of the transaction 1.
abbrev stacks : ℕ → Option (Stack host plain_rpl)
stacks = update 5 (some fresh_stack) (update 4 (some fresh_stack) (λ this. none))

abbrev chunk : List ℕ
chunk = 1 ∷ 0 ∷ 0 ∷ 0 ∷ 7 ∷ 97 ∷ 0 ∷ []

abbrev bound_to_five : Thread
bound_to_five = bind_to_current_thread 1 5 idle_thread

is_bound : (bound_to_five.on_packet ≡ some 1) × (bound_to_five.instance_of 1 ≡ some 5)
unfolding bind_to_current_thread
is_bound = (refl, refl)

is_bound_to : target bound_to_five ≢ some 4
unfolding target bind_to_current_thread
is_bound_to h = ground (arith, h)

push_data_own_example :
    push_data_of host plain_rpl
      (λ k. all_types)
      (λ k. device)
      bound_to_five
      5
      (λ i. i)
      chunk
      stacks
      5
    ≡ update 5
        (some (push_data host plain_rpl all_types device (λ i. i) chunk fresh_stack))
        stacks
        5
push_data_own_example =
    push_data_own host plain_rpl (λ k. all_types) (λ k. device) bound_to_five 1 5 (λ i. i) chunk
      stacks fresh_stack is_bound.0 is_bound.1 refl 5

push_data_other_example :
    push_data_of host plain_rpl
      (λ k. all_types)
      (λ k. device)
      bound_to_five
      4
      (λ i. i)
      chunk
      stacks
      4
    ≡ some (record fresh_stack { parser = (plain_rpl.push_data fresh_stack.parser chunk).0 })
push_data_other_example =
    push_data_other host plain_rpl (λ k. all_types) (λ k. device) bound_to_five 4 (λ i. i) chunk
      stacks fresh_stack is_bound_to refl
