-- ===== src/Dispatch/Delivery.antt =====
-- Where the packets go that a stack of include/ProtocolStack.hpp parses: `dispatch_after_parse` of
-- include/ArmCommand.hpp and include/ArmStatus.hpp, with all the stacks that there are.
use florid_usb_protocols.Prelude.{
  ℕ, ◌+◌, Option, none, some, List, [], ◌∷◌, ◌≡◌, ◌≢◌, ◌==◌, arith, refl, false, ◌∙◌, Option-cases,
  inl, inr, ==_refl, Bool-cases,
}
use florid_usb_protocols.Prelude.Eq.{nat_regular}
use florid_usb_protocols.Platform.{Platform}
use florid_usb_protocols.Rpl.{Rpl}
use florid_usb_protocols.Packet.{PacketTraits}
use florid_usb_protocols.Stack.{Stack, App}
use florid_usb_protocols.Stack.Cycle.{handle_packet_internal, dispatch, push_data}
use florid_usb_protocols.Dispatch.{Thread, update, target}

-- `types kind` are the packet types of a type of stack; `apps kind` is its application.
module _ (P : Platform) (R : Rpl) (types : ℕ → List PacketTraits) (apps : ℕ → App P R)
    (thread : Thread) where
  -- The stacks that are alive.
  abbrev pub Stacks : Type 0
  Stacks = ℕ → Option (Stack P R)

  -- The lambda of `on_packet` for the stacks of the type `kind`; `this` is what `instance()` gives.
  call_instance : (kind now cmd : ℕ) → List ℕ → Option ℕ → Stacks → Stacks
  call_instance kind now cmd bytes none m = m
  call_instance kind now cmd bytes (some this) m = elim (m this) [
    | none ↦ m
    | some s ↦
        update this (some (handle_packet_internal P R (types kind) (apps kind) now cmd bytes s)) m
  ]

  unfoldable pub dispatch_after_parse : (now : ℕ) → PacketTraits → List ℕ → Stacks → Stacks
  unfolding call_instance
  dispatch_after_parse now t bytes m = elim thread.on_packet [
    | none ↦ m
    | some kind ↦ call_instance kind now t.cmd bytes (thread.instance_of kind) m
  ]

  unfoldable pub dispatch_all : (i : ℕ) → (ℕ → ℕ) → List (PacketTraits × List ℕ) → Stacks → Stacks
  unfolding dispatch_after_parse
  dispatch_all i clock [] m = m
  dispatch_all i clock ((t, bytes) ∷ rest) m =
      dispatch_all (i + 1) clock rest (dispatch_after_parse (clock i) t bytes m)

  -- `m_parser.push_data` of the stack `this`.
  unfoldable pub push_data_of : (this : ℕ) → (ℕ → ℕ) → List ℕ → Stacks → Stacks
  unfolding dispatch_all
  push_data_of this clock bytes m = elim (m this) [
    | none ↦ m
    | some s ↦
        let (parser, packets) = R.push_data s.parser bytes in
        dispatch_all 0 clock packets (update this (some (record s { parser = parser })) m)
  ]

  update_again :
      (this : ℕ) (v w : Option (Stack P R)) (m : Stacks) (j : ℕ)
      → update this v (update this w m) j ≡ update this v m j
  update_again this v w m j = elim (Bool-cases (j == this)) [
    | inl e ↦ rw e refl
    | inr e ↦ rw e refl
  ]

  -- A packet that is parsed where the thread is bound to `this`.
  after_parse_own :
      (kind this now : ℕ) (t : PacketTraits) (bytes : List ℕ) (m : Stacks) (s : Stack P R)
      → thread.on_packet ≡ some kind
      → thread.instance_of kind ≡ some this
      → m this ≡ some s
      → dispatch_after_parse now t bytes m
        ≡ update this
            (some (handle_packet_internal P R (types kind) (apps kind) now t.cmd bytes s))
            m
  unfolding dispatch_after_parse call_instance
  after_parse_own kind this now t bytes m s on here is = rw (on, here, call_instance, is) refl

  dispatch_all_own :
      (kind this i : ℕ) (clock : ℕ → ℕ) (packets : List (PacketTraits × List ℕ)) (m : Stacks)
      → (s : Stack P R) → thread.on_packet ≡ some kind
      → thread.instance_of kind ≡ some this
      → m this ≡ some s
      → (j : ℕ)
      → dispatch_all i clock packets m j
        ≡ update this (some (dispatch P R (types kind) (apps kind) i clock packets s)) m j
  unfolding dispatch_all dispatch
  dispatch_all_own kind this i clock [] m s on here is j = ground (arith, is)
  dispatch_all_own kind this i clock ((t, bytes) ∷ rest) m s on here is j =
      let s1 = handle_packet_internal P R (types kind) (apps kind) (clock i) t.cmd bytes s in
      rw (after_parse_own kind this (clock i) t bytes m s on here is) (
        dispatch_all_own kind this (i + 1) clock rest (update this (some s1) m) s1 on here
          (rw (==_refl this) refl) j
        ∙ update_again this _ _ m j)

  -- Where the thread that calls it is bound to a stack that is alive, `push_data` of the stack,
  -- with every packet sent through the thread's pointers, does what the stack does when it handles
  -- its packets itself, and no other stack changes.
  pub push_data_own :
      (kind this : ℕ) (clock : ℕ → ℕ) (bytes : List ℕ) (m : Stacks) (s : Stack P R)
      → thread.on_packet ≡ some kind
      → thread.instance_of kind ≡ some this
      → m this ≡ some s
      → (j : ℕ)
      → push_data_of this clock bytes m j
        ≡ update this (some (push_data P R (types kind) (apps kind) clock bytes s)) m j
  unfolding push_data_of push_data
  push_data_own kind this clock bytes m s on here is j =
      rw (push_data_of, is)
        (dispatch_all_own kind this 0 clock (R.push_data s.parser bytes).1 _ _ on here
            (rw (==_refl this) refl) j
          ∙ update_again this _ _ m j)

  after_parse_other :
      (this now : ℕ) (t : PacketTraits) (bytes : List ℕ) (m : Stacks)
      → target thread ≢ some this
      → dispatch_after_parse now t bytes m this ≡ m this
  unfolding dispatch_after_parse call_instance target
  after_parse_other this now t bytes m away = elim (Option-cases thread.on_packet) [
    | inl off ↦ rw off refl
    | inr (kind, on) ↦ elim (Option-cases (thread.instance_of kind)) [
      | inl none_here ↦ rw (on, none_here) refl
      | inr (other, here) ↦ elim (Option-cases (m other)) [
        | inl dead ↦ rw (on, here, call_instance, dead) refl
        | inr (s, is) ↦
            let differ : (this == other) ≡ false = ground (arith, away, on, here) in
            rw (on, here, call_instance, is, differ) refl
      ]
    ]
  ]

  dispatch_all_other :
      (this i : ℕ) (clock : ℕ → ℕ) (packets : List (PacketTraits × List ℕ)) (m : Stacks)
      → target thread ≢ some this
      → dispatch_all i clock packets m this ≡ m this
  unfolding dispatch_all
  dispatch_all_other this i clock [] m away = refl
  dispatch_all_other this i clock ((t, bytes) ∷ rest) m away =
      dispatch_all_other this (i + 1) clock rest _ away
      ∙ after_parse_other this (clock i) t bytes m away

  -- Where the thread that calls it does not lead to the stack, `push_data` of the stack moves its
  -- parser on and delivers it no packet.
  pub push_data_other :
      (this : ℕ) (clock : ℕ → ℕ) (bytes : List ℕ) (m : Stacks) (s : Stack P R)
      → target thread ≢ some this
      → m this ≡ some s
      → push_data_of this clock bytes m this
        ≡ some (record s { parser = (R.push_data s.parser bytes).0 })
  unfolding push_data_of
  push_data_other this clock bytes m s away is =
      rw (push_data_of, is)
        (dispatch_all_other this 0 clock (R.push_data s.parser bytes).1 _ away
          ∙ rw (==_refl this) refl)
