-- ===== src/Prelude/Eq.antt =====
-- The element types that the templates take: `==`, and the value-initialised `T{}`.
use florid_usb_protocols.Prelude.{ℕ, ◌≡◌, ◌↔◌, Bool, true, ◌==◌ as nat_beq, ==_iff}

pub record Regular {ℓ} (T : Type ℓ) : Type ℓ where
  pub beq : T → T → Bool
  pub beq_iff : (a b : T) → (beq a b ≡ true) ↔ (a ≡ b)
  pub blank : T

instance abbrev pub nat_regular : Regular ℕ
nat_regular = record { beq = nat_beq; beq_iff = ==_iff; blank = 0 }
