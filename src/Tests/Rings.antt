-- ===== src/Tests/Rings.antt =====
-- Runs of the rings of include/IdRingBuffer.hpp and include/ISRRingBuffer.hpp.
use florid_usb_protocols.Prelude.{ℕ, ◌^◌, ◌≡◌, refl, true, false, List, [], ◌∷◌, arith}
use florid_usb_protocols.Prelude.Eq.{nat_regular}
use florid_usb_protocols.IdRing.{IdRing, test_and_insert, contains, cleared}
use florid_usb_protocols.IdRing.Order.{IsValid as IsIdRingValid, recent}
use florid_usb_protocols.IdRing.Window.{remember, test_and_insert_refines, test_and_insert-IsValid}
use florid_usb_protocols.IdRing.Retention.{
  insert_all, test_and_insert_remembers, insert_all_no_false_positive,
}
use florid_usb_protocols.IdRing.Key.{compose_dedup_key_injective}
use florid_usb_protocols.IsrRing.{IsrRing, write, read}
use florid_usb_protocols.IsrRing.Queue.{IsValid as IsRingValid, contents, put, get}
use florid_usb_protocols.IsrRing.Refine.{write_refines, read_refines}

abbrev two_ids : IdRing ℕ
two_ids = record { ids = 5 ∷ 6 ∷ []; write_idx = 1 }

two_ids-IsValid : IsIdRingValid 1 two_ids
two_ids-IsValid = record { full = refl; index = omega arith }

test_and_insert_refines_example :
    let (seen, r) = test_and_insert 8 1 two_ids 7 in (seen, recent r) ≡ remember (recent two_ids) 7
test_and_insert_refines_example =
    test_and_insert_refines 8 1 (omega arith) two_ids 7 two_ids-IsValid

test_and_insert-IsValid_example : IsIdRingValid 1 (test_and_insert 8 1 two_ids 7).1
test_and_insert-IsValid_example =
    test_and_insert-IsValid 8 1 (omega arith) two_ids 7 two_ids-IsValid

is_new : (test_and_insert 8 1 two_ids 7).0 ≡ false
unfolding test_and_insert contains
is_new = refl

test_and_insert_remembers_example :
    (test_and_insert 8 1 (insert_all 8 1 (test_and_insert 8 1 two_ids 7).1 (9 ∷ [])) 7).0 ≡ true
test_and_insert_remembers_example =
    test_and_insert_remembers 8 1 (omega arith) two_ids 7 (9 ∷ []) two_ids-IsValid is_new
      (omega arith)

abbrev inserted : List ℕ
inserted = 3 ∷ 4 ∷ []

not_in : contains inserted 7 ≡ false
unfolding contains
not_in = refl

insert_all_no_false_positive_example :
    (test_and_insert 8 1 (insert_all 8 1 (cleared 1) inserted) 7).0 ≡ false
insert_all_no_false_positive_example = insert_all_no_false_positive 8 1 inserted 7 not_in refl

abbrev cmd : ℕ
cmd = 0x6103

abbrev tx : ℕ
tx = 9

compose_dedup_key_injective_example : (cmd ≡ cmd) × (tx ≡ tx)
compose_dedup_key_injective_example =
    compose_dedup_key_injective cmd tx cmd tx (omega arith) (omega arith) (omega arith)
      (omega arith) refl

-- Three bytes wait, and the next write goes round the end of the array.
abbrev three_bytes : IsrRing
three_bytes = record { buf = 1 ∷ 2 ∷ 3 ∷ 4 ∷ []; write_idx = 6; drop_count = 0; read_idx = 3 }

three_bytes-IsValid : IsRingValid 8 2 three_bytes
three_bytes-IsValid = record {
  full = refl;
  write_word = omega arith;
  read_word = omega arith;
  held = omega arith;
}

write_refines_example :
    let (done, r) = write 8 2 three_bytes (9 ∷ []) in
    (done, contents 8 2 r) ≡ put (2 ^ 2) (contents 8 2 three_bytes) (9 ∷ [])
write_refines_example = write_refines 8 2 (omega arith) three_bytes (9 ∷ []) three_bytes-IsValid

read_refines_example :
    let (out, r) = read 8 2 three_bytes 2 in
    (out, contents 8 2 r) ≡ get (contents 8 2 three_bytes) 2
read_refines_example = read_refines 8 2 (omega arith) three_bytes 2 three_bytes-IsValid

refused : (write 8 2 three_bytes (9 ∷ 9 ∷ [])).0 ≡ false
unfolding write
refused = refl
