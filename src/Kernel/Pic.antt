-- ===== src/Kernel/Pic.antt =====
-- kernel/src/interrupts/pic.rs: the port writes of the two interrupt controllers.
use sunflower.Common.{ltb, leb, if◌then◌else◌, ℕ, ◌+◌, ◌%◌, ◌^◌, List, [], ◌∷◌}

abbrev pub main_pic_cmd : ℕ
main_pic_cmd = 0x20

abbrev pub main_pic_data : ℕ
main_pic_data = 0x21

abbrev pub secondary_pic_cmd : ℕ
secondary_pic_cmd = 0xA0

abbrev pub secondary_pic_data : ℕ
secondary_pic_data = 0xA1

abbrev pub irq_start : ℕ
irq_start = 0x20

abbrev pub secondary_offset : ℕ
secondary_offset = 8

unfoldable pub eoi : ℕ → List (ℕ × ℕ)
eoi irq =
    if ltb 15 irq
    then []
    else if leb secondary_offset irq
    then (secondary_pic_cmd, 0b100000) ∷ (main_pic_cmd, 0b100000) ∷ []
    else (main_pic_cmd, 0b100000) ∷ []

unfoldable pub init : List (ℕ × ℕ)
init =
    (main_pic_cmd, 0b10001)
    ∷ (secondary_pic_cmd, 0b10001)
    ∷ (main_pic_data, irq_start % 2 ^ 8)
    ∷ (secondary_pic_data, (irq_start % 2 ^ 8 + secondary_offset) % 2 ^ 8)
    ∷ (main_pic_data, 2 ^ 2)
    ∷ (secondary_pic_data, 2)
    ∷ (main_pic_data, 1)
    ∷ (secondary_pic_data, 1)
    ∷ (main_pic_data, 0)
    ∷ (secondary_pic_data, 0)
    ∷ []
