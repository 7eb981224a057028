-- ===== src/Interrupts/Codes.antt =====
-- What kernel/src/interrupts/idt.rs says about the error codes of page faults and general protection
-- faults.
use Prim.Native.String.{String}
use native.Mathlib.Omega.{arith}
use sunflower.Common.{
  ◌==◌, if◌then◌else◌, ℕ, zero, suc, ◌+◌, ◌-◌, ◌*◌, ◌/◌, ◌%◌, ◌^◌, ◌<◌, bit_and, bit_or, ◌≡◌, Bool,
  true, false, not, ◌&&◌,
}
use sunflower.Common.Bits.{test_bit, test_bit-lt_two, bit_or-pow, bit_and-mask}
use native.Mathlib.Nat.{one-le-pow}

unfoldable pub bit_set : ℕ → ℕ → Bool
bit_set code bit = code == bit_or code (2 ^ bit)

-- The access and the cause.
unfoldable pub pf_errcode : ℕ → String × String
unfolding bit_set
pf_errcode errcode = (
  if bit_set errcode 1 then "Wrote" else "Read",
  if bit_set errcode 0 then "Page-protection Violation" else "Non-present page",
)

-- Where the fault is from, whether the selector is null, its table, and its index.
unfoldable pub gp_errcode : ℕ → String × Bool × String × ℕ
unfolding bit_set
gp_errcode errcode = (
  if bit_set errcode 0 then "External" else "Non-external",
  errcode / 2 * 2 == 0,
  if bit_and (errcode / 2) 0b11 == 0b00
      then "GDT"
      else if bit_and (errcode / 2) 0b11 == 0b10
      then "LDT"
      else "IDT",
  errcode / 2 ^ 3,
)

same_digit : (t code p : ℕ) → t < 2 → 0 < p → (code == code + (1 - t) * p) ≡ (t == 1)
same_digit zero code p h k = ground arith
same_digit (suc zero) code p h k = ground arith
same_digit (suc (suc t)) code p h k = absurd (omega arith)

-- Bit `bit` of an error code is tested as its digit.
bit_set-digit : (code bit : ℕ) → bit_set code bit ≡ (test_bit bit code == 1)
unfolding bit_set
bit_set-digit code bit = rw (bit_or-pow bit code) (
    same_digit (test_bit bit code) code (2 ^ bit) (test_bit-lt_two bit code)
      (one-le-pow bit 2 (omega arith)))

as_digit : Bool → ℕ
as_digit true = 1
as_digit false = 0

-- The error code of a general protection fault that is external or not, for the selector with an
-- index in the interrupt table, or else in the local table, or else in the global one.
abbrev pub selector_code : Bool → Bool → Bool → ℕ → ℕ
unfolding as_digit
selector_code ext idt ti idx = as_digit ext + 2 * as_digit idt + 4 * as_digit ti + 8 * idx

parts :
    (ext idt ti : Bool) (idx : ℕ)
    → let code = selector_code ext idt ti idx in
      let r : String × Bool × String × ℕ = (
        if code % 2 == 1 then "External" else "Non-external",
        code / 2 * 2 == 0,
        if code / 2 % 2 ^ 2 == 0b00
            then "GDT"
            else if code / 2 % 2 ^ 2 == 0b10
            then "LDT"
            else "IDT",
        code / 2 ^ 3,
      ) in
      r ≡ (
        if ext then "External" else "Non-external",
        not idt && not ti && idx == 0,
        if idt then "IDT" else if ti then "LDT" else "GDT",
        idx,
      )
unfolding as_digit
parts true true true idx = ground arith
parts true true false idx = ground arith
parts true false true idx = ground arith
parts true false false idx = ground arith
parts false true true idx = ground arith
parts false true false idx = ground arith
parts false false true idx = ground arith
parts false false false idx = ground arith

-- `gp_errcode` reads such a code back: the table, the index, whether the fault is external, and null
-- for the first selector of the global table alone.
pub gp_errcode-selector :
    (ext idt ti : Bool) (idx : ℕ)
    → gp_errcode (selector_code ext idt ti idx) ≡ (
      if ext then "External" else "Non-external",
      not idt && not ti && idx == 0,
      if idt then "IDT" else if ti then "LDT" else "GDT",
      idx,
    )
unfolding gp_errcode test_bit as_digit
gp_errcode-selector ext idt ti idx =
    let code = selector_code ext idt ti idx in
    rw (bit_set-digit code 0, bit_and-mask 2 (code / 2)) (parts ext idt ti idx)
