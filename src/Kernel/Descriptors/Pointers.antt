-- ===== src/Kernel/Descriptors/Pointers.antt =====
-- The addresses in the descriptors.
use sunflower.Common.{
  ◌==◌, if◌then◌else◌, Bool-cases, Option-cases, ℕ, ◌+◌, ◌*◌, ◌/◌, ◌%◌, ◌^◌, ◌<◌, ◌≡◌, refl, ◌∙◌,
  inl, inr, Bool, true, false, Option, none, some, List, [], ◌∷◌, arith,
}
use sunflower.Common.Bits.{bit_or-above}
use sunflower.Kernel.Descriptors.{
  no_descriptor, new_interrupt, ptr, Idt, set_handler, Handler, idt_entries, set_handlers, new_idt,
  tss_size, new_tss, transmuted,
}

ptr-new_interrupt :
    (cs handler ist : ℕ) → handler < 2 ^ 64 → ptr (new_interrupt cs handler ist) ≡ handler
unfolding ptr new_interrupt
ptr-new_interrupt cs handler ist h =
    let low = handler % 2 ^ 16 in
    let middle = handler / 2 ^ 16 % 2 ^ 16 in
    let high = handler / 2 ^ 32 % 2 ^ 32 in
    let first = bit_or-above 16 middle low (omega arith) in
    let second = bit_or-above 32 high (middle * 2 ^ 16 + low) (omega arith) in
    let whole : high * 2 ^ 32 + (middle * 2 ^ 16 + low) ≡ handler = omega arith in
    rw (first, second) whole

-- The handler that a list of entries gives to a vector, the last one where it names several.
abbrev pub handler_for : ℕ → List (ℕ × ℕ × Handler) → Option Handler
handler_for v [] = none
handler_for v ((entry_id, ist, handler) ∷ es) = elim (handler_for v es) [
  | some later ↦ some later
  | none ↦ if v == entry_id then some handler else none
]

-- The address of a handler, or `other`.
abbrev pub address_or : (Handler → ℕ) → ℕ → Option Handler → ℕ
address_or address other none = other
address_or address other (some handler) = address handler

set_handler-ptr :
    (cs : ℕ) (idt : Idt) (entry_id ist handler v : ℕ)
    → handler < 2 ^ 64
    → ptr (set_handler cs idt entry_id ist handler v)
      ≡ (if v == entry_id then handler else ptr (idt v))
unfolding set_handler
set_handler-ptr cs idt entry_id ist handler v h = elim (Bool-cases (v == entry_id)) [
  | inl hit ↦ rw hit (ptr-new_interrupt cs handler ist h)
  | inr miss ↦ rw miss refl
]

chosen-address :
    (address : Handler → ℕ) (b : Bool) (handler : Handler) (other : ℕ)
    → (if b then address handler else other)
      ≡ address_or address other (if b then some handler else none)
chosen-address address true handler other = refl
chosen-address address false handler other = refl

set_handlers-ptr :
    (cs : ℕ) (address : Handler → ℕ) (es : List (ℕ × ℕ × Handler)) (idt : Idt) (v : ℕ)
    → ((handler : Handler) → address handler < 2 ^ 64)
    → ptr (set_handlers cs address es idt v) ≡ address_or address (ptr (idt v)) (handler_for v es)
unfolding set_handlers
set_handlers-ptr cs address [] idt v h = refl
set_handlers-ptr cs address ((entry_id, ist, handler) ∷ es) idt v h =
    let now = set_handler cs idt entry_id ist (address handler) in
    let later = set_handlers-ptr cs address es now v h in
    elim (Option-cases (handler_for v es)) [
      | inl e ↦
          rw (later, e)
            (set_handler-ptr cs idt entry_id ist (address handler) v (h handler)
              ∙ chosen-address address (v == entry_id) handler (ptr (idt v)))
      | inr (set_later, e) ↦ rw (later, e) refl
    ]

-- With handlers at 64-bit addresses: in the table that `Idt::new` builds, each of the sixteen vectors
-- that it sets points at its own handler, put together from the three parts of the descriptor, and
-- every other vector points nowhere.
pub new_idt-ptr :
    (cs : ℕ) (address : Handler → ℕ) (v : ℕ)
    → ((handler : Handler) → address handler < 2 ^ 64)
    → ptr (new_idt cs address v) ≡ address_or address 0 (handler_for v idt_entries)
unfolding new_idt ptr
new_idt-ptr cs address v h = set_handlers-ptr cs address idt_entries (λ i. no_descriptor) v h

-- For a TSS at a 64-bit address, the words of the table hold its limit in the lowest sixteen bits and
-- give back the address where the processor looks for its parts.
pub gdt_table-tss :
    (tss : ℕ)
    → tss < 2 ^ 64
    → let (low, high) = transmuted (new_tss tss) in
      (low / 2 ^ 16 % 2 ^ 24 + low / 2 ^ 56 * 2 ^ 24 + high * 2 ^ 32 ≡ tss)
      × (low % 2 ^ 16 + 1 ≡ tss_size)
      × (low / 2 ^ 40 % 2 ^ 8 ≡ 0x89)
unfolding transmuted new_tss
gdt_table-tss tss h = (omega arith, omega arith, omega arith)
