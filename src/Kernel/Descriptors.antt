-- ===== src/Kernel/Descriptors.antt =====
-- The descriptors of kernel/src/interrupts/idt.rs and kernel/src/gdt.rs. The addresses of handlers
-- and of the TSS, and the selector that `cs_register` reads, are arguments.
pub mod Pointers
use Prim.Native.String.{String}
use sunflower.Common.{
  ◌==◌, if◌then◌else◌, ℕ, ◌+◌, ◌-◌, ◌*◌, ◌/◌, ◌%◌, ◌^◌, bit_and, bit_or, Bool, true, false, Option,
  none, some, List, [], ◌∷◌,
}
use sunflower.Common.Bits.{}
use sunflower.Kernel.Pic.{irq_start}

pub record InterruptDescriptor : Type 0 where
  pub offset_low : ℕ
  pub selector : ℕ
  pub ist : ℕ
  pub attributes : ℕ
  pub offset_middle : ℕ
  pub offset_high : ℕ

abbrev pub no_descriptor : InterruptDescriptor
no_descriptor = record {
  offset_low = 0;
  selector = 0;
  ist = 0;
  attributes = 0;
  offset_middle = 0;
  offset_high = 0;
}

unfoldable pub new_interrupt : ℕ → ℕ → ℕ → InterruptDescriptor
new_interrupt cs offset_ptr ist = record {
  selector = cs;
  offset_low = offset_ptr % 2 ^ 16;
  offset_middle = offset_ptr / 2 ^ 16 % 2 ^ 16;
  offset_high = offset_ptr / 2 ^ 32 % 2 ^ 32;
  ist = bit_and ist 0b111;
  attributes = 0b1_00_0_1111;
}

-- `InterruptDescriptor::ptr`
unfoldable pub ptr : InterruptDescriptor → ℕ
ptr d = bit_or (bit_or d.offset_low (d.offset_middle * 2 ^ 16)) (d.offset_high * 2 ^ 32)

-- `Idt`, by its index.
abbrev pub Idt : Type 0
Idt = ℕ → InterruptDescriptor

unfoldable pub set_handler : ℕ → Idt → ℕ → ℕ → ℕ → Idt
unfolding new_interrupt
set_handler cs idt entry_id ist handler v =
    if v == entry_id then new_interrupt cs handler ist else idt v

-- The handlers: a panic with its cause, without or with what is said about the error code, a call of
-- `cont` with its code and what is added to the return address, and the functions by their names.
pub data Handler : Type 0 where
  exception exception_errcode : String → Handler
  cont : ℕ → ℕ → Handler
  double_fault timer kbd floppy dummy rtc : Handler

-- The entries that `Idt::new` sets, in order, with their IST and handler.
abbrev pub idt_entries : List (ℕ × ℕ × Handler)
idt_entries =
    (0, 0, exception "DIVIDE ERROR")
    ∷ (1, 0, exception "DEBUG")
    ∷ (2, 0, exception "NMI")
    ∷ (3, 0, cont 3 0)
    ∷ (5, 0, exception "OVERFLOW")
    ∷ (6, 0, cont 6 2)
    ∷ (7, 0, exception "DEVICE NOT AVAILABLE")
    ∷ (8, 1, double_fault)
    ∷ (13, 0, exception_errcode "GP FAULT")
    ∷ (14, 1, exception_errcode "PAGE FAULT")
    ∷ (irq_start + 0, 0, timer)
    ∷ (irq_start + 1, 0, kbd)
    ∷ (irq_start + 6, 0, floppy)
    ∷ (irq_start + 7, 0, dummy)
    ∷ (irq_start + 8, 0, rtc)
    ∷ (irq_start + 15, 0, dummy)
    ∷ []

unfoldable pub set_handlers : ℕ → (Handler → ℕ) → List (ℕ × ℕ × Handler) → Idt → Idt
unfolding set_handler
set_handlers cs address [] idt = idt
set_handlers cs address ((entry_id, ist, handler) ∷ es) idt =
    set_handlers cs address es (set_handler cs idt entry_id ist (address handler))

-- `Idt::new`, with the address of each handler.
unfoldable pub new_idt : ℕ → (Handler → ℕ) → Idt
unfolding set_handlers
new_idt cs address = set_handlers cs address idt_entries (λ v. no_descriptor)

-- `SegmentDescriptor::new`
unfoldable pub new_segment : Bool → ℕ
new_segment code_segment =
    bit_or (bit_or (bit_or (2 ^ 44) (2 ^ 47)) (2 ^ 53)) ((if code_segment then 1 else 0) * 2 ^ 43)

pub record SystemSegmentDescriptor : Type 0 where
  pub limit : ℕ
  pub offset_very_low : ℕ
  pub offset_low : ℕ
  pub access : ℕ
  pub flags : ℕ
  pub offset_medium : ℕ
  pub offset_high : ℕ

abbrev pub tss_size : ℕ
tss_size = 104

unfoldable pub new_tss : ℕ → SystemSegmentDescriptor
new_tss tss = record {
  limit = tss_size - 1;
  offset_very_low = tss % 2 ^ 16;
  offset_low = tss / 2 ^ 16 % 2 ^ 8;
  access = 0b1000_1001;
  flags = 0;
  offset_medium = tss / 2 ^ 24 % 2 ^ 8;
  offset_high = tss / 2 ^ 32 % 2 ^ 32;
}

-- The two words of the packed descriptor.
unfoldable pub transmuted : SystemSegmentDescriptor → ℕ × ℕ
transmuted d = (
  d.limit
      + d.offset_very_low * 2 ^ 16
      + d.offset_low * 2 ^ 32
      + d.access * 2 ^ 40
      + d.flags * 2 ^ 48
      + d.offset_medium * 2 ^ 56,
  d.offset_high,
)

-- The entries of the table that `load_gdt` builds, where the TSS is initialised or not.
unfoldable pub gdt_table : Option ℕ → List ℕ
unfolding new_segment transmuted new_tss
gdt_table none = 0 ∷ new_segment true ∷ new_segment false ∷ 0 ∷ 0 ∷ []
gdt_table (some tss) =
    let (low, high) = transmuted (new_tss tss) in
    0 ∷ new_segment true ∷ new_segment false ∷ low ∷ high ∷ []
