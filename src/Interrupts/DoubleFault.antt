-- ===== src/Interrupts/DoubleFault.antt =====
-- What a double fault shows.
use sunflower.Common.{ℕ, ◌≡◌, refl, subst, false, some, List, ◌∷◌, arith}
use sunflower.Vga.Screen.{Screen}
use sunflower.Vga.Buffers.{clear}
use sunflower.Vga.Print.{black, white, write_str}
use sunflower.Vga.Valid.{IsBuffer, IsValid, Returns, empty_buffer-IsBuffer, write_str-Returns}
use sunflower.Interrupts.{IntStackFrame, print_df_info, double_fault_handler}

released-IsValid :
    (s : Screen) → IsBuffer s.alt → IsValid (clear (record s { buffer_held = false }))
unfolding clear
released-IsValid s h = let e = empty_buffer-IsBuffer in ground arith

released-row_0 :
    (s : Screen) → (clear (record s { buffer_held = false })).allow_row_0 ≡ s.allow_row_0
unfolding clear
released-row_0 s = ground arith

-- Wherever the cursor is, whoever holds the buffer and whatever it shows: a double fault prints its
-- text about the frame that the processor pushed below the error code, and the screen is valid
-- afterwards if the hidden buffer has its size.
pub double_fault_handler_lem :
    (text : IntStackFrame → List ℕ) (code : ℕ) (frame : IntStackFrame) (rest : List ℕ) (s : Screen)
    → IsBuffer s.alt
    → (double_fault_handler text
          (code ∷ frame.ip ∷ frame.cs ∷ frame.flags ∷ frame.sp ∷ frame.ss ∷ rest)
          s
        ≡ some (print_df_info text frame s))
      × Returns s.allow_row_0 (print_df_info text frame s)
unfolding double_fault_handler print_df_info
double_fault_handler_lem text code frame rest s h =
    let s' = clear (record s { buffer_held = false }) in
    let o = write_str (text frame) white black s' in
    (
      refl,
      subst (λ a. Returns a o) (released-row_0 s)
          (write_str-Returns (text frame) white black s' (released-IsValid s h)),
    )
