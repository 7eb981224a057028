-- ===== src/Startup.antt =====
-- kernel/src/startup.rs: how a startup task ends, and what is printed about it. An error's text is an
-- argument.
pub mod Tasks
pub mod Kmain
pub mod Rtc
mod Tests
use sunflower.Common.Text.{codes}
use sunflower.Common.{ℕ, List, ◌++◌}
use sunflower.Common.Outcome.{Outcome, ok, err, panic, hang}
use sunflower.Vga.Screen.{Screen}
use sunflower.Vga.Print.{Color, black, light_grey, white, bind, write_char, write_str}

pub data ExitCode (E : Type 0) : Type 0 where
  infallible : ExitCode E
  ok_code : ExitCode E
  error : E → ExitCode E
  stop : E → ExitCode E

abbrev pub cyan : Color
cyan = 3

abbrev pub red : Color
red = 4

abbrev pub grey : Color
grey = 7

abbrev pub lime : Color
lime = 10

abbrev pub light_red : Color
light_red = 12

-- "[ code ] name"
unfoldable pub print_box : Color → List ℕ → List ℕ → Screen → Outcome ⊥ Screen
print_box fg code name s = bind (write_char b'[' white black s) (λ s₁.
    bind (write_str (codes " " ++ (code ++ codes " ")) fg black s₁) (λ s₂.
      bind (write_char b']' white black s₂)
        (write_str (codes " " ++ (name ++ codes "\n")) grey black)))

abbrev pub error_text : List ℕ → List ℕ
error_text text = codes "error: " ++ (text ++ codes "\n")

abbrev pub and_panic : Outcome ⊥ Screen → Outcome ⊥ Screen
and_panic (ok s) = panic
and_panic (err e) = err e
and_panic panic = panic
and_panic hang = hang

module _ {E : Type 0} (text : E → List ℕ) where
  unfoldable pub handle_exitcode : List ℕ → ExitCode E → Screen → Outcome ⊥ Screen
  unfolding print_box
  handle_exitcode name infallible s = print_box cyan (codes "INF") name s
  handle_exitcode name ok_code s = print_box lime (codes "OK!") name s
  handle_exitcode name (error e) s =
      bind (print_box light_red (codes "ERR") name s)
        (write_str (error_text (text e)) light_grey black)
  handle_exitcode name (stop e) s = and_panic (print_box red (codes "STP") name s)
