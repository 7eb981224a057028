-- ===== src/Startup/Kmain/Healthy.antt =====
-- Whole starts of the kernel.
use sunflower.Startup.Kmain.{
  World, green, Boot, shown, run, coded, run_device, run_rtc_sync, run_vga, completed, cursor_moved,
  complete,
}
use sunflower.Startup.Kmain.Statics.{cold, home_writes, displayed}
use sunflower.Startup.Tasks.Devices.{DeviceTask, exit_on_err}
use sunflower.Vga.Cursor.{clamp_row_col, set_row, set_col, update_visual_pos}
use sunflower.Vga.Valid.Printed.{update_visual_pos_id}
use sunflower.Startup.Tasks.{Kernel, TaskError, Task, wait_for_rtc_sync}
use sunflower.Common.Outcome.{Outcome, Settled, continue, ◌>>◌, ok, err, panic, hang}
use sunflower.Kernel.Time.{Registers}
use sunflower.Startup.Rtc.First.{first_ended, no_rtc, synced, wait_sync-lem}
use sunflower.Vga.Valid.{IsValid, Returns, write_char-Returns, onward, write_str-Returns}
use sunflower.Vga.Print.{black, light_grey, white, write_char, write_str}
use sunflower.Common.Text.{codes}
use sunflower.Common.{ℕ, ◌≡◌, refl, sym, subst, Bool, true, false, some, List, ◌++◌, arith}
use sunflower.Vga.Screen.{Screen}
use sunflower.Vga.Topbar
use sunflower.Vga.Topbar.{draw_topbar}
use sunflower.Vga.Valid.Run.{init-Returns, draw_topbar-Returns}
use sunflower.Startup.{
  ExitCode, infallible, ok_code, error, stop, cyan, grey, lime, light_red, print_box, error_text,
  handle_exitcode,
}

-- The task does not end with `ExitCode::Stop`.
abbrev pub GoesOn : {E : Type 0} → ExitCode E → Type 0
GoesOn infallible = Unit
GoesOn ok_code = Unit
GoesOn (error e) = Unit
GoesOn (stop e) = ⊥

keeps_row : {a b : Bool} (o : Outcome ⊥ Screen) → b ≡ a → Returns b o → Returns a o
keeps_row o e h = subst (λ f. Returns f o) e h

pub print_box-Returns :
    (fg : ℕ) (code name : List ℕ) (s : Screen)
    → IsValid s
    → Returns s.allow_row_0 (print_box fg code name s)
unfolding print_box
print_box-Returns fg code name s v =
    let middle = codes " " ++ (code ++ codes " ") in
    let end = codes " " ++ (name ++ codes "\n") in
    onward (write_char b'[' white black s) _ (write_char-Returns b'[' white black s v) (λ s₁ v₁ a₁.
      onward (write_str middle fg black s₁) _
        (keeps_row (write_str middle fg black s₁) a₁ (write_str-Returns middle fg black s₁ v₁))
        (λ s₂ v₂ a₂.
          onward (write_char b']' white black s₂) _
            (keeps_row (write_char b']' white black s₂) a₂
              (write_char-Returns b']' white black s₂ v₂))
            (λ s₃ v₃ a₃.
              keeps_row (write_str end grey black s₃) a₃ (write_str-Returns end grey black s₃ v₃))))

handle_exitcode-Returns :
    {E : Type 0} (text : E → List ℕ) (name : List ℕ) (code : ExitCode E) (s : Screen)
    → GoesOn code
    → IsValid s
    → Returns s.allow_row_0 (handle_exitcode text name code s)
unfolding handle_exitcode
handle_exitcode-Returns text name infallible s g v = print_box-Returns cyan (codes "INF") name s v
handle_exitcode-Returns text name ok_code s g v = print_box-Returns lime (codes "OK!") name s v
handle_exitcode-Returns text name (error e) s g v =
    onward (print_box light_red (codes "ERR") name s) _
      (print_box-Returns light_red (codes "ERR") name s v)
      (λ s' v' a'.
        keeps_row (write_str (error_text (text e)) light_grey black s') a'
          (write_str-Returns (error_text (text e)) light_grey black s' v'))
handle_exitcode-Returns text name (stop e) s g v = elim g [ ]

-- A valid screen whose row 0 is the topbar's.
abbrev pub IsReady : Screen → Type 0
IsReady s = IsValid s × (s.allow_row_0 ≡ false)

-- The call returned, with these statics and such a screen.
pub record Ends (r : Outcome ⊥ (Unit {0}) × (Kernel × Screen)) (k : Kernel) : Type 0 where
  pub returned : r.0 ≡ ok tt
  pub statics : r.1.0 ≡ k
  pub valid : IsReady r.1.1

shown-Ends :
    (k : Kernel) (s : Screen) (o : Outcome ⊥ Screen) → Returns false o → Ends (shown k s o) k
shown-Ends k s (ok s') h = record { returned = refl; statics = refl; valid = h }
shown-Ends k s (err e) h = elim h [ ]
shown-Ends k s panic h = elim h [ ]
shown-Ends k s hang h = elim h [ ]

pub then-Ends :
    (P : Outcome ⊥ (Unit {0}) × (Kernel × Screen) → Type 0)
    (r : Outcome ⊥ (Unit {0}) × (Kernel × Screen)) (f : Boot) (k : Kernel)
    → Ends r k
    → ((s : Screen) → IsReady s → P (f (k, s)))
    → P (continue r.0 (λ _. f) r.1)
then-Ends P (ok u, (k₀, s)) f k e h = subst (λ q. P (f (q, s))) (sym e.statics) (h s e.valid)
then-Ends P (err x, z) f k e h = absurd (ground (arith, e.returned))
then-Ends P (panic, z) f k e h = absurd (ground (arith, e.returned))
then-Ends P (hang, z) f k e h = absurd (ground (arith, e.returned))

-- The call returned, and sent the visual cursor to the cursor of the screen that it left, after
-- everything else.
pub record Completes (r : Outcome ⊥ (Unit {0}) × (Kernel × Screen)) (k : Kernel) : Type 0 where
  pub returned : r.0 ≡ ok tt
  pub statics : r.1.0 ≡ record k { writes = k.writes ++ (update_visual_pos r.1.1).1 }
  pub valid : IsReady r.1.1

moved-Completes :
    (w : World) (k : Kernel) (s : Screen) (o : Outcome ⊥ Screen)
    → Returns false o
    → Completes (cursor_moved w k s o) k
moved-Completes w k s (ok s') (v, a) =
    rw (update_visual_pos_id s' v) (record { returned = refl; statics = refl; valid = (v, a) })
moved-Completes w k s (err e) h = elim h [ ]
moved-Completes w k s panic h = elim h [ ]
moved-Completes w k s hang h = elim h [ ]

cleared_writes : (s : Screen) → (update_visual_pos (set_row (set_col s 0) 1)).1 ≡ home_writes
unfolding update_visual_pos set_row set_col clamp_row_col
cleared_writes s = ground arith

module _ (w : World) where
  pub run-Ends :
      (name : List ℕ) (task : Task) (k : Kernel) (s : Screen)
      → GoesOn (task k).0
      → IsReady s
      → Ends (run w name task (k, s)) (task k).1
  unfolding run
  run-Ends name task k s g v =
      let o = handle_exitcode w.text name (task k).0 s in
      shown-Ends (task k).1 s o
        (keeps_row o v.1 (handle_exitcode-Returns w.text name (task k).0 s g v.0))

  pub step :
      (P : Outcome ⊥ (Unit {0}) × (Kernel × Screen) → Type 0) (name : List ℕ) (task : Task)
      (f : Boot) (k : Kernel) (s : Screen)
      → GoesOn (task k).0
      → IsReady s
      → ((s' : Screen) → IsReady s' → P (f ((task k).1, s')))
      → P ((run w name task >> f) (k, s))
  step P name task f k s g v h =
      then-Ends P (run w name task (k, s)) f (task k).1 (run-Ends name task k s g v) h

  coded-Ends :
      {E : Type 0} (f : E → TaskError) (r : Outcome E (Unit {0})) (name : List ℕ) (k : Kernel)
      (s : Screen)
      → Settled r
      → IsReady s
      → Ends (coded w name s (exit_on_err f r, k)) k
  coded-Ends f (ok u) name k s t v =
      let o = handle_exitcode w.text name ok_code s in
      shown-Ends k s o (keeps_row o v.1 (handle_exitcode-Returns w.text name ok_code s tt v.0))
  coded-Ends f (err x) name k s t v =
      let o = handle_exitcode w.text name (error (f x)) s in
      shown-Ends k s o
        (keeps_row o v.1 (handle_exitcode-Returns w.text name (error (f x)) s tt v.0))
  coded-Ends f panic name k s t v = elim t [ ]
  coded-Ends f hang name k s t v = elim t [ ]

  pub device_step :
      {E : Type 0} (P : Outcome ⊥ (Unit {0}) × (Kernel × Screen) → Type 0) (f : E → TaskError)
      (r : Outcome E (Unit {0})) (name : List ℕ) (task : DeviceTask) (g : Boot) (k k' : Kernel)
      (s : Screen)
      → task k ≡ (exit_on_err f r, k')
      → Settled r
      → IsReady s
      → ((s' : Screen) → IsReady s' → P (g (k', s')))
      → P ((run_device w name task >> g) (k, s))
  unfolding run_device
  device_step P f r name task g k k' s e t v h =
      then-Ends P (run_device w name task (k, s)) g k'
        (subst (λ q. Ends (coded w name s q) k') (sym e) (coded-Ends f r name k' s t v)) h

  -- Ready to wait for the clock.
  abbrev pub waiting : Kernel → Kernel
  waiting k = record k { rtc_irq_init = true; rtc = no_rtc }

  wait_for_rtc_sync-synced :
      (k : Kernel) (reg : Registers)
      → first_ended w.hardware.rtc_interrupts ≡ some reg
      → wait_for_rtc_sync w.hardware w.century (waiting k)
        ≡ some (ok_code, record (waiting k) { rtc = synced w.century (some reg) })
  unfolding wait_for_rtc_sync
  wait_for_rtc_sync-synced k reg e = rw (wait_sync-lem w.century w.hardware.rtc_interrupts, e) refl

  pub run_rtc_sync-Ends :
      (k : Kernel) (reg : Registers) (s : Screen)
      → first_ended w.hardware.rtc_interrupts ≡ some reg
      → IsReady s
      → Ends
          (run_rtc_sync w (waiting k, s))
          (record (waiting k) { rtc = synced w.century (some reg) })
  unfolding run_rtc_sync
  run_rtc_sync-Ends k reg s e v = rw (wait_for_rtc_sync-synced k reg e) (
      let o = handle_exitcode w.text (codes "Finished RTC sync") ok_code s in
      shown-Ends _ s o (
        keeps_row o v.1
          (handle_exitcode-Returns w.text (codes "Finished RTC sync") ok_code s tt v.0)))

  pub run_vga-Ends : (s : Screen) → IsReady s → Ends (run_vga w (cold, s)) displayed
  unfolding run_vga
  run_vga-Ends s v =
      let line = handle_exitcode w.text (codes "Connected VGA") infallible in
      let all =
        onward (Topbar.init s) line (keeps_row (Topbar.init s) v.1 (init-Returns s v.0))
          (λ s' v' a'.
            keeps_row (line s') a'
              (handle_exitcode-Returns w.text (codes "Connected VGA") infallible s' tt v')) in
      rw (cleared_writes s) (shown-Ends displayed s _ all)

  pub complete-Completes : (k : Kernel) (s : Screen) → IsReady s → Completes (complete w (k, s)) k
  unfolding complete
  complete-Completes k s v =
      let text = completed w in
      moved-Completes w k s _ (
        onward (draw_topbar w.topbar s) _ (draw_topbar-Returns w.topbar s v.0 v.1) (λ s₁ v₁ a₁.
          let o = write_str text green black s₁ in
          keeps_row o a₁ (write_str-Returns text green black s₁ v₁)))
