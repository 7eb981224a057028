-- ===== src/Startup/Kmain/Started.antt =====
-- A start on hardware that works.
use sunflower.Startup.{red, print_box, and_panic, handle_exitcode}
use sunflower.Common.Outcome.{Outcome, continue, ◌>>◌, ok, err, panic, hang}
use sunflower.Common.Text.{codes}
use sunflower.Kernel.Descriptors.{new_idt}
use sunflower.Kernel.Time.{Registers}
use sunflower.Kernel.Pic
use sunflower.Sync.InitLater
use sunflower.Common.{◌≡◌, refl, Bool, false, arith}
use sunflower.Vga.Screen.{Screen}
use sunflower.Vga.Valid.{Returns}
use sunflower.Startup.Tasks.{
  Kernel, Hardware, load_idt, setup_tss, load_gdt, load_tss, init_pic, setup_rtc_int, set_timer,
}
use sunflower.Startup.Kmain.{World, Boot, shown, run, run_vga, kmain}
use sunflower.Startup.Kmain.Healthy.{print_box-Returns, IsReady, Ends, run_vga-Ends}
use sunflower.Startup.Kmain.Statics.{cold, sound, holding_value, displayed, kbd_left}
use sunflower.Keyboard.Start.{init as kbd_start}

module _ (w : World) (reg : Registers) (s : Screen) where
  abbrev h : Hardware
  h = (sound w).hardware

  -- The statics when the timer is set, and when the keyboard was started.
  timed : Kernel
  timed =
      let loaded = (load_tss h (load_gdt h (setup_tss h (load_idt h displayed).1).1).1).1 in
      (set_timer h (setup_rtc_int h (init_pic h loaded).1).1).1

  typing : Kernel
  typing = record timed { kbd = kbd_left w.devices }

-- A task that stops the start of the kernel.
stopped :
    (a : Bool) (k : Kernel) (s : Screen) (o : Outcome ⊥ Screen)
    → Returns a o
    → shown k s (and_panic o) ≡ (panic, (k, s))
stopped a k s (ok s') h = refl
stopped a k s (err e) h = elim h [ ]
stopped a k s panic h = elim h [ ]
stopped a k s hang h = elim h [ ]

loading_stops :
    (w : World) (f : Boot) (k : Kernel) (s : Screen)
    → w.hardware.idtr_kept ≡ false
    → IsReady s
    → k ≡ displayed
    → let idt = (load_idt w.hardware displayed).1.idt in
      (run w (codes "Loaded IDT") (load_idt w.hardware) >> f) (k, s)
      ≡ (panic, (record displayed { idt = idt }, s))
unfolding run load_idt InitLater.uninit handle_exitcode
loading_stops w f k s lost v same =
    let o = print_box red (codes "STP") (codes "Loaded IDT") s in
    let now = record displayed { idt = holding_value (new_idt w.hardware.cs w.hardware.handler) } in
    rw
      (
        same,
        lost,
        stopped s.allow_row_0 now s o
            (print_box-Returns red (codes "STP") (codes "Loaded IDT") s v.0),
      )
      refl

after_vga :
    (w : World) (f : Boot) (r : Outcome ⊥ (Unit {0}) × (Kernel × Screen))
    → w.hardware.idtr_kept ≡ false
    → Ends r displayed
    → let idt = (load_idt w.hardware displayed).1.idt in
      continue r.0 (λ _. run w (codes "Loaded IDT") (load_idt w.hardware) >> f) r.1
      ≡ (panic, (record displayed { idt = idt }, r.1.1))
after_vga w f (ok u, (k, s)) lost e = loading_stops w f k s lost e.valid e.statics
after_vga w f (err x, z) lost e = absurd (ground (arith, e.returned))
after_vga w f (panic, z) lost e = absurd (ground (arith, e.returned))
after_vga w f (hang, z) lost e = absurd (ground (arith, e.returned))

-- Where the processor does not store the interrupt table that was loaded, `kmain` panics after the
-- task that loads it, the first one behind `vga::init`, and runs none of the others: nothing but the
-- table's static is initialised.
pub kmain-stop :
    (w : World) (s : Screen)
    → w.hardware.idtr_kept ≡ false
    → IsReady s
    → let idt = (load_idt w.hardware displayed).1.idt in
      kmain w (cold, s) ≡ (panic, (record displayed { idt = idt }, (run_vga w (cold, s)).1.1))
unfolding kmain
kmain-stop w s lost v = after_vga w _ (run_vga w (cold, s)) lost (run_vga-Ends w s v)
