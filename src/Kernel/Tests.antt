-- ===== src/Kernel/Tests.antt =====
-- Instances of the theorems about the smaller parts of the kernel.
use sunflower.Common.{ℕ, ◌+◌, ◌*◌, ◌%◌, ◌^◌, ◌<◌, ◌≡◌, false, arith}
use sunflower.Kernel.ContAccess.{ContAccess}
use sunflower.Kernel.ContAccess.Nesting.{
  Prog, done, copies, writes, maps, run_prog, ending, run_prog_lem,
}
use sunflower.Kernel.Time.{Time, sync_time}
use sunflower.Kernel.Time.Sync.{to_bcd, shows, sync_time-bcd}
use sunflower.Kernel.Descriptors.{
  ptr, Handler, exception, exception_errcode, cont, double_fault, timer, kbd, floppy, dummy, rtc,
  new_idt,
}
use sunflower.Kernel.Descriptors.Pointers.{new_idt-ptr}

abbrev answer : ContAccess ℕ
answer = record { data_cell = 42; locked = false; int_depth = 0 }

abbrev program : Prog ℕ
program = writes 15 (maps (λ v. v + 1) done (copies done))

run_prog_example : (run_prog program answer).0 ≡ ending program answer
run_prog_example = run_prog_lem program answer

abbrev evening : Time
evening = record { year = 26; month = 11; day = 26; hour = 23; min = 59; sec = 48 }

sync_time-bcd_example :
    sync_time 20 (shows evening 0b10)
    ≡ record evening { hour = to_bcd evening.hour; year = evening.year + 20 * 100 }
sync_time-bcd_example =
    sync_time-bcd evening 20 (omega arith) (omega arith) (omega arith) (omega arith) (omega arith)
      (omega arith)

abbrev handler_at : Handler → ℕ
handler_at (exception text) = 0xFFFF8000
handler_at (exception_errcode text) = 0xFFFF8010
handler_at (cont errcode inc) = 0xFFFF8020 + errcode % 256 * 16
handler_at double_fault = 0xFFFF9100
handler_at timer = 0xFFFF9110
handler_at kbd = 0xFFFF9120
handler_at floppy = 0xFFFF9130
handler_at dummy = 0xFFFF9140
handler_at rtc = 0xFFFF9150

handler_at-lt : (h : Handler) → handler_at h < 2 ^ 64
handler_at-lt (exception text) = omega arith
handler_at-lt (exception_errcode text) = omega arith
handler_at-lt (cont errcode inc) = omega arith
handler_at-lt double_fault = omega arith
handler_at-lt timer = omega arith
handler_at-lt kbd = omega arith
handler_at-lt floppy = omega arith
handler_at-lt dummy = omega arith
handler_at-lt rtc = omega arith

new_idt-ptr_example : ptr (new_idt 8 handler_at 33) ≡ 0xFFFF9120
new_idt-ptr_example = new_idt-ptr 8 handler_at 33 handler_at-lt
