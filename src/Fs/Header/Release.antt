-- ===== src/Fs/Header/Release.antt =====
-- Release dates: what `year_day` reads back, and how `partial_cmp` orders them.
use Prim.Native.Nat.{compare, Ordering}
use sunflower.Common.{ℕ, ◌+◌, ◌-◌, ◌*◌, ◌%◌, ◌^◌, ◌≤◌, ◌<◌, ◌≡◌, some, arith}
use sunflower.Common.Bits.{bit_or-shifted, bit_and-mask}
use sunflower.Fs.Header.{year_start, new_release, year_day, partial_cmp}

new_release-bits :
    (day year : ℕ)
    → year_start ≤ year
    → year < year_start + 64
    → day < 1024
    → (new_release day year).bits ≡ (year - year_start) * 1024 + day
unfolding new_release
new_release-bits day year lo hi hd =
    let shifted : (year + 2 ^ 16 - year_start) % 2 ^ 16 * 2 ^ 10 % 2 ^ 16
        ≡ (year - year_start) * 2 ^ 10 =
      omega arith in
    rw shifted (bit_or-shifted 10 (year - year_start) day hd)

-- For a year from 2025 to 2088 and a day below 1024, `year_day` reads back the year's offset, and
-- of the day its lowest nine bits: the day itself exactly when it is below 512.
pub year_day-new :
    (day year : ℕ)
    → year_start ≤ year
    → year < year_start + 64
    → day < 1024
    → year_day (new_release day year) ≡ (year - year_start, day % 512)
unfolding year_day
year_day-new day year lo hi hd =
    rw (new_release-bits day year lo hi hd)
      (ground (arith, bit_and-mask 9 ((year - year_start) * 1024 + day)))

-- Calendar order: by year, then by day.
abbrev pub calendar : ℕ → ℕ → ℕ → ℕ → Ordering
calendar d₁ y₁ d₂ y₂ = elim (compare y₁ y₂) [
  | Ordering.lt ↦ Ordering.lt
  | Ordering.eq ↦ compare d₁ d₂
  | Ordering.gt ↦ Ordering.gt
]

-- On releases of the years 2025 to 2088 and of days below 512, `partial_cmp` is calendar order.
pub partial_cmp-calendar :
    (d₁ y₁ d₂ y₂ : ℕ)
    → year_start ≤ y₁
    → y₁ < year_start + 64
    → d₁ < 512
    → year_start ≤ y₂
    → y₂ < year_start + 64
    → d₂ < 512
    → partial_cmp (new_release d₁ y₁) (new_release d₂ y₂) ≡ some (calendar d₁ y₁ d₂ y₂)
unfolding partial_cmp year_day
partial_cmp-calendar d₁ y₁ d₂ y₂ lo₁ hi₁ h₁ lo₂ hi₂ h₂ =
    rw (new_release-bits d₁ y₁ lo₁ hi₁ (omega arith), new_release-bits d₂ y₂ lo₂ hi₂ (omega arith))
      (ground (
        arith,
        bit_and-mask 9 ((y₁ - year_start) * 1024 + d₁),
        bit_and-mask 9 ((y₂ - year_start) * 1024 + d₂),
      ))
