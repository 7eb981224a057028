-- ===== src/Fs/Ptr/Packing.antt =====
-- Two 12-bit pointers in three bytes: `encode` and `decode` against each other.
use sunflower.Common.{
  ltb, ◌==◌, if◌then◌else◌, ==_iff, every_below, every_below-holds, ℕ, ◌+◌, ◌*◌, ◌/◌, ◌%◌, ◌<◌,
  bit_and, bit_or, ◌≡◌, refl, ap, ◌∙◌, true, arith,
}
use sunflower.Fs.Ptr.{BlockPtr, max_val, null, new, get_nullable, DualBlockPtr, decode, encode}

abbrev HoldsBelow : ℕ → (ℕ → ℕ) → (ℕ → ℕ) → Type 0
HoldsBelow n f g = every_below n (λ x. f x == g x) ≡ true

by_table : (n : ℕ) (f g : ℕ → ℕ) (x : ℕ) → HoldsBelow n f g → x < n → f x ≡ g x
by_table n f g x table h = (==_iff (f x) (g x)).0 (every_below-holds n x _ h table)

-- `|` of the fields that `decode` and `encode` put together is their sum.
join_nibble_table : HoldsBelow 4096 (λ n. bit_or (n / 16 * 16) (n % 16)) (λ n. n)
unfolding every_below
join_nibble_table = refl

join_nibble : (a x : ℕ) → a < 256 → x < 16 → bit_or (a * 16) x ≡ a * 16 + x
join_nibble a x ha hx =
    let e : bit_or ((a * 16 + x) / 16 * 16) ((a * 16 + x) % 16) ≡ a * 16 + x =
      by_table 4096 (λ n. bit_or (n / 16 * 16) (n % 16)) (λ n. n) (a * 16 + x) join_nibble_table
        (omega arith) in
    let q : (a * 16 + x) / 16 ≡ a = omega arith in
    let r : (a * 16 + x) % 16 ≡ x = omega arith in rw (q, r) at e

join_byte_table : HoldsBelow 4096 (λ n. bit_or (n / 256 * 256) (n % 256)) (λ n. n)
unfolding every_below
join_byte_table = refl

join_byte : (a x : ℕ) → a < 16 → x < 256 → bit_or (a * 256) x ≡ a * 256 + x
join_byte a x ha hx =
    let e : bit_or ((a * 256 + x) / 256 * 256) ((a * 256 + x) % 256) ≡ a * 256 + x =
      by_table 4096 (λ n. bit_or (n / 256 * 256) (n % 256)) (λ n. n) (a * 256 + x) join_byte_table
        (omega arith) in
    let q : (a * 256 + x) / 256 ≡ a = omega arith in
    let r : (a * 256 + x) % 256 ≡ x = omega arith in rw (q, r) at e

high_nibble_table : HoldsBelow 256 (λ n. bit_and n 240) (λ n. n / 16 * 16)
unfolding every_below
high_nibble_table = refl

low_nibble_table : HoldsBelow 4097 (λ n. bit_and n 15) (λ n. n % 16)
unfolding every_below
low_nibble_table = refl

third_nibble_table : HoldsBelow 4097 (λ n. bit_and n 3840) (λ n. n / 256 % 16 * 256)
unfolding every_below
third_nibble_table = refl

high_nibble : (n : ℕ) → n < 256 → bit_and n 240 ≡ n / 16 * 16
high_nibble n = by_table 256 (λ n. bit_and n 240) (λ n. n / 16 * 16) n high_nibble_table

low_nibble : (n : ℕ) → n < 4097 → bit_and n 15 ≡ n % 16
low_nibble n = by_table 4097 (λ n. bit_and n 15) (λ n. n % 16) n low_nibble_table

third_nibble : (n : ℕ) → n < 4097 → bit_and n 3840 ≡ n / 256 % 16 * 256
third_nibble n = by_table 4097 (λ n. bit_and n 3840) (λ n. n / 256 % 16 * 256) n third_nibble_table

-- The three bytes, as arithmetic.
abbrev packed : ℕ → ℕ → DualBlockPtr
packed a b = record { one = a / 16 % 256; two = a % 16 * 16 + b / 256 % 16; three = b % 256 }

abbrev pub unpacked : DualBlockPtr → ℕ × ℕ
unpacked d = (d.one * 16 + d.two / 16, d.two % 16 * 256 + d.three)

pub record IsBytes (d : DualBlockPtr) : Type 0 where
  pub one_lt : d.one < 256
  pub two_lt : d.two < 256
  pub three_lt : d.three < 256

get_nullable-new-le : (m : ℕ) → get_nullable (new m) < 4097
unfolding get_nullable new
get_nullable-new-le m = ground arith

encode-eq-packed :
    (p q : BlockPtr)
    → get_nullable p < 4097
    → get_nullable q < 4097
    → encode (p, q) ≡ packed (get_nullable p) (get_nullable q)
unfolding encode
encode-eq-packed p q hp hq =
    let a = get_nullable p in
    let b = get_nullable q in
    ground (
      arith,
      low_nibble a hp,
      third_nibble b hq,
      join_nibble (a % 16) (b / 256 % 16) (omega arith) (omega arith),
    )

pub decode-eq-unpacked :
    (d : DualBlockPtr) → IsBytes d → decode d ≡ (new (unpacked d).0, new (unpacked d).1)
unfolding decode
decode-eq-unpacked d v = ground (
  arith,
  high_nibble d.two v.two_lt,
  low_nibble d.two (omega arith),
  join_nibble d.one (d.two / 16) v.one_lt (omega arith),
  join_byte (d.two % 16) d.three (omega arith) v.three_lt,
)

pub encode-IsBytes : (m n : ℕ) → IsBytes (encode (new m, new n))
encode-IsBytes m n =
    rw (encode-eq-packed (new m) (new n) (get_nullable-new-le m) (get_nullable-new-le n))
      (omega arith)

-- A pointer that fits its twelve bits.
abbrev pub fitted : ℕ → BlockPtr
fitted m = if ltb m max_val then new m else null

new-fitted : (m : ℕ) → new (get_nullable (new m) % 4096) ≡ fitted m
unfolding new get_nullable null
new-fitted m = ground arith

-- Decoding an encoded pair gives back each pointer below `MAX_VAL`, null included, and turns one
-- that was given `MAX_VAL` or more into the null pointer.
pub decode-encode : (m n : ℕ) → decode (encode (new m, new n)) ≡ (fitted m, fitted n)
decode-encode m n =
    let a = get_nullable (new m) in
    let b = get_nullable (new n) in
    let ha : a < 4097 = get_nullable-new-le m in
    let hb : b < 4097 = get_nullable-new-le n in
    let fst : a / 16 % 256 * 16 + (a % 16 * 16 + b / 256 % 16) / 16 ≡ a % 4096 = omega arith in
    let snd : (a % 16 * 16 + b / 256 % 16) % 16 * 256 + b % 256 ≡ b % 4096 = omega arith in
    decode-eq-unpacked (encode (new m, new n)) (encode-IsBytes m n)
    ∙ rw (encode-eq-packed (new m) (new n) ha hb, fst, snd, new-fitted m, new-fitted n) refl

get_nullable-new : (m : ℕ) → m < 4096 → get_nullable (new m) ≡ m
unfolding get_nullable new
get_nullable-new m h = ground arith

-- Encoding what three bytes decode to gives the same three bytes.
pub encode-decode : (d : DualBlockPtr) → IsBytes d → encode (decode d) ≡ d
encode-decode d v =
    let m = d.one * 16 + d.two / 16 in
    let n = d.two % 16 * 256 + d.three in
    let hm : m < 4096 = omega arith in
    let hn : n < 4096 = omega arith in
    ap encode (decode-eq-unpacked d v)
    ∙ encode-eq-packed (new m) (new n) (get_nullable-new-le m) (get_nullable-new-le n)
    ∙ rw (get_nullable-new m hm, get_nullable-new n hn) (ground arith)
