-- ===== src/Keyboard/Keys.antt =====
-- What kernel/src/interrupts/keyboard.rs does with a decoded key: the shift and SysRq keys, the
-- system commands and the characters printed. Keys, modifiers and events are pc_keyboard's, of
-- which these are the parts that the code reads.
pub mod Shift
use sunflower.Common.{
  ltb, leb, ◌==◌, if◌then◌else◌, ℕ, ◌+◌, ◌-◌, ◌/◌, ◌%◌, ◌^◌, bit_and, bit_or, Bool, true, false,
  not, Option, none, some, List, [], ◌∷◌,
}
use sunflower.Common.Bits.{}
use sunflower.Vga.Screen.{buffer_height}
use sunflower.Vga.Cursor.{left, right, up, down}
use sunflower.Vga.Print.{Color, black, white}
use sunflower.Vga.Valid.Run.{
  Request, print, backspace, move_cursor, clear_screen, swap_buffers, topbar, to_column, to_row,
}

pub data KeyCode : Type 0 where
  f1 f2 f3 f4 f5 f6 f7 : KeyCode
  arrow_left arrow_right arrow_up arrow_down : KeyCode
  other_key : ℕ → KeyCode

pub data KeyState : Type 0 where
  key_down key_up single_shot : KeyState

pub record KeyEvent : Type 0 where
  pub code : KeyCode
  pub state : KeyState

pub record Modifiers : Type 0 where
  pub is_ctrl : Bool
  pub is_alt : Bool
  pub capslock : Bool

pub data DecodedKey : Type 0 where
  raw_key : KeyCode → DecodedKey
  unicode : ℕ → DecodedKey

-- `SHIFT` and `SYSRQ`.
pub record Held : Type 0 where
  pub shift_bits : ℕ
  pub sysrq : Bool

abbrev pub lshift_scancode : ℕ
lshift_scancode = 0x12

abbrev pub rshift_scancode : ℕ
rshift_scancode = 0x59

abbrev pub is_sysrq : ℕ → Bool
is_sysrq scancode = if scancode == 0x7F then true else scancode == 0x7C

-- `SHIFT.fetch_or(1 << bit)`
abbrev pub set_bit : ℕ → ℕ → ℕ
set_bit bit bits = bit_or bits (2 ^ bit)

-- `SHIFT.fetch_and(!(1 << bit))`, on eight bits.
abbrev pub clear_bit : ℕ → ℕ → ℕ
clear_bit bit bits = bit_and bits (255 - 2 ^ bit)

-- The first part of `keyboard_input`.
unfoldable pub note_held : ℕ → KeyState → Held → Held
note_held scancode key_down h =
    if scancode == lshift_scancode
    then record h { shift_bits = set_bit 0 h.shift_bits }
    else if scancode == rshift_scancode
    then record h { shift_bits = set_bit 1 h.shift_bits }
    else if is_sysrq scancode
    then record h { sysrq = true }
    else h
note_held scancode key_up h =
    if scancode == lshift_scancode
    then record h { shift_bits = clear_bit 0 h.shift_bits }
    else if scancode == rshift_scancode
    then record h { shift_bits = clear_bit 1 h.shift_bits }
    else if is_sysrq scancode
    then record h { sysrq = false }
    else h
note_held scancode single_shot h = h

-- What handling a key asks of the rest of the kernel.
pub data Effect : Type 0 where
  screen : Request → Effect
  play_song : Effect
  badbug : Effect
  triple_fault : Effect

-- The texts that are formatted elsewhere.
pub record Texts : Type 0 where
  pub bar : List ℕ
  pub sysinfo : List ℕ
  pub sysinfo_title : List ℕ
  pub stored : List ℕ
  pub help : List ℕ
  pub help_title : List ℕ

abbrev pub light_blue : Color
light_blue = 9

abbrev pub pink : Color
pink = 13

abbrev pub print_sysinfo : Texts → List Effect
print_sysinfo t =
    screen swap_buffers
    ∷ screen clear_screen
    ∷ screen (topbar t.bar)
    ∷ screen (print t.sysinfo_title light_blue black)
    ∷ screen (print t.sysinfo white black)
    ∷ screen (to_column 0)
    ∷ screen (to_row (buffer_height - 1))
    ∷ screen (print t.stored white black)
    ∷ []

abbrev pub print_help : Texts → List Effect
print_help t =
    screen swap_buffers
    ∷ screen clear_screen
    ∷ screen (topbar t.bar)
    ∷ screen (print t.help_title pink black)
    ∷ screen (print t.help white black)
    ∷ []

abbrev pub syscmd : Texts → KeyCode → List Effect
syscmd t f1 = print_sysinfo t
syscmd t f2 = screen clear_screen ∷ screen (topbar t.bar) ∷ []
syscmd t f3 = play_song ∷ []
syscmd t f4 = badbug ∷ []
syscmd t f5 = triple_fault ∷ []
syscmd t f6 = screen swap_buffers ∷ []
syscmd t f7 = print_help t
syscmd t arrow_left = []
syscmd t arrow_right = []
syscmd t arrow_up = []
syscmd t arrow_down = []
syscmd t (other_key n) = []

unfoldable pub check_syscmd : Texts → KeyCode → Modifiers → Held → List Effect
check_syscmd t key kbd h =
    if (if h.sysrq then true else if kbd.is_ctrl then kbd.is_alt else false)
    then syscmd t key
    else []

unfoldable pub check_arrows : KeyCode → List Effect
check_arrows arrow_left = screen (move_cursor left) ∷ []
check_arrows arrow_right = screen (move_cursor right) ∷ []
check_arrows arrow_up = screen (move_cursor up) ∷ []
check_arrows arrow_down = screen (move_cursor down) ∷ []
check_arrows f1 = []
check_arrows f2 = []
check_arrows f3 = []
check_arrows f4 = []
check_arrows f5 = []
check_arrows f6 = []
check_arrows f7 = []
check_arrows (other_key n) = []

abbrev pub shift_mapping : List (ℕ × ℕ)
shift_mapping =
    (b'1', b'!')
    ∷ (b'2', b'@')
    ∷ (b'3', b'#')
    ∷ (b'4', b'$')
    ∷ (b'5', b'%')
    ∷ (b'6', b'^')
    ∷ (b'7', b'&')
    ∷ (b'8', b'*')
    ∷ (b'9', b'(')
    ∷ (b'0', b')')
    ∷ (b'-', b'_')
    ∷ (b'=', b'+')
    ∷ (b'[', b'{')
    ∷ (b']', b'}')
    ∷ (0x5C, b'|')
    ∷ (b';', b':')
    ∷ (0x27, 0x22)
    ∷ (b',', b'<')
    ∷ (b'.', b'>')
    ∷ (b'/', b'?')
    ∷ (b'`', b'~')
    ∷ []

-- `SHIFT_MAPPING.iter().find(|s| s.0 == key || s.1 == key)`
unfoldable pub find_mapping : ℕ → List (ℕ × ℕ) → Option (ℕ × ℕ)
find_mapping key [] = none
find_mapping key (s ∷ rest) =
    let later = find_mapping key rest in
    if s.0 == key then some s else if s.1 == key then some s else later

unfoldable pub to_ascii_lowercase : ℕ → ℕ
to_ascii_lowercase c = if leb b'A' c then (if leb c b'Z' then c + 32 else c) else c

unfoldable pub to_ascii_uppercase : ℕ → ℕ
to_ascii_uppercase c = if leb b'a' c then (if leb c b'z' then c - 32 else c) else c

abbrev pub xor : Bool → Bool → Bool
xor true b = not b
xor false b = b

abbrev pub cased : ℕ → Bool → Bool → ℕ
cased key caps shift = if xor caps shift then to_ascii_uppercase key else key

abbrev pub shown_mapped : ℕ → Bool → Bool → Option (ℕ × ℕ) → ℕ
shown_mapped key caps shift none = cased (to_ascii_lowercase key) caps shift
shown_mapped key caps shift (some (plain, shifted)) =
    if shift then shifted else cased plain caps shift

-- The character that `print_char` prints.
unfoldable pub shown : ℕ → Bool → Bool → ℕ
shown key caps shift = shown_mapped key caps shift (find_mapping key shift_mapping)

-- The UTF-8 bytes of a character.
unfoldable pub utf8 : ℕ → List ℕ
utf8 c =
    if ltb c 0x80
    then c ∷ []
    else if ltb c 0x800
    then (0xC0 + c / 64) ∷ (0x80 + c % 64) ∷ []
    else if ltb c 0x10000
    then (0xE0 + c / 4096) ∷ (0x80 + c / 64 % 64) ∷ (0x80 + c % 64) ∷ []
    else (0xF0 + c / 262144) ∷ (0x80 + c / 4096 % 64) ∷ (0x80 + c / 64 % 64) ∷ (0x80 + c % 64) ∷ []

-- `print_char`; `disable_enter` is the feature of that name.
unfoldable pub print_char : Bool → ℕ → Modifiers → Held → List Effect
print_char disable_enter key kbd h =
    if (if key == 0x08 then true else key == 0x7F)
    then screen backspace ∷ []
    else if (if key == 0x09
        then true
        else if key == 0x1B
        then true
        else if key == 0x0A
        then disable_enter
        else false)
    then []
    else screen (print (utf8 (shown key kbd.capslock (not (h.shift_bits == 0)))) white black) ∷ []
