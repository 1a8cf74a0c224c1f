-- ===== src/Kernel/Keyboard.antt =====
-- The scan codes of kernel/kbd.cc. The codes that `inb(0x60)` reads are given; what goes into the
-- bounded buffer is a list of characters.
pub mod Codes
pub mod Typing
pub mod Cursor
mod Tests
use net_os.Base.{
  ℕ, ◌+◌, ◌-◌, Bool, true, false, not, ◌&&◌, ◌||◌, Option, none, some, List, [], ◌∷◌, ◌==◌, leb,
  if◌then◌else◌,
}

-- `shift`, `control` and `direction`.
pub record Keyboard : Type 0 where
  pub shift : Bool
  pub control : Bool
  pub direction : Bool

-- The cases of a switch, each with what it returns.
pub switch : List (ℕ × ℕ) → ℕ → Option ℕ
switch [] x = none
switch ((k, v) ∷ cases) x = let rest = switch cases x in if x == k then some v else rest

-- The cases of ul.
abbrev pub shifted : List (ℕ × ℕ)
shifted =
    (b'a', b'A')
    ∷ (b'b', b'B')
    ∷ (b'c', b'C')
    ∷ (b'd', b'D')
    ∷ (b'e', b'E')
    ∷ (b'f', b'F')
    ∷ (b'g', b'G')
    ∷ (b'h', b'H')
    ∷ (b'i', b'I')
    ∷ (b'j', b'J')
    ∷ (b'k', b'K')
    ∷ (b'l', b'L')
    ∷ (b'm', b'M')
    ∷ (b'n', b'N')
    ∷ (b'o', b'O')
    ∷ (b'p', b'P')
    ∷ (b'q', b'Q')
    ∷ (b'r', b'R')
    ∷ (b's', b'S')
    ∷ (b't', b'T')
    ∷ (b'u', b'U')
    ∷ (b'v', b'V')
    ∷ (b'w', b'W')
    ∷ (b'x', b'X')
    ∷ (b'y', b'Y')
    ∷ (b'z', b'Z')
    ∷ (b'`', b'~')
    ∷ (b'1', b'!')
    ∷ (b'2', b'@')
    ∷ (b'3', b'#')
    ∷ (b'4', b'$')
    ∷ (b'5', b'%')
    ∷ (b'6', b'^')
    ∷ (b'7', b'&')
    ∷ (b'8', b'*')
    ∷ (b'9', b'(')
    ∷ (b'0', b')')
    ∷ (b'-', b'_')
    ∷ (b'=', b'+')
    ∷ (b'[', b'{')
    ∷ (b']', b'}')
    ∷ (b'\\', b'|')
    ∷ (b';', b':')
    ∷ (b'\'', b'"')
    ∷ (b',', b'<')
    ∷ (b'.', b'>')
    ∷ (b'/', b'?')
    ∷ []

pub ul : Keyboard → ℕ → ℕ
unfolding switch
ul s x = if s.shift then elim (switch shifted x) [ none ↦ x | some y ↦ y ] else x

-- `if(direction) switch(b)`
abbrev pub arrows : List (ℕ × ℕ)
arrows = (0x4b, 0xf0) ∷ (0x4d, 0xf1) ∷ (0x48, 0xf2) ∷ (0x50, 0xf3) ∷ []

-- `if(control) switch(b)`
abbrev pub controls : List (ℕ × ℕ)
controls = (0x10, 0xfe) ∷ (0x11, 0xfd) ∷ []

-- The cases that return `ul(...)` of a character, but for the digits from 1 to 9.
abbrev pub keys : List (ℕ × ℕ)
keys =
    (0x0b, b'0')
    ∷ (0x0c, b'-')
    ∷ (0x0d, b'=')
    ∷ (0x10, b'q')
    ∷ (0x11, b'w')
    ∷ (0x12, b'e')
    ∷ (0x13, b'r')
    ∷ (0x14, b't')
    ∷ (0x15, b'y')
    ∷ (0x16, b'u')
    ∷ (0x17, b'i')
    ∷ (0x18, b'o')
    ∷ (0x19, b'p')
    ∷ (0x1a, b'[')
    ∷ (0x1b, b']')
    ∷ (0x2b, b'\\')
    ∷ (0x1e, b'a')
    ∷ (0x1f, b's')
    ∷ (0x20, b'd')
    ∷ (0x21, b'f')
    ∷ (0x22, b'g')
    ∷ (0x23, b'h')
    ∷ (0x24, b'j')
    ∷ (0x25, b'k')
    ∷ (0x26, b'l')
    ∷ (0x27, b';')
    ∷ (0x28, b'\'')
    ∷ (0x29, b'`')
    ∷ (0x2c, b'z')
    ∷ (0x2d, b'x')
    ∷ (0x2e, b'c')
    ∷ (0x2f, b'v')
    ∷ (0x30, b'b')
    ∷ (0x31, b'n')
    ∷ (0x32, b'm')
    ∷ (0x33, b',')
    ∷ (0x34, b'.')
    ∷ (0x35, b'/')
    ∷ []

-- The cases that return a character as it is.
abbrev pub plain : List (ℕ × ℕ)
plain = (0x0e, 8) ∷ (0x1c, 13) ∷ (0x39, b' ') ∷ []

-- The cases of the last switch that return 255.
pub modifier : ℕ → Keyboard → Keyboard
modifier b s =
    if b == 0x1d
    then record s { control = true }
    else if b == 0x9d
    then record s { control = false }
    else if (b == 0x2a) || (b == 0x36)
    then record s { shift = true }
    else if (b == 0xaa) || (b == 0xb6)
    then record s { shift = false }
    else s

-- The last switch.
pub key : ℕ → Keyboard → ℕ × Keyboard
unfolding switch ul modifier
key b s = if leb 0x02 b && leb b 0x0a then (ul s (b'0' + b - 1), s) else elim (switch keys b) [
  | some c ↦ (ul s c, s)
  | none ↦ elim (switch plain b) [ some c ↦ (c, s) | none ↦ (255, modifier b s) ]
]

-- kbd_get on the code `b`.
pub kbd_get : ℕ → Keyboard → ℕ × Keyboard
unfolding switch key
kbd_get b s =
    if b == 0xe0
    then (255, record s { direction = not s.direction })
    else elim (if s.direction then switch arrows b else none) [
      | some c ↦ (c, s)
      | none ↦ elim (if s.control then switch controls b else none) [
        | some c ↦ (c, s)
        | none ↦ key b s
      ]
    ]

-- Keyboard::handler on code after code: what it puts into the buffer, and the state. A character 255
-- is `~0`.
pub handler : List ℕ → Keyboard → List ℕ × Keyboard
unfolding kbd_get
handler [] s = ([], s)
handler (b ∷ codes) s =
    let (ch, s') = kbd_get b s in
    let (typed, end) = handler codes s' in (if ch == 255 then typed else ch ∷ typed, end)
