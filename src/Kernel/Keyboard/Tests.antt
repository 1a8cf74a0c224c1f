-- ===== src/Kernel/Keyboard/Tests.antt =====
-- Codes of a small text, and of keys held down.
use net_os.Base.{◌≡◌, refl, [], ◌∷◌, arith}
use net_os.Kernel.Keyboard.{handler}
use net_os.Kernel.Keyboard.Typing.{start, presses, handler-types}

-- "Ls" and the enter key.
word_typed :
    handler (0x2a ∷ 0x26 ∷ 0xa6 ∷ 0xaa ∷ 0x1f ∷ 0x9f ∷ 0x1c ∷ []) start
    ≡ (b'L' ∷ b's' ∷ 13 ∷ [], start)
unfolding handler
word_typed = refl

handler-types_example :
    handler (presses (b'L' ∷ b's' ∷ b' ' ∷ b'~' ∷ [])) start
    ≡ (b'L' ∷ b's' ∷ b' ' ∷ b'~' ∷ [], start)
handler-types_example = handler-types (b'L' ∷ b's' ∷ b' ' ∷ b'~' ∷ []) (omega arith)
