-- ===== src/User/Decimal/Tests.antt =====
-- Runs of putdec.
use net_os.Base.{ℕ, ◌≡◌, refl, some, List, [], ◌∷◌, arith}
use net_os.User.Decimal.{putdec}
use net_os.User.Decimal.Value.{Numeral, putdec-Numeral}

three_digits : putdec 4 305 ≡ some (b'3' ∷ b'0' ∷ b'5' ∷ [])
unfolding putdec
three_digits = refl

putdec-Numeral_example : (s : List ℕ) × (putdec 306 305 ≡ some s) × Numeral 305 s
putdec-Numeral_example = putdec-Numeral 306 305 (omega arith)
