-- ===== src/Prelude/Decimal.antt =====
-- `strconv.FormatInt(value, 10)` on the integers.
use Prim.Native.Nat.{ℕ, zero, suc, ◌/◌, ◌%◌}
use Prim.Native.String.{String, ◌++◌}
use lenz.Prelude.Tests.{ltb, if◌then◌else◌}
use lenz.Prelude.Int.{ℤ, pos, negsuc}

digit : ℕ → String
digit zero = "0"
digit (suc zero) = "1"
digit (suc (suc zero)) = "2"
digit (suc (suc (suc zero))) = "3"
digit (suc (suc (suc (suc zero)))) = "4"
digit (suc (suc (suc (suc (suc zero))))) = "5"
digit (suc (suc (suc (suc (suc (suc zero)))))) = "6"
digit (suc (suc (suc (suc (suc (suc (suc zero))))))) = "7"
digit (suc (suc (suc (suc (suc (suc (suc (suc zero)))))))) = "8"
digit _ = "9"

-- One round writes one digit, so `fuel` bounds the number of digits.
digits : ℕ → ℕ → String
digits zero n = ""
digits (suc fuel) n =
    let rest = digits fuel (n / 10) in if ltb n 10 then digit n else rest ++ digit (n % 10)

-- 20 digits are enough for 64 bits.
unfoldable pub format_int : ℤ → String
unfolding digit digits
format_int (pos n) = digits 20 n
format_int (negsuc n) = "-" ++ digits 20 (suc n)
