-- ===== src/Prelude/Text.antt =====
-- `std::string` is a list of bytes. A `String` stands for it whose characters are these bytes.
use Prim.Native.Nat.{ℕ, ◌%◌, ◌<◌, compare, Ordering}
use Prim.Native.Char.{Char, char, code, IsScalar}
use Prim.Native.String.{String}
use mathlib.Core.Path.{◌≡◌}
use mathlib.Core.List.{List, [], ◌∷◌}
use native.Mathlib.Omega.{arith}

compare_lt : (n m : ℕ) → n < m → compare n m ≡ Ordering.lt
compare_lt n m h = ground arith

pub byte-IsScalar : (n : ℕ) → IsScalar (n % 256)
byte-IsScalar n = rw (compare_lt (n % 256) 55296 (omega arith)) tt

-- The character of a byte.
unfoldable pub char_of : ℕ → Char
char_of n = char (n % 256) (byte-IsScalar n)

unfoldable pub text_of : List ℕ → String
unfolding char_of
text_of [] = String.[]
text_of (b ∷ bs) = String.◌∷◌ (char_of b) (text_of bs)

unfoldable pub bytes_of : String → List ℕ
bytes_of String.[] = []
bytes_of (String.◌∷◌ c s) = code c % 256 ∷ bytes_of s
