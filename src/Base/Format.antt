-- ===== src/Base/Format.antt =====
-- What the messages use of Go's `fmt`: `%d` of an `int32` and `%q` of a string. `%s` is the string.
-- Which characters from 0x80 on are printable is a table of Go's `unicode`; it is the parameter
-- `is_print`. A Go string that is not UTF-8 is not modelled.
use Prim.Native.Nat.{ℕ, zero, suc, ◌+◌, ◌*◌, ◌/◌, ◌%◌, ◌<◌}
use Prim.Native.Char.{Char, code}
use Prim.Native.String.{String, ◌++◌ as ◌<>◌}
use mathlib.Core.Path.{◌≡◌}
use mathlib.Core.Bool.{Bool, ◌||◌, ◌&&◌}
use mathlib.Core.Logic.{inl, inr}
use mathlib.Core.List.{List, [], ◌∷◌, ◌++◌, foldl, foldl-append}
use native.Mathlib.Omega.{arith}
use project_easter.Base.Tests.{ltb, leb, eqb, Bool-cases, if◌then◌else◌}
use project_easter.Base.Int.{ℤ, pos, negsuc}

abbrev get_or {ℓ} : {A : Type ℓ} → A → List A → ℕ → A
get_or d [] i = d
get_or d (x ∷ xs) zero = x
get_or d (x ∷ xs) (suc i) = get_or d xs i

abbrev digit_texts : List String
digit_texts =
    "0" ∷ "1" ∷ "2" ∷ "3" ∷ "4" ∷ "5" ∷ "6" ∷ "7" ∷ "8" ∷ "9" ∷ "a" ∷ "b" ∷ "c" ∷ "d" ∷ "e" ∷ "f"
    ∷ []

-- The decimal digits, the highest first. A number has fewer digits than `n + 1`.
digits_fuel : ℕ → ℕ → List ℕ
digits_fuel zero n = []
digits_fuel (suc f) n =
    let more = digits_fuel f (n / 10) in if ltb n 10 then n ∷ [] else more ++ (n % 10) ∷ []

unfoldable pub digits : ℕ → List ℕ
unfolding digits_fuel
digits n = digits_fuel (suc n) n

-- What digits say, read from the left.
abbrev pub value : List ℕ → ℕ
value = foldl (λ n d. n * 10 + d) 0

value-digits_fuel : (f n : ℕ) → n < f → value (digits_fuel f n) ≡ n
unfolding digits_fuel
value-digits_fuel zero n h = elim h [ ]
value-digits_fuel (suc f) n h = elim (Bool-cases (ltb n 10)) [
  | inl small ↦ rw small (omega arith)
  | inr large ↦
      rw large (rw (foldl-append, value-digits_fuel f (n / 10) (ground arith)) (omega arith))
]

pub value-digits : (n : ℕ) → value (digits n) ≡ n
unfolding digits
value-digits n = value-digits_fuel (suc n) n (omega arith)

render : List ℕ → String
render [] = ""
render (d ∷ ds) = get_or "" digit_texts d <> render ds

-- `%d`
unfoldable pub decimal : ℤ → String
unfolding digits render
decimal (pos n) = render (digits n)
decimal (negsuc n) = "-" <> render (digits (suc n))

-- The low `k` hexadecimal digits.
hex : ℕ → ℕ → String
hex zero n = ""
hex (suc k) n = hex k (n / 16) <> get_or "" digit_texts (n % 16)

-- The escapes of `strconv.Quote` for one character.
escape : (ℕ → Bool) → Char → String
unfolding hex
escape is_print ch =
    let c = code ch in
    if eqb c b'"'
    then "\\\""
    else if eqb c 92
    then "\\\\"
    else if (if ltb c 128 then leb 32 c && leb c 126 else is_print c)
    then String.◌∷◌ ch ""
    else if eqb c 7
    then "\\a"
    else if eqb c 8
    then "\\b"
    else if eqb c 12
    then "\\f"
    else if eqb c 10
    then "\\n"
    else if eqb c 13
    then "\\r"
    else if eqb c 9
    then "\\t"
    else if eqb c 11
    then "\\v"
    else if ltb c 32 || eqb c 127
    then "\\x" <> hex 2 c
    else if ltb c 65536
    then "\\u" <> hex 4 c
    else "\\U" <> hex 8 c

escapes : (ℕ → Bool) → String → String
unfolding escape
escapes is_print String.[] = ""
escapes is_print (String.◌∷◌ c s) = escape is_print c <> escapes is_print s

-- `%q`
unfoldable pub quote : (ℕ → Bool) → String → String
unfolding escapes
quote is_print s = "\"" <> (escapes is_print s <> "\"")
