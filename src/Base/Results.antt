-- ===== src/Base/Results.antt =====
-- Go's `(value, error)` results, an error being its text, and `encoding/hex`.
use Prim.Native.Nat.{ℕ, zero, suc, ◌+◌, ◌-◌, ◌*◌, ◌/◌, ◌%◌, ◌<◌}
use distributed_multi_agent.Base.Tests.{ltb, leb, if◌then◌else◌}
use distributed_multi_agent.Base.Text.{Bytes, bytes}
use mathlib.Core.Bool.{◌&&◌}
use mathlib.Core.List.{[], ◌∷◌, ◌++◌}
use mathlib.Core.Logic.{◌⊎◌, inl, inr}
use mathlib.Core.Option.{Option, none, some}
use mathlib.Core.Path.{◌≡◌, refl}
use native.Mathlib.Omega.{arith}

pub data Result (A : Type 0) : Type 0 where
  ok : A → Result A
  err : Bytes → Result A

infixl 5 ◌>>=◌
abbrev pub ◌>>=◌ : {A B : Type 0} → Result A → (A → Result B) → Result B
ok a >>= f = f a
err e >>= f = err e

-- `fmt.Errorf("…: %w", err)`.
abbrev pub wrap : {A : Type 0} → Bytes → Result A → Result A
wrap context (ok a) = ok a
wrap context (err e) = err (context ++ (bytes ": " ++ e))

pub Result-cases :
    {A : Type 0} (r : Result A) → ((a : A) × (r ≡ ok a)) ⊎ ((e : Bytes) × (r ≡ err e))
Result-cases (ok a) = inl (a, refl)
Result-cases (err e) = inr (e, refl)

-- `%d` of a number, with fuel for its digits.
unfoldable pub decimal_digits : ℕ → ℕ → Bytes
decimal_digits zero n = []
decimal_digits (suc f) n =
    let rest = decimal_digits f (n / 10) in
    if ltb n 10 then (b'0' + n) ∷ [] else rest ++ ((b'0' + n % 10) ∷ [])

unfoldable pub decimal : ℕ → Bytes
decimal n = decimal_digits (suc n) n

unfoldable pub hex_digit : ℕ → ℕ
hex_digit n = if ltb n 10 then b'0' + n else b'a' + (n - 10)

-- `hex.EncodeToString`.
unfoldable pub hex_encode : Bytes → Bytes
hex_encode [] = []
hex_encode (b ∷ bs) = hex_digit (b / 16) ∷ hex_digit (b % 16) ∷ hex_encode bs

unfoldable pub hex_value : ℕ → Option ℕ
hex_value c =
    if leb b'0' c && leb c b'9'
    then some (c - b'0')
    else if leb b'a' c && leb c b'f'
    then some (c - b'a' + 10)
    else if leb b'A' c && leb c b'F'
    then some (c - b'A' + 10)
    else none

-- The byte that two digits stand for, before the bytes that follow.
unfoldable pub hex_pair : Option ℕ → Option ℕ → Result Bytes → Result Bytes
hex_pair none low rest = err (bytes "encoding/hex: invalid byte")
hex_pair (some h) none rest = err (bytes "encoding/hex: invalid byte")
hex_pair (some h) (some l) (err e) = err e
hex_pair (some h) (some l) (ok bs) = ok ((h * 16 + l) ∷ bs)

-- `hex.DecodeString`. (The text of an error on a bad digit names the digit too.)
unfoldable pub hex_decode : Bytes → Result Bytes
hex_decode [] = ok []
hex_decode (c ∷ []) = elim (hex_value c) [
  | none ↦ err (bytes "encoding/hex: invalid byte")
  | some _ ↦ err (bytes "encoding/hex: odd length hex string")
]
hex_decode (c ∷ d ∷ cs) = hex_pair (hex_value c) (hex_value d) (hex_decode cs)

-- Every element is a byte.
abbrev pub AllBytes : Bytes → Type 0
AllBytes [] = Unit {0}
AllBytes (b ∷ bs) = (b < 256) × AllBytes bs

hex_value-hex_digit : (n : ℕ) → n < 16 → hex_value (hex_digit n) ≡ some n
unfolding hex_value hex_digit
hex_value-hex_digit n h = ground arith

pub hex_decode-hex_encode : (bs : Bytes) → AllBytes bs → hex_decode (hex_encode bs) ≡ ok bs
unfolding hex_decode hex_encode hex_pair
hex_decode-hex_encode [] a = refl
hex_decode-hex_encode (b ∷ bs) (small, a) =
    ground (
      arith,
      hex_value-hex_digit (b / 16),
      hex_value-hex_digit (b % 16),
      hex_decode-hex_encode bs a,
    )
