-- ===== src/Config/Number.antt =====
-- strconv: Itoa of a number that is not negative, and Atoi. `itoa` takes its number's successor as
-- fuel, which is more rounds than a number has digits.
use Prim.Native.Char.{Char, code}
use Prim.Native.String.{[], ◌∷◌}
use nexus_relay.Common.{
  ℕ, zero, suc, ◌+◌, ◌-◌, ◌*◌, ◌/◌, ◌%◌, ◌^◌, ◌<◌, String, Bool, true, false, ◌≡◌, refl, ◌∙◌,
  Option, none, some, arith, ltb, leb, nat_eq, if◌then◌else◌,
}
use nexus_relay.Common.Text.{is_digit}
use nexus_relay.Config.Library.{ℤ, pos, negsuc}

abbrev pub max_int64 : ℕ
max_int64 = 2 ^ 63 - 1

digit : ℕ → Char
digit zero = "0"
digit (suc zero) = "1"
digit (suc (suc zero)) = "2"
digit (suc (suc (suc zero))) = "3"
digit (suc (suc (suc (suc zero)))) = "4"
digit (suc (suc (suc (suc (suc zero))))) = "5"
digit (suc (suc (suc (suc (suc (suc zero)))))) = "6"
digit (suc (suc (suc (suc (suc (suc (suc zero))))))) = "7"
digit (suc (suc (suc (suc (suc (suc (suc (suc zero)))))))) = "8"
digit _ = "9"

emit : ℕ → ℕ → String → String
emit zero n s = s
emit (suc fuel) n s =
    let shown = digit (n % 10) ∷ s in
    let rest = emit fuel (n / 10) shown in if ltb n 10 then shown else rest

unfoldable pub itoa : ℕ → String
unfolding emit digit
itoa n = emit (suc n) n []

-- the digits of a text as a number, added to what was read so far
scan : String → ℕ → Option ℕ
scan [] n = some n
scan (c ∷ s) n =
    let rest = scan s (n * 10 + (code c - b'0')) in if is_digit (code c) then rest else none

-- a digit at least, and digits only
unsigned : String → Option ℕ
unfolding scan
unsigned [] = none
unsigned (c ∷ s) = scan (c ∷ s) 0

abbrev negate : ℕ → ℤ
negate zero = pos 0
negate (suc n) = negsuc n

-- an int64, or a range error
abbrev to_int64 : Bool → Option ℕ → Option ℤ
to_int64 negative none = none
to_int64 true (some n) = if leb n (2 ^ 63) then some (negate n) else none
to_int64 false (some n) = if leb n max_int64 then some (pos n) else none

unfoldable pub atoi : String → Option ℤ
unfolding unsigned
atoi [] = none
atoi (c ∷ s) =
    if nat_eq (code c) b'-'
    then to_int64 true (unsigned s)
    else if nat_eq (code c) b'+'
    then to_int64 false (unsigned s)
    else to_int64 false (unsigned (c ∷ s))

code-digit : (n : ℕ) → n < 10 → code (digit n) ≡ b'0' + n
unfolding digit
code-digit zero h = refl
code-digit (suc zero) h = refl
code-digit (suc (suc zero)) h = refl
code-digit (suc (suc (suc zero))) h = refl
code-digit (suc (suc (suc (suc zero)))) h = refl
code-digit (suc (suc (suc (suc (suc zero))))) h = refl
code-digit (suc (suc (suc (suc (suc (suc zero)))))) h = refl
code-digit (suc (suc (suc (suc (suc (suc (suc zero))))))) h = refl
code-digit (suc (suc (suc (suc (suc (suc (suc (suc zero)))))))) h = refl
code-digit (suc (suc (suc (suc (suc (suc (suc (suc (suc zero))))))))) h = refl
code-digit (suc (suc (suc (suc (suc (suc (suc (suc (suc (suc n)))))))))) h = absurd (omega arith)

scan-digit : (d n : ℕ) (s : String) → d < 10 → scan (digit d ∷ s) n ≡ scan s (n * 10 + d)
unfolding scan
scan-digit d n s h = ground (arith, code-digit d h)

scan-emit : (fuel n : ℕ) (s : String) → n < fuel → scan (emit fuel n s) 0 ≡ scan s n
unfolding emit
scan-emit zero n s h = absurd (omega arith)
scan-emit (suc fuel) n s h = ground (
  arith,
  scan-emit fuel (n / 10) (digit (n % 10) ∷ s),
  scan-digit (n % 10) 0 s,
  scan-digit (n % 10) (n / 10) s,
)

unsigned-scan : (s : String) (n : ℕ) → scan s 0 ≡ some (suc n) → unsigned s ≡ some (suc n)
unfolding unsigned
unsigned-scan [] n h = ground arith
unsigned-scan (c ∷ s) n h = h

-- A text of digits has no sign in front.
atoi-unsigned : (s : String) (n : ℕ) → unsigned s ≡ some n → n < 2 ^ 63 → atoi s ≡ some (pos n)
unfolding atoi
atoi-unsigned [] n h lt = ground arith
atoi-unsigned (c ∷ s) n h lt = ground arith

scan-nil : (n : ℕ) → scan [] n ≡ some n
unfolding scan
scan-nil n = refl

pub atoi-itoa : (n : ℕ) → n < 2 ^ 63 → atoi (itoa n) ≡ some (pos n)
unfolding itoa
atoi-itoa zero h = unfold atoi in refl
atoi-itoa (suc n) h =
    let read = scan-emit (suc (suc n)) (suc n) [] (omega arith) ∙ scan-nil (suc n) in
    atoi-unsigned _ (suc n) (unsigned-scan _ n read) h
