-- ===== src/Http/Input.antt =====
-- What internal/httpapi/server.go uses of encoding/json and of fmt.Sscanf.
use Prim.Native.Char.{Char, code}
use Prim.Native.Nat.{◌*◌, ◌^◌}
use agentary.Prelude.{
  ℕ, ℤ, pos, negsuc, zero, suc, ◌+◌, ◌-◌, String, Option, none, some, Bool, ◌&&◌, leb, ltb, eqb,
  if◌then◌else◌, is_space,
}
use agentary.Http.{Json, nothing, text, number, other, Request}

-- A `string` field: null leaves it "".
abbrev pub text_field : Json → Option String
text_field nothing = some ""
text_field (text s) = some s
text_field (number n) = none
text_field other = none

-- A `*string` field.
abbrev pub optional_text : Json → Option (Option String)
optional_text nothing = some none
optional_text (text s) = some (some s)
optional_text (number n) = none
optional_text other = none

-- Does the number fit an int64?
unfoldable pub fits : ℤ → Bool
fits (pos n) = ltb n (2 ^ 63)
fits (negsuc n) = ltb n (2 ^ 63)

abbrev pub if_fits : ℤ → Option ℤ
if_fits n = if fits n then some n else none

-- An `int` or `int64` field.
unfoldable pub int_field : Json → Option ℤ
unfolding fits
int_field nothing = some (pos 0)
int_field (text s) = none
int_field (number n) = if_fits n
int_field other = none

-- Two fields of a struct.
abbrev pub both : {A B : Type 0} → Option A → Option B → Option (A × B)
both none y = none
both (some a) none = none
both (some a) (some b) = some (a, b)

-- Decode into a struct, of what its fields are made from.
abbrev pub decode : {A : Type 0} → Request → ((String → Json) → Option A) → Option A
decode req fields = elim req.body [ none ↦ none | some j ↦ fields j ]

abbrev pub is_digit : Char → Bool
is_digit c = leb 48 (code c) && leb (code c) 57

-- The number that the digits at the start of a text go on to, from `n`.
unfoldable pub digits_from : ℕ → String → ℕ
digits_from n String.[] = n
digits_from n (String.◌∷◌ c s) =
    let rest = digits_from (n * 10 + (code c - 48)) s in if is_digit c then rest else n

-- Digits, at least one.
unfoldable pub magnitude : String → Option ℕ
unfolding digits_from
magnitude String.[] = none
magnitude (String.◌∷◌ c s) = if is_digit c then some (digits_from (code c - 48) s) else none

abbrev pub negate : ℕ → ℤ
negate zero = pos 0
negate (suc n) = negsuc n

abbrev pub signed : (ℕ → ℤ) → Option ℕ → Option ℤ
signed sign none = none
signed sign (some n) = if_fits (sign n)

-- Sscanf(s, "%d"): a new line is no space, and what follows the digits is not read.
unfoldable pub scan_int : String → Option ℤ
unfolding fits magnitude
scan_int String.[] = none
scan_int (String.◌∷◌ c s) =
    let rest = scan_int s in
    if eqb (code c) 10
    then none
    else if is_space (code c)
    then rest
    else if eqb (code c) 45
    then signed negate (magnitude s)
    else if eqb (code c) 43
    then signed pos (magnitude s)
    else signed pos (magnitude (String.◌∷◌ c s))

abbrev pub at_most : ℕ → Option ℤ → ℤ
at_most most none = pos 0
at_most most (some (pos n)) = if ltb most n then pos most else pos n
at_most most (some (negsuc n)) = negsuc n

-- A limit with its maximum: 0 if it is missing; one below 0 stays.
unfoldable pub limit_of : ℕ → String → ℤ
unfolding scan_int
limit_of most s = at_most most (scan_int s)
