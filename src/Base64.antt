-- ===== src/Base64.antt =====
-- `base64.RawURLEncoding` (RFC 4648, section 5, without padding), with which authz/token/token.go
-- and signals/caep/caep.go write the two halves of a signed token. Bytes are numbers below 256.
pub mod Laws
use Prim.Native.Char.{Char, code}
use Prim.Native.String.{char_at}
use zta_core.Base.{
  ℕ, ◌+◌, ◌-◌, ◌*◌, ◌/◌, ◌%◌, ◌<◌, String, ◌&&◌, ◌||◌, Option, none, some, List, [], ◌∷◌, leb, eqb,
  if◌then◌else◌, All,
}
use mathlib.Core.Option

abbrev pub Bytes : Type 0
Bytes = List ℕ

abbrev pub IsBytes : Bytes → Type 0
IsBytes = All (λ b. b < 256)

pub digit_char : ℕ → Char
digit_char n = char_at "ABCDEFGHIJKLMNOPQRSTUVWXYZabcdefghijklmnopqrstuvwxyz0123456789-_" n

pub digit_value : Char → Option ℕ
digit_value c =
    let n = code c in
    if leb b'A' n && leb n b'Z'
    then some (n - b'A')
    else if leb b'a' n && leb n b'z'
    then some (n - b'a' + 26)
    else if leb b'0' n && leb n b'9'
    then some (n - b'0' + 52)
    else if eqb n b'-'
    then some 62
    else if eqb n b'_'
    then some 63
    else none

-- The six-bit digits of three bytes at a time.
pub sextets : Bytes → List ℕ
sextets [] = []
sextets (a ∷ []) = (a / 4) ∷ (a % 4 * 16) ∷ []
sextets (a ∷ b ∷ []) = (a / 4) ∷ (a % 4 * 16 + b / 16) ∷ (b % 16 * 4) ∷ []
sextets (a ∷ b ∷ c ∷ rest) =
    (a / 4) ∷ (a % 4 * 16 + b / 16) ∷ (b % 16 * 4 + c / 64) ∷ (c % 64) ∷ sextets rest

-- The bytes of four digits at a time. One digit left over is an error; bits left over are dropped.
pub octets : List ℕ → Option Bytes
octets [] = some []
octets (w ∷ []) = none
octets (w ∷ x ∷ []) = some ((w * 4 + x / 16) ∷ [])
octets (w ∷ x ∷ y ∷ []) = some ((w * 4 + x / 16) ∷ (x % 16 * 16 + y / 4) ∷ [])
octets (w ∷ x ∷ y ∷ z ∷ rest) =
    Option.map (λ bs. (w * 4 + x / 16) ∷ (x % 16 * 16 + y / 4) ∷ (y % 4 * 64 + z) ∷ bs)
      (octets rest)

pub text : List ℕ → String
unfolding digit_char
text [] = ""
text (n ∷ ns) = String.◌∷◌ (digit_char n) (text ns)

abbrev pub with_digit : Option ℕ → Option (List ℕ) → Option (List ℕ)
with_digit none rest = none
with_digit (some n) rest = Option.map (λ ns. n ∷ ns) rest

-- The decoder skips line ends and fails on any other character outside the alphabet.
pub digits : String → Option (List ℕ)
unfolding digit_value
digits String.[] = some []
digits (String.◌∷◌ c s) =
    let rest = digits s in
    if eqb (code c) 10 || eqb (code c) 13 then rest else with_digit (digit_value c) rest

-- `EncodeToString`
unfoldable pub encode : Bytes → String
unfolding text sextets
encode bs = text (sextets bs)

-- `DecodeString`
unfoldable pub decode : String → Option Bytes
unfolding digits octets
decode s = elim (digits s) [ none ↦ none | some ns ↦ octets ns ]
