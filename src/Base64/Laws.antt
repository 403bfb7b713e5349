-- ===== src/Base64/Laws.antt =====
-- Decoding an encoding gives back the bytes, and an encoding has no dot in it.
use Prim.Native.Char.{code}
use zta_core.Base.{
  ℕ, zero, suc, ◌<◌, ◌≡◌, refl, Bool, true, false, not, ◌&&◌, Option, none, some, List, [], ◌∷◌,
  arith, eqb, All,
}
use zta_core.Base.Text.{dot, Lacks}
use zta_core.Base.Text.Trim.{is_space, HasNoSpace}
use zta_core.Base64.{
  Bytes, IsBytes, digit_char, digit_value, sextets, octets, text, digits, encode, decode,
}

-- A test that is run on every digit from 0 up to a bound.
module _ (test : ℕ → Bool) where
  passes : ℕ → Bool
  passes zero = true
  passes (suc bound) = passes bound && test bound

  passes-test : (bound d : ℕ) → d < bound → passes bound ≡ true → test d ≡ true
  unfolding passes
  passes-test zero d small h = absurd (omega arith)
  passes-test (suc bound) d small h = ground (arith, passes-test bound d)

abbrev holds : Option ℕ → ℕ → Bool
holds none n = false
holds (some m) n = eqb m n

abbrev good_digit : ℕ → Bool
good_digit n =
    holds (digit_value (digit_char n)) n
    && not (eqb (code (digit_char n)) dot)
    && not (eqb (code (digit_char n)) 10)
    && not (eqb (code (digit_char n)) 13)

digit_table : passes good_digit 64 ≡ true
unfolding passes digit_value digit_char
digit_table = refl

good_digit_lem : (n : ℕ) → n < 64 → good_digit n ≡ true
good_digit_lem n h = passes-test good_digit 64 n h digit_table

abbrev IsDigits : List ℕ → Type 0
IsDigits = All (λ n. n < 64)

sextets-IsDigits : (bs : Bytes) → IsBytes bs → IsDigits (sextets bs)
unfolding sextets
sextets-IsDigits [] _ = tt
sextets-IsDigits (a ∷ []) h = omega arith
sextets-IsDigits (a ∷ b ∷ []) h = omega arith
sextets-IsDigits (a ∷ b ∷ c ∷ rest) (ha, (hb, (hc, h))) =
    (omega arith, (omega arith, (omega arith, (omega arith, sextets-IsDigits rest h))))

octets-sextets : (bs : Bytes) → IsBytes bs → octets (sextets bs) ≡ some bs
unfolding sextets octets
octets-sextets [] _ = refl
octets-sextets (a ∷ []) h = ground arith
octets-sextets (a ∷ b ∷ []) h = ground arith
octets-sextets (a ∷ b ∷ c ∷ rest) (ha, (hb, (hc, h))) = rw (octets-sextets rest h) (ground arith)

digits-text : (ns : List ℕ) → IsDigits ns → digits (text ns) ≡ some ns
unfolding digits text
digits-text [] _ = refl
digits-text (n ∷ ns) (h, hs) = rw (digits-text ns hs) (ground (arith, good_digit_lem n h))

text-Lacks : (ns : List ℕ) → IsDigits ns → Lacks dot (text ns)
unfolding text
text-Lacks [] _ = tt
text-Lacks (n ∷ ns) (h, hs) = (ground (arith, good_digit_lem n h), text-Lacks ns hs)

-- Every list of bytes survives encoding and decoding.
pub decode-encode : (bs : Bytes) → IsBytes bs → decode (encode bs) ≡ some bs
unfolding decode encode
decode-encode bs h =
    rw (digits-text (sextets bs) (sextets-IsDigits bs h), decode) (octets-sextets bs h)

pub encode-Lacks : (bs : Bytes) → IsBytes bs → Lacks dot (encode bs)
unfolding encode
encode-Lacks bs h = text-Lacks (sextets bs) (sextets-IsDigits bs h)

space_table : passes (λ n. not (is_space (code (digit_char n)))) 64 ≡ true
unfolding passes digit_char
space_table = refl

text-HasNoSpace : (ns : List ℕ) → IsDigits ns → HasNoSpace (text ns)
unfolding text
text-HasNoSpace [] _ = tt
text-HasNoSpace (n ∷ ns) (h, hs) = (
  ground (arith, passes-test (λ (k : ℕ). not (is_space (code (digit_char k)))) 64 n h space_table),
  text-HasNoSpace ns hs,
)

pub encode-HasNoSpace : (bs : Bytes) → IsBytes bs → HasNoSpace (encode bs)
unfolding encode
encode-HasNoSpace bs h = text-HasNoSpace (sextets bs) (sextets-IsDigits bs h)
