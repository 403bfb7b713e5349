-- ===== src/Authzen/Validate/Names.antt =====
-- The naming rule `<domain>:<name>`, described without the regular expression.
use Prim.Native.Char.{Char, code}
use zta_core.Base.{
  ℕ, ◌≤◌, String, ◌≡◌, refl, ap, ◌∙◌, ◌↔◌, ◌⊎◌, inl, inr, true, some, [], ◌∷◌, arith,
}
use zta_core.Base.Text.{colon, cut, split, Lacks}
use zta_core.Base.Text.Laws.{
  join, cut-join, split-join, split-eq-single, split_nonempty, Lacks-or-join,
}
use zta_core.Authzen.Validate.{name_chars, name_token, both_tokens, is_colon_pair, domain_of}

abbrev pub colon_char : Char
colon_char = ":"

abbrev IsLower : ℕ → Type 0
IsLower c = (b'a' ≤ c) × (c ≤ b'z')

abbrev IsNameChar : ℕ → Type 0
IsNameChar c = IsLower c ⊎ (((b'0' ≤ c) × (c ≤ b'9')) ⊎ ((c ≡ b'_') ⊎ (c ≡ b'-')))

abbrev pub AreNameChars : String → Type 0
AreNameChars String.[] = Unit
AreNameChars (String.◌∷◌ c s) = IsNameChar (code c) × AreNameChars s

-- A lowercase letter, then lowercase letters, digits, underscores and hyphens.
abbrev pub IsToken : String → Type 0
IsToken String.[] = ⊥
IsToken (String.◌∷◌ c s) = IsLower (code c) × AreNameChars s

name_chars_iff : (s : String) → (name_chars s ≡ true) ↔ AreNameChars s
unfolding name_chars
name_chars_iff String.[] = (λ _. tt, λ _. refl)
name_chars_iff (String.◌∷◌ c s) = ground (arith, name_chars_iff s)

pub name_token_iff : (s : String) → (name_token s ≡ true) ↔ IsToken s
unfolding name_token
name_token_iff String.[] = ground arith
name_token_iff (String.◌∷◌ c s) = ground (arith, name_chars_iff s)

AreNameChars-Lacks : (s : String) → AreNameChars s → Lacks colon s
AreNameChars-Lacks String.[] _ = tt
AreNameChars-Lacks (String.◌∷◌ c s) (h, hs) = (ground arith, AreNameChars-Lacks s hs)

pub IsToken-Lacks : (s : String) → IsToken s → Lacks colon s
IsToken-Lacks String.[] h = elim h [ ]
IsToken-Lacks (String.◌∷◌ c s) (h, hs) = (ground arith, AreNameChars-Lacks s hs)

-- Two tokens with a colon between them.
abbrev pub IsPair : String → Type 0
IsPair s = (d : String) × (n : String) × IsToken d × IsToken n × (s ≡ join colon_char d n)

split-pair : (d n : String) → IsToken d → IsToken n → split colon (join colon_char d n) ≡ d ∷ n ∷ []
split-pair d n hd hn =
    split-join colon_char d n (IsToken-Lacks d hd)
    ∙ ap (λ parts. d ∷ parts) (split-eq-single colon_char n (IsToken-Lacks n hn))

-- A split in two tokens at the first colon needs a second part without a colon.
pair_of_parts :
    (d b : String)
    → both_tokens (d ∷ split colon b) ≡ true
    → Lacks colon b ⊎ ((n : String) × (c : String) × (b ≡ join colon_char n c) × Lacks colon n)
    → IsToken d × IsToken b
pair_of_parts d b h (inl lacks) =
    ground (arith, split-eq-single colon_char b lacks, name_token_iff d, name_token_iff b)
pair_of_parts d b h (inr (n, c, e, lacks)) =
    let (x, xs, more) = split_nonempty colon_char c in
    let cutting : split colon b ≡ n ∷ x ∷ xs =
      ap (split colon) e ∙ split-join colon_char n c lacks ∙ ap (λ parts. n ∷ parts) more in
    absurd (ground (arith, ap (λ parts. both_tokens (d ∷ parts)) cutting))

IsPair-of_split : (s : String) → both_tokens (split colon s) ≡ true → IsPair s
IsPair-of_split s h = elim (Lacks-or-join colon_char s) [
  | inl lacks ↦ absurd (ground (arith, split-eq-single colon_char s lacks))
  | inr (d, b, e, lacks) ↦
      let cutting : split colon s ≡ d ∷ split colon b =
        ap (split colon) e ∙ split-join colon_char d b lacks in
      let tokens : IsToken d × IsToken b =
        pair_of_parts d b (rw cutting at h) (Lacks-or-join colon_char b) in
      (d, b, tokens.0, tokens.1, e)
]

-- `isColonPair` accepts exactly the texts made of two tokens with one colon between them.
pub is_colon_pair_iff : (s : String) → (is_colon_pair s ≡ true) ↔ IsPair s
unfolding is_colon_pair
is_colon_pair_iff s = (
  IsPair-of_split s,
  λ (d, n, hd, hn, e).
      ap both_tokens (ap (split colon) e ∙ split-pair d n hd hn)
      ∙ ground (arith, name_token_iff d, name_token_iff n),
)

-- `domainOf` of such a text is what stands before the colon.
pub domain_of-pair :
    (s d n : String) → IsToken d → IsToken n → s ≡ join colon_char d n → domain_of s ≡ some d
unfolding domain_of
domain_of-pair s d n hd hn e =
    let paired : is_colon_pair s ≡ true = (is_colon_pair_iff s).1 (d, n, hd, hn, e) in
    let found : cut colon s ≡ some (d, n) =
      ap (cut colon) e ∙ cut-join colon_char d n (IsToken-Lacks d hd) in
    rw (paired, found) refl
