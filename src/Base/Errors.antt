-- ===== src/Base/Errors.antt =====
-- Go's `error` values and `(T, error)` results. An error is a text, a validation error with its
-- issues, or an error wrapped by `fmt.Errorf("…: %w", err)`; which of them carries a validation
-- error is what `errors.As` finds.
use Prim.Native.String.{String}
use mathlib.Core.Path.{◌≡◌, refl, ap, ◌∙◌}
use mathlib.Core.Logic.{◌⊎◌, inl, inr}
use mathlib.Core.Option.{Option, none, some}
use mathlib.Core.List.{List}
use native.Mathlib.Omega.{arith}

pub data Error : Type 0 where
  message : String → Error
  invalid : List String → Error
  wrapped : String → Error → Error

-- `var ve *authzen.ValidationError; errors.As(err, &ve)`
abbrev pub as_validation : Error → Option (List String)
as_validation (message text) = none
as_validation (invalid issues) = some issues
as_validation (wrapped text e) = as_validation e

pub data Result {ℓ} (A : Type ℓ) : Type ℓ where
  ok : A → Result A
  err : Error → Result A

infixl 5 ◌>>=◌
abbrev pub ◌>>=◌ {ℓ κ} : {A : Type ℓ} {B : Type κ} (m : Result A) (next : A → Result B) → Result B
err e >>= next = err e
ok a >>= next = next a

-- `if err != nil { return …, fmt.Errorf("text: %w", err) }`
abbrev pub wrap {ℓ} : {A : Type ℓ} → String → Result A → Result A
wrap text (ok a) = ok a
wrap text (err e) = err (wrapped text e)

-- `if err != nil { return …, fmt.Errorf("text: %w", err) }` where the error itself is not modelled.
abbrev pub or_message {ℓ} : {A : Type ℓ} → String → Option A → Result A
or_message text none = err (message text)
or_message text (some a) = ok a

pub Result-cases {ℓ} :
    {A : Type ℓ} (r : Result A) → ((a : A) × (r ≡ ok a)) ⊎ ((e : Error) × (r ≡ err e))
Result-cases (ok a) = inl (a, refl)
Result-cases (err e) = inr (e, refl)

-- Inversion of a step that succeeded.
pub >>=-eq-ok {ℓ κ} :
    {A : Type ℓ} {B : Type κ} (first : Result A) (next : A → Result B) {out : B}
    → (first >>= next) ≡ ok out
    → (mid : A) × (first ≡ ok mid) × (next mid ≡ ok out)
>>=-eq-ok (err e) next h = cc
>>=-eq-ok (ok mid) next h = (mid, refl, h)

-- The same, with what succeeded handed on.
pub >>=-elim {ℓ κ μ} :
    {A : Type ℓ} {B : Type κ} {P : Type μ} (first : Result A) (next : A → Result B) {out : B}
    → (first >>= next) ≡ ok out
    → ((mid : A) → first ≡ ok mid → next mid ≡ ok out → P)
    → P
>>=-elim (err e) next h use_them = absurd (cc)
>>=-elim (ok mid) next h use_them = use_them mid refl h

-- A step that succeeds, before steps that succeed.
pub >>=-eq-ok_of {ℓ κ} :
    {A : Type ℓ} {B : Type κ} (first : Result A) (next : A → Result B) {a : A}
    → first ≡ ok a
    → (b : B) × (next a ≡ ok b)
    → (b : B) × ((first >>= next) ≡ ok b)
>>=-eq-ok_of first next h (b, k) = (b, ap (λ r. r >>= next) h ∙ k)

pub ok-injective {ℓ} : {A : Type ℓ} (a b : A) → ok a ≡ ok b → a ≡ b
ok-injective {A} a b h = ap (value a) h
  where
    value : A → Result A → A
    value fallback (ok x) = x
    value fallback (err e) = fallback

pub wrap-eq-ok {ℓ} :
    {A : Type ℓ} (text : String) (m : Result A) {a : A} → wrap text m ≡ ok a → m ≡ ok a
wrap-eq-ok text (ok a) h = h
wrap-eq-ok text (err e) h = cc

-- Inversion of a step that failed: here, or later.
pub >>=-eq-err {ℓ κ} :
    {A : Type ℓ} {B : Type κ} (m : Result A) (f : A → Result B) {e : Error}
    → (m >>= f) ≡ err e
    → (m ≡ err e) ⊎ ((a : A) × (m ≡ ok a) × (f a ≡ err e))
>>=-eq-err (ok a) f h = inr (a, refl, h)
>>=-eq-err (err x) f h = inl cc

pub wrap-as_validation {ℓ} :
    {A : Type ℓ} (text : String) (m : Result A) {e : Error}
    → ((x : Error) → m ≡ err x → as_validation x ≡ none)
    → wrap text m ≡ err e
    → as_validation e ≡ none
wrap-as_validation text (ok a) plain h = cc
wrap-as_validation text (err x) plain h = ground (arith, plain x refl)

pub or_message-eq-ok {ℓ} :
    {A : Type ℓ} (text : String) (m : Option A) {a : A} → or_message text m ≡ ok a → m ≡ some a
or_message-eq-ok text none h = cc
or_message-eq-ok text (some b) h = cc

pub or_message-as_validation {ℓ} :
    {A : Type ℓ} (text : String) (m : Option A) {e : Error}
    → or_message text m ≡ err e
    → as_validation e ≡ none
or_message-as_validation text none h = ground arith
or_message-as_validation text (some a) h = cc
