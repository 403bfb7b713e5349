-- ===== src/Spiffe/Rotation.antt =====
-- identity/spiffe/source.go: the rotation of `RotatingSource`, its goroutine and its closer as steps in
-- any order. The source is not used before `RotatingSource` returns it; the lock makes each step one.
pub mod Invariant
use zta_core.Base.{ℕ, String, ◌≡◌, ◌≤◌, Bool, true, false, Option, none, ok, eqb, not}
use zta_core.Base.Int.{ℤ, pos, negsuc}
use zta_core.Spiffe.{Library, Ca, Svid, Entropy}
use zta_core.Spiffe.Source.{Source, remint, rotating_source}

-- Where the goroutine of `loop` is. `time.NewTicker` panics, and the process with it, on a period
-- that is not positive.
pub data Phase : Type 0 where
  starting : Phase
  ticking : Phase
  stopped : Phase
  panicked : Phase

-- `rotating`, with the state of its context and of its goroutine
pub record Rotating : Type 0 where
  pub svid : Option Svid
  pub cancelled : Bool
  pub phase : Phase

-- `GetX509SVID`
unfoldable pub get_x509_svid : Rotating → Option Svid
get_x509_svid r = r.svid

abbrev pub is_positive : ℤ → Bool
is_positive (pos n) = not (eqb n 0)
is_positive (negsuc n) = false

-- A case of the `select`: the ticker's, at a time.
unfoldable pub ticked : Library → Ca → String → ℕ → Entropy → Rotating → Rotating
ticked L ca spiffe_id now e r = record r { svid = (remint L ca spiffe_id now e r.svid).1 }

abbrev pub initial : Option Svid → Rotating
initial held = record { svid = held; cancelled = false; phase = starting }

module _ (L : Library) (ca : Ca) (spiffe_id : String) (every : ℤ) where
  pub data Step : ℕ → Rotating → Rotating → Type 0 where
    begin :
        {r : Rotating} (now : ℕ)
        → r.phase ≡ starting
        → is_positive every ≡ true
        → Step now r (record r { phase = ticking })
    ticker_panic :
        {r : Rotating} (now : ℕ)
        → r.phase ≡ starting
        → is_positive every ≡ false
        → Step now r (record r { phase = panicked })
    tick :
        {r : Rotating} (now : ℕ) (e : Entropy)
        → r.phase ≡ ticking
        → Step now r (ticked L ca spiffe_id now e r)
    close : {r : Rotating} (now : ℕ) → Step now r (record r { cancelled = true })
    leave :
        {r : Rotating} (now : ℕ)
        → r.phase ≡ ticking
        → r.cancelled ≡ true
        → Step now r (record r { phase = stopped })

  -- Steps from one time to a later one.
  pub data Runs : ℕ → Rotating → ℕ → Rotating → Type 0 where
    rest : {t : ℕ} {r : Rotating} → Runs t r t r
    and_then :
        {t₀ t now : ℕ} {r₀ r next : Rotating}
        → Runs t₀ r₀ t r
        → t ≤ now
        → Step now r next
        → Runs t₀ r₀ now next

  -- The states of a source that `RotatingSource` returned.
  pub data Reach : ℕ → Rotating → Type 0 where
    made :
        {held : Option Svid} {src : Source} (t₀ : ℕ) (e : Entropy) {t : ℕ} {r : Rotating}
        → rotating_source L ca spiffe_id t₀ e ≡ ok (src, held)
        → Runs t₀ (initial held) t r
        → Reach t r
