-- ===== src/Spiffe/Rotation/Invariant.antt =====
-- What a rotating source serves, at any time of its life.
use zta_core.Base.{
  ℕ, String, ◌≡◌, refl, ap, subst, ◌+◌, ◌≤◌, inl, inr, Option, none, some, [], ◌∷◌, arith, Error,
  ok, err, Result-cases, ok-injective,
}
use zta_core.Base.Int.{ℤ}
use zta_core.Spiffe.{Certificate, Entropy, Library, Svid, Ca, second, svid_ttl, mint}
use zta_core.Spiffe.Laws.{IsX509, Issued, IsAuthority, mint-Issued}
use zta_core.Spiffe.Source.{Source, remint, rotating_source, source_from}
use zta_core.Spiffe.Rotation.{
  Rotating, get_x509_svid, ticked, Step, begin, ticker_panic, tick, close, leave, Runs, rest,
  and_then, Reach, made,
}

module _ (L : Library) (x509 : IsX509 L) (ca : Ca) (auth : IsAuthority L ca)
    (spiffe_id : String) where
  -- An SVID of the id, issued no earlier than one time and no later than another.
  abbrev pub Held : ℕ → ℕ → Option Svid → Type 0
  Held since now held =
      (m : ℕ) × (svid : Svid) × (since ≤ m)
      × (m ≤ now)
      × (held ≡ some svid)
      × Issued L ca m spiffe_id svid

  minted-Held :
      (now : ℕ) (e : Entropy) (svid : Svid) (held : Option Svid)
      → mint L ca now e spiffe_id ≡ ok svid
      → Held now now (remint L ca spiffe_id now e held).1
  unfolding remint
  minted-Held now e svid held h =
      rw h (
        now,
        svid,
        omega arith,
        omega arith,
        refl,
        mint-Issued L x509 ca now e spiffe_id svid auth h,
      )

  Held-since :
      (since now : ℕ) (held : Option Svid) → since ≤ now → Held now now held → Held since now held
  Held-since since now held late (m, svid, from, to, is, issued) =
      (m, svid, omega arith, to, is, issued)

  reminted-Held :
      (since now : ℕ) (e : Entropy) (held : Option Svid)
      → since ≤ now
      → Held since now held
      → Held since now (remint L ca spiffe_id now e held).1
  unfolding remint
  reminted-Held since now e held late old = elim (Result-cases (mint L ca now e spiffe_id)) [
    | inl (svid, h) ↦ Held-since since now _ late (minted-Held now e svid held h)
    | inr (x, h) ↦ rw h old
  ]

  source_from-eq-ok :
      (out : Option Error × Option Svid) (src : Source) (held : Option Svid)
      → source_from L ca out ≡ ok (src, held)
      → out.1 ≡ held
  source_from-eq-ok (some e, old) src held h = absurd (cc)
  source_from-eq-ok (none, old) src held h =
      ap (λ (x : Source × Option Svid). x.1) (ok-injective _ _ h)

  unminted :
      (now : ℕ) (e : Entropy) (x : Error)
      → mint L ca now e spiffe_id ≡ err x
      → rotating_source L ca spiffe_id now e ≡ err x
  unfolding rotating_source remint
  unminted now e x h = rw h refl

  made-Held :
      (now : ℕ) (e : Entropy) (src : Source) (held : Option Svid)
      → rotating_source L ca spiffe_id now e ≡ ok (src, held)
      → Held now now held
  unfolding rotating_source
  made-Held now e src held h = elim (Result-cases (mint L ca now e spiffe_id)) [
    | inl (svid, minted) ↦
        subst (Held now now) (source_from-eq-ok (remint L ca spiffe_id now e none) src held h)
          (minted-Held now e svid none minted)
    | inr (x, failed) ↦ let refused = unminted now e x failed in absurd (cc)
  ]

  Held-until :
      (since now later : ℕ) (held : Option Svid)
      → now ≤ later
      → Held since now held
      → Held since later held
  Held-until since now later held late (m, svid, from, to, is, issued) =
      (m, svid, from, omega arith, is, issued)

  module _ (every : ℤ) where
    Step-Held :
        {since now : ℕ} {r next : Rotating}
        → since ≤ now
        → Step L ca spiffe_id every now r next
        → Held since now r.svid
        → Held since now next.svid
    unfolding ticked
    Step-Held late (begin now at positive) old = old
    Step-Held late (ticker_panic now at bad) old = old
    Step-Held {since} late (tick {r} now e at) old = reminted-Held since now e r.svid late old
    Step-Held late (close now) old = old
    Step-Held late (leave now at off) old = old

    Runs-le : {t₀ t : ℕ} {r₀ r : Rotating} → Runs L ca spiffe_id every t₀ r₀ t r → t₀ ≤ t
    Runs-le rest = omega arith
    Runs-le (and_then runs late step) = omega (arith, Runs-le runs)

    Runs-Held :
        {t₀ t : ℕ} {r₀ r : Rotating}
        → Runs L ca spiffe_id every t₀ r₀ t r
        → Held t₀ t₀ r₀.svid
        → Held t₀ t r.svid
    Runs-Held rest old = old
    Runs-Held (and_then {t₀} {t} {now} {r₀} {r} {next} runs late step) old =
        Step-Held (omega (arith, Runs-le runs)) step
          (Held-until t₀ t now r.svid late (Runs-Held runs old))

    -- From the moment that `RotatingSource` returns, whatever ticks fail and whether or not it is
    -- closed, the source has an SVID: one that the authority issued for the id asked for.
    pub Reach-Held :
        (now : ℕ) (r : Rotating)
        → Reach L ca spiffe_id every now r
        → (m : ℕ) × (svid : Svid) × (m ≤ now)
          × (get_x509_svid r ≡ some svid)
          × Issued L ca m spiffe_id svid
    unfolding get_x509_svid
    Reach-Held now r (made {held} {src} t₀ e h runs) =
        let (m, svid, from, to, is, issued) = Runs-Held runs (made-Held t₀ e src held h) in
        (m, svid, to, is, issued)

    -- After a tick whose minting succeeds, at every moment of the 24 hours less a second that follow,
    -- the source's SVID is one of its id with a leaf whose validity has begun and has not ended,
    -- whatever happens in between: ticks that fail, other ticks, a close.
    pub tick-valid :
        (m t : ℕ) (e : Entropy) (minted : Svid) (before after : Rotating)
        → mint L ca m e spiffe_id ≡ ok minted
        → Runs L ca spiffe_id every m (ticked L ca spiffe_id m e before) t after
        → t + second ≤ m + svid_ttl
        → (svid : Svid) × (leaf : Certificate) × (get_x509_svid after ≡ some svid)
          × (svid.certificates ≡ leaf ∷ [])
          × (leaf.uris ≡ spiffe_id ∷ [])
          × (leaf.not_before ≤ t)
          × (t ≤ leaf.not_after)
    unfolding get_x509_svid ticked remint
    tick-valid m t e minted before after h runs soon =
        let (at, svid, from, to, is, v) = Runs-Held runs (minted-Held m e minted before.svid h) in
        let long = v.long_enough in
        let early = v.already in
        (svid, v.leaf, is, v.chain, v.uris, omega (arith, early, to), omega (arith, long))
