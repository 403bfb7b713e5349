-- ===== src/Caep/Command.antt =====
-- cmd/caepemit/main.go: the administrator's command that pushes an event, from its flags to its exit
-- status. The HTTP client is a parameter of the TLS configuration that it presents.
use zta_core.Base.{
  ℕ, String, ◌≡◌, ◌≢◌, refl, sym, subst, ◌∙◌, ◌↔◌, inl, inr, Bool, true, false, ◌||◌, Option, none,
  some, List, [], ◌∷◌, ◌==◌, eq_iff, arith, if◌then◌else◌, Error, Result, ok, err, All, Bool-cases,
  Result-cases, ok-injective,
}
use zta_core.Signed.{Hash, Codec}
use zta_core.Caep.Cache.{Event}
use zta_core.Caep.Tokens.{Signer, sign}
use zta_core.Caep.Transmitter.{Delivery, answered, Posts, emit}
use zta_core.Caep.Transmitter.Laws.{emit-eq-none_iff}
use zta_core.Services.Tls.{World, load_tls}
use zta_core.Spiffe.{client, TlsConfig}

-- The flags, after parsing; the default of `-secret` is the environment's CAEP_SECRET.
pub record Flags : Type 0 where
  pub secret : String
  pub subject : String
  pub kind : String
  pub receivers : List String

abbrev pub no_receiver : List String → Bool
no_receiver [] = true
no_receiver (url ∷ urls) = false

abbrev pub is_incomplete : Flags → Bool
is_incomplete f = f.secret == "" || (f.subject == "" || no_receiver f.receivers)

abbrev pub status : Option Error → ℕ
status none = 0
status (some e) = 1

named_iff : (s : String) → ((s == "") ≡ false) ↔ (s ≢ "")
named_iff s = ground (arith, eq_iff s "")

receivers_iff : (urls : List String) → (no_receiver urls ≡ false) ↔ (urls ≢ [])
receivers_iff [] = (λ h. absurd (cc), λ h. absurd (h refl))
receivers_iff (url ∷ urls) = (λ h e. (cc), λ h. refl)

all_false : (a b c : Bool) → (a || (b || c)) ≡ false → (a ≡ false) × (b ≡ false) × (c ≡ false)
all_false a b c h = ground arith

module _ (W : World) (post : Option TlsConfig → String → String → Delivery) (H : Hash)
    (C : Codec Event) where
  abbrev pub pushed : Flags → ℕ → Result (Option TlsConfig) → ℕ × Posts
  pushed f now (err e) = (1, [])
  pushed f now (ok tls) =
      let (failed, posts) =
        emit (post tls) H C (record { secret = f.secret }) f.receivers now
          (record { kind = f.kind; subject = f.subject; issued_at = 0 }) in
      (status failed, posts)

  -- `main`: the exit status, and what was posted
  unfoldable pub main : Flags → ℕ → ℕ × Posts
  main f now = if is_incomplete f then (2, []) else pushed f now (load_tls W client)

  -- Nobody, and nothing, is left out.
  pub record Complete (f : Flags) (now : ℕ) : Type 0 where
    pub secret : f.secret ≢ ""
    pub subject : f.subject ≢ ""
    pub receivers : f.receivers ≢ []
    pub tls : Option TlsConfig
    pub loaded : load_tls W client ≡ ok tls
    pub set : String
    pub signed :
        sign H C
          (record { secret = f.secret })
          now
          (record { kind = f.kind; subject = f.subject; issued_at = 0 })
        ≡ ok set
    pub accepted : All (λ url. post tls url set ≡ answered 202) f.receivers

  status-zero_iff : (o : Option Error) → (status o ≡ 0) ↔ (o ≡ none)
  status-zero_iff none = (λ h. refl, λ h. refl)
  status-zero_iff (some e) = (λ h. absurd (omega (arith, h)), λ h. absurd (cc))

  Complete-is_incomplete : (f : Flags) (now : ℕ) → Complete f now → is_incomplete f ≡ false
  Complete-is_incomplete f now v =
      rw
        (
          (named_iff f.secret).1 v.secret,
          (named_iff f.subject).1 v.subject,
          (receivers_iff f.receivers).1 v.receivers,
        )
        refl

  pushed-zero_iff :
      (f : Flags) (now : ℕ)
      → is_incomplete f ≡ false
      → ((pushed f now (load_tls W client)).0 ≡ 0) ↔ Complete f now
  pushed-zero_iff f now given = elim (Result-cases (load_tls W client)) [
    | inr (e, failed) ↦ (
      λ h. absurd (omega (arith, rw failed at h)),
      λ v. absurd (not_both e v.tls (sym failed ∙ v.loaded)),
    )
    | inl (tls, loaded) ↦
        let event : Event = record { kind = f.kind; subject = f.subject; issued_at = 0 } in
        let signer : Signer = record { secret = f.secret } in
        let sent = (emit (post tls) H C signer f.receivers now event).0 in
        let delivered = emit-eq-none_iff (post tls) H C signer f.receivers now event in
        let (secret, subject, receivers) =
          all_false (f.secret == "") (f.subject == "") (no_receiver f.receivers) given in
        (
          λ h.
              let (set, signed, all) = delivered.0 ((status-zero_iff sent).0 (rw loaded at h)) in
              record {
                secret = (named_iff f.secret).0 secret;
                subject = (named_iff f.subject).0 subject;
                receivers = (receivers_iff f.receivers).0 receivers;
                tls = tls;
                loaded = loaded;
                set = set;
                signed = signed;
                accepted = all;
              },
          λ v.
              let same : v.tls ≡ tls = ok-injective _ _ (sym v.loaded ∙ loaded) in
              rw loaded (
                (status-zero_iff sent).1 (
                  delivered.1 (
                    v.set,
                    v.signed,
                    subst (λ t. All (λ url. post t url v.set ≡ answered 202) f.receivers) same
                        v.accepted,
                  ))),
        )
  ]
    where
      not_both :
          (e : Error) (t : Option TlsConfig) → ◌≢◌ {A = Result (Option TlsConfig)} (err e) (ok t)
      not_both e t x = cc

  -- The command exits with 0 exactly when its flags are complete, the mTLS material that is configured
  -- loads, the event is signed, and every receiver answers 202.
  pub main-zero_iff : (f : Flags) (now : ℕ) → ((main f now).0 ≡ 0) ↔ Complete f now
  unfolding main
  main-zero_iff f now = elim (Bool-cases (is_incomplete f)) [
    | inl missing ↦ (
      λ h. absurd (omega (arith, rw missing at h)),
      λ v. absurd (not_true (sym missing ∙ Complete-is_incomplete f now v)),
    )
    | inr given ↦ rw given (pushed-zero_iff f now given)
  ]
    where
      not_true : true ≡ false → ⊥
      not_true x = cc
