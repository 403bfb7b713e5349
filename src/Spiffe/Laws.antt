-- ===== src/Spiffe/Laws.antt =====
-- What the authority mints, from what crypto/x509 and go-spiffe document of a certificate.
use zta_core.Base.{
  ℕ, String, ◌≡◌, refl, sym, ap, subst, ◌∙◌, ◌+◌, ◌-◌, ◌*◌, ◌/◌, ◌≤◌, ◌<◌, inl, inr, true, false,
  [], ◌∷◌, ◌==◌, eq_iff, arith, ok, wrap, Bool-cases, >>=-elim, ok-injective, wrap-eq-ok,
}
use zta_core.Base64.{Bytes}
use zta_core.Spiffe.{
  SpiffeId, id_text, cert_sign_and_crl_sign, server_auth, client_auth, Certificate, Entropy,
  Library, Svid, Ca, second, minute, svid_ttl, ca_template, svid_template, new_ca, leaf_of, mint,
}

-- A certificate made from a template, as it is parsed again: X.509 keeps times to the second.
pub record Recorded (tmpl : Certificate) (key der : Bytes) (c : Certificate) : Type 0 where
  pub raw : c.raw ≡ der
  pub not_before : c.not_before ≡ tmpl.not_before / second * second
  pub not_after : c.not_after ≡ tmpl.not_after / second * second
  pub key_usage : c.key_usage ≡ tmpl.key_usage
  pub ext_key_usage : c.ext_key_usage ≡ tmpl.ext_key_usage
  pub is_ca : c.is_ca ≡ tmpl.is_ca
  pub uris : c.uris ≡ tmpl.uris
  pub public_key : c.public_key ≡ key

-- What the code relies on: an id prints as it was read, the text of an id that was read is a URL that
-- prints the same, a certificate keeps its template, and a signature by an authority's key verifies against it.
pub record IsX509 (L : Library) : Type 0 where
  pub text-read : (s : String) (id : SpiffeId) → L.id_from_string s ≡ ok id → id_text id ≡ s
  pub url-text :
      (id : SpiffeId) (u : String)
      → L.id_from_string (id_text id) ≡ ok id
      → L.url_parse (id_text id) ≡ ok u
      → u ≡ id_text id
  pub parse-create :
      (tmpl parent : Certificate) (key signer der : Bytes) (c : Certificate)
      → L.create_certificate tmpl parent key signer ≡ ok der
      → L.parse_certificate der ≡ ok c
      → Recorded tmpl key der c
  pub signed :
      (tmpl parent : Certificate) (key signer der : Bytes) (c : Certificate)
      → L.create_certificate tmpl parent key signer ≡ ok der
      → L.parse_certificate der ≡ ok c
      → parent.is_ca ≡ true
      → parent.key_usage ≡ cert_sign_and_crl_sign
      → parent.public_key ≡ L.public_of signer
      → L.check_signature_from c parent ≡ true

-- The SVID of an id, as the authority issues it at a time.
pub record Issued (L : Library) (ca : Ca) (now : ℕ) (s : String) (svid : Svid) : Type 0 where
  pub asked : L.id_from_string s ≡ ok svid.id
  pub named : id_text svid.id ≡ s
  pub member : svid.id.trust_domain ≡ ca.td
  pub leaf : Certificate
  pub chain : svid.certificates ≡ leaf ∷ []
  pub parsed : L.parse_certificate leaf.raw ≡ ok leaf
  pub uris : leaf.uris ≡ s ∷ []
  pub no_authority : leaf.is_ca ≡ false
  pub both_ends : leaf.ext_key_usage ≡ server_auth ∷ client_auth ∷ []
  pub key : leaf.public_key ≡ L.public_of svid.private_key
  pub already : leaf.not_before ≤ now - minute
  pub not_earlier : now < leaf.not_before + minute + second
  pub long_enough : now + svid_ttl < leaf.not_after + second
  pub not_longer : leaf.not_after ≤ now + svid_ttl
  pub chains : L.check_signature_from leaf ca.ca_cert ≡ true

-- An authority whose certificate is one, for its own key.
pub record IsAuthority (L : Library) (ca : Ca) : Type 0 where
  pub is_ca : ca.ca_cert.is_ca ≡ true
  pub key_usage : ca.ca_cert.key_usage ≡ cert_sign_and_crl_sign
  pub key : ca.ca_cert.public_key ≡ L.public_of ca.ca_key

whole_seconds : (n : ℕ) → (n < n / second * second + second) × (n / second * second ≤ n)
whole_seconds n = (omega arith, omega arith)

minute_back :
    (now : ℕ)
    → now - minute < (now - minute) / second * second + second
    → now < (now - minute) / second * second + minute + second
minute_back now h = omega arith

module _ (L : Library) (x509 : IsX509 L) where
  new_ca-IsAuthority :
      (now : ℕ) (e : Entropy) (trust_domain : String) (ca : Ca)
      → new_ca L now e trust_domain ≡ ok ca
      → IsAuthority L ca
  unfolding new_ca
  new_ca-IsAuthority now e trust_domain ca h₀ =
      >>=-elim (wrap "spiffe: trust domain" (L.trust_domain_from_string trust_domain)) _ h₀
        λ td h_td h₁. >>=-elim e.key _ h₁ λ key h_key h₂.
          let tmpl = ca_template trust_domain now e in
          >>=-elim (L.create_certificate tmpl tmpl (L.public_of key) key) _ h₂ λ der h_der h₃.
            >>=-elim (L.parse_certificate der) _ h₃ λ cert h_cert h.
              let r = x509.parse-create _ _ _ _ der cert h_der h_cert in
              subst (IsAuthority L) (ok-injective _ _ h)
                (record { is_ca = r.is_ca; key_usage = r.key_usage; key = r.public_key })

  leaf_of-Issued :
      (ca : Ca) (now : ℕ) (e : Entropy) (id : SpiffeId) (svid : Svid)
      → IsAuthority L ca
      → L.id_from_string (id_text id) ≡ ok id
      → id.trust_domain ≡ ca.td
      → leaf_of L ca now e id ≡ ok svid
      → Issued L ca now (id_text id) svid
  leaf_of-Issued ca now e id svid auth asked member h₀ =
      >>=-elim (L.url_parse (id_text id)) _ h₀ λ uri h_uri h₁. >>=-elim e.key _ h₁ λ key h_key h₂.
        let tmpl = svid_template uri now e in
        >>=-elim (L.create_certificate tmpl ca.ca_cert (L.public_of key) ca.ca_key) _ h₂
          λ der h_der h₃. >>=-elim (L.parse_certificate der) _ h₃ λ leaf h_leaf h.
            let r = x509.parse-create _ _ _ _ der leaf h_der h_leaf in
            let (long, short) = whole_seconds (now + svid_ttl) in
            let (early, late) = whole_seconds (now - minute) in
            subst (Issued L ca now (id_text id)) (ok-injective _ _ h) (record {
              asked = asked;
              named = refl;
              member = member;
              leaf = leaf;
              chain = refl;
              parsed = ap L.parse_certificate r.raw ∙ h_leaf;
              uris = r.uris ∙ ap (λ u. u ∷ []) (x509.url-text id uri asked h_uri);
              no_authority = r.is_ca;
              both_ends = r.ext_key_usage;
              key = r.public_key;
              already = subst (λ t. t ≤ now - minute) (sym r.not_before) late;
              not_earlier =
                  subst (λ t. now < t + minute + second) (sym r.not_before) (minute_back now early);
              long_enough = subst (λ t. now + svid_ttl < t + second) (sym r.not_after) long;
              not_longer = subst (λ t. t ≤ now + svid_ttl) (sym r.not_after) short;
              chains = x509.signed _ _ _ _ der leaf h_der h_leaf auth.is_ca auth.key_usage auth.key;
            })

  -- With a library of X.509 that does what it documents, whatever an authority mints is an SVID
  -- of the id that was asked for, of the authority's own trust domain, that chains to its
  -- certificate, for the key that comes with it, for both ends of a connection, and that is
  -- valid, to the second, from a minute before it was minted until 24 hours after.
  pub mint-Issued :
      (ca : Ca) (now : ℕ) (e : Entropy) (s : String) (svid : Svid)
      → IsAuthority L ca
      → mint L ca now e s ≡ ok svid
      → Issued L ca now s svid
  unfolding mint
  mint-Issued ca now e s svid auth h₀ =
      >>=-elim (wrap "spiffe: parse id" (L.id_from_string s)) _ h₀ λ id h_id h.
        let asked = wrap-eq-ok _ _ h_id in
        let named = x509.text-read s id asked in
        let again = subst (λ t. L.id_from_string t ≡ ok id) (sym named) asked in
        subst (λ t. Issued L ca now t svid) named
          (elim (Bool-cases (id.trust_domain == ca.td)) [
            | inl e_td ↦
                leaf_of-Issued ca now e id svid auth again ((eq_iff _ _).0 e_td) (rw e_td at h)
            | inr other ↦ absurd (ground (arith, h, other))
          ])
