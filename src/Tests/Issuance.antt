-- ===== src/Tests/Issuance.antt =====
-- A stand-in for crypto/x509 and go-spiffe that makes one certificate, for one id and one key.
use zta_core.Base.{
  String, Bool, true, false, not, ◌&&◌, ◌==◌, ◌*◌, ◌/◌, ◌≡◌, ◌≢◌, refl, sym, ap, subst, ◌∙◌, inl,
  inr, none, some, List, [], ◌∷◌, arith, eq_iff, eq_refl, eqb, eqb_iff, if◌then◌else◌, message, ok,
  err, Bool-cases, ok-injective,
}
use zta_core.Base64.{Bytes}
use zta_core.Spiffe.{
  SpiffeId, id_text, KeyUsage, cert_sign_and_crl_sign, digital_signature, ExtKeyUsage, server_auth,
  client_auth, Certificate, Entropy, Library, Svid, Ca, second,
}
use zta_core.Spiffe.Laws.{Recorded, IsX509, IsAuthority}
use zta_core.Spiffe.Files.{Files, Encodings, IsLoadable, IsPem}

abbrev work_id : SpiffeId
work_id = record { trust_domain = "t"; path = "/w" }

abbrev pub work : String
work = "spiffe://t/w"

abbrev pub leaf : Certificate
leaf = record {
  raw = 86500 ∷ [];
  serial_number = none;
  common_name = "";
  not_before = 40000000000;
  not_after = 86500000000000;
  key_usage = digital_signature;
  ext_key_usage = server_auth ∷ client_auth ∷ [];
  is_ca = false;
  uris = work ∷ [];
  public_key = 5 ∷ [];
}

abbrev is_digital : KeyUsage → Bool
is_digital digital_signature = true
is_digital cert_sign_and_crl_sign = false

is_digital-eq : (k : KeyUsage) → is_digital k ≡ true → digital_signature ≡ k
is_digital-eq digital_signature h = refl
is_digital-eq cert_sign_and_crl_sign h = absurd (cc)

abbrev is_both : List ExtKeyUsage → Bool
is_both [] = false
is_both (client_auth ∷ l) = false
is_both (server_auth ∷ []) = false
is_both (server_auth ∷ server_auth ∷ l) = false
is_both (server_auth ∷ client_auth ∷ []) = true
is_both (server_auth ∷ client_auth ∷ x ∷ l) = false

is_both-eq : (l : List ExtKeyUsage) → is_both l ≡ true → (server_auth ∷ client_auth ∷ []) ≡ l
is_both-eq [] h = absurd (cc)
is_both-eq (client_auth ∷ l) h = absurd (cc)
is_both-eq (server_auth ∷ []) h = absurd (cc)
is_both-eq (server_auth ∷ server_auth ∷ l) h = absurd (cc)
is_both-eq (server_auth ∷ client_auth ∷ []) h = refl
is_both-eq (server_auth ∷ client_auth ∷ x ∷ l) h = absurd (cc)

abbrev is_work : List String → Bool
is_work [] = false
is_work (u ∷ []) = u == work
is_work (u ∷ v ∷ l) = false

is_work-eq : (l : List String) → is_work l ≡ true → (work ∷ []) ≡ l
is_work-eq [] h = absurd (cc)
is_work-eq (u ∷ []) h = ap (λ t. t ∷ []) (sym ((eq_iff _ _).0 h))
is_work-eq (u ∷ v ∷ l) h = absurd (cc)

abbrev is_five : Bytes → Bool
is_five [] = false
is_five (b ∷ []) = eqb b 5
is_five (b ∷ c ∷ l) = false

is_five-eq : (l : Bytes) → is_five l ≡ true → (5 ∷ []) ≡ l
is_five-eq [] h = absurd (cc)
is_five-eq (b ∷ []) h = ap (λ n. n ∷ []) (sym ((eqb_iff b 5).0 h))
is_five-eq (b ∷ c ∷ l) h = absurd (cc)

abbrev is_leaf : Certificate → Bytes → Bool
is_leaf t key =
    eqb (t.not_before / second * second) 40000000000
    && (eqb (t.not_after / second * second) 86500000000000
        && (is_digital t.key_usage
            && (is_both t.ext_key_usage && (not t.is_ca && (is_work t.uris && is_five key)))))

both_true : (a b : Bool) → (a && b) ≡ true → (a ≡ true) × (b ≡ true)
both_true a b h = ground arith

not-eq-true : (b : Bool) → not b ≡ true → false ≡ b
not-eq-true false h = refl
not-eq-true true h = absurd (cc)

is_leaf-Recorded :
    (t : Certificate) (key : Bytes) → is_leaf t key ≡ true → Recorded t key (86500 ∷ []) leaf
is_leaf-Recorded t key h₀ =
    let (begun, h) = both_true _ _ h₀ in
    let (time, h₁) = both_true _ _ h in
    let (usage, h₂) = both_true _ _ h₁ in
    let (both, h₃) = both_true _ _ h₂ in
    let (ca, h₄) = both_true (not t.is_ca) (is_work t.uris && is_five key) h₃ in
    let (uris, five) = both_true _ _ h₄ in
    record {
      raw = refl;
      not_before = sym ((eqb_iff _ _).0 begun);
      not_after = sym ((eqb_iff _ _).0 time);
      key_usage = is_digital-eq t.key_usage usage;
      ext_key_usage = is_both-eq t.ext_key_usage both;
      is_ca = not-eq-true t.is_ca ca;
      uris = is_work-eq t.uris uris;
      public_key = is_five-eq key five;
    }

abbrev pub toy_library : Library
toy_library = record {
  trust_domain_from_string = λ s. ok s;
  id_from_string = λ s. if s == work then ok work_id else err (message "id");
  url_parse = λ s. ok s;
  public_of = λ key. key;
  create_certificate =
      λ t parent key signer. if is_leaf t key then ok (86500 ∷ []) else err (message "create");
  parse_certificate = λ der. ok leaf;
  check_signature_from = λ c parent. true;
}

pub toy_library-id :
    (s : String) (id : SpiffeId)
    → toy_library.id_from_string s ≡ ok id
    → (s ≡ work) × (work_id ≡ id)
toy_library-id s id h = elim (Bool-cases (s == work)) [
  | inl e ↦ ((eq_iff _ _).0 e, ok-injective _ _ (rw e at h))
  | inr e ↦ absurd (ground (arith, h, e))
]

pub toy_library-IsX509 : IsX509 toy_library
toy_library-IsX509 = record {
  text-read = λ s id h. let (is, same) = toy_library-id s id h in sym (ap id_text same) ∙ sym is;
  url-text = λ id u asked h. sym (ok-injective _ _ h);
  parse-create = λ t parent key signer der c made parsed. elim (Bool-cases (is_leaf t key)) [
    | inl e ↦
        subst (λ d. Recorded t key d c) (ok-injective _ _ (rw e at made))
          (subst (Recorded t key (86500 ∷ [])) (ok-injective _ _ parsed) (is_leaf-Recorded t key e))
    | inr e ↦ absurd (ground (arith, made, e))
  ];
  signed = λ t parent key signer der c made parsed is_ca usage same. refl;
}

abbrev pub authority : Ca
authority = record {
  td = "t";
  ca_cert = record leaf {
    key_usage = cert_sign_and_crl_sign;
    ext_key_usage = [];
    is_ca = true;
    uris = [];
    public_key = 3 ∷ [];
  };
  ca_key = 3 ∷ [];
}

pub authority-IsAuthority : IsAuthority toy_library authority
authority-IsAuthority = record { is_ca = refl; key_usage = refl; key = refl }

abbrev pub dice : Entropy
dice = record { key = ok (5 ∷ []); int_below = λ n. some 1 }

abbrev pub worker : Svid
worker = record { id = work_id; certificates = leaf ∷ []; private_key = 5 ∷ [] }

abbrev pub no_files : Files
no_files q = none

abbrev pub toy_encodings : Encodings
toy_encodings = record {
  write_file = λ path mode text files. ok (λ q. if q == path then some text else files q);
  pem_certificate = λ raw. "cert";
  pem_private_key = λ raw. "key";
  marshal_pkcs8 = λ key. ok key;
  marshal_bundle = λ b. ok "roots";
  parse_svid = λ cert key. if cert == "cert" then ok worker else err (message "pem");
  parse_bundle = λ td text. ok (record { trust_domain = td; authorities = [] });
}

worker-only : (svid : Svid) (c : Certificate) → IsLoadable toy_library svid c → worker ≡ svid
worker-only svid c v =
    let same : leaf ≡ c = ok-injective _ _ v.parsed in
    let (text, id) = toy_library-id (id_text svid.id) svid.id v.read in
    λ i. record {
      id = id i;
      certificates = (ap (λ x. x ∷ []) same ∙ sym v.chain) i;
      private_key = (ap (λ (x : Certificate). x.public_key) same ∙ v.key) i;
    }

pub toy_encodings-IsPem : IsPem toy_library toy_encodings
toy_encodings-IsPem = record {
  written = λ path mode text files left h.
      sym (ap (λ (f : Files). f path) (ok-injective _ _ h)) ∙ rw (eq_refl path) refl;
  others = λ path other mode text files left h apart.
      sym (ap (λ (f : Files). f other) (ok-injective _ _ h))
      ∙ otherwise path other text files apart;
  loads = λ svid c key v h. ap ok (worker-only svid c v);
}
  where
    otherwise :
        (path other text : String) (files : Files)
        → other ≢ path
        → (if other == path then some text else files other) ≡ files other
    otherwise path other text files apart = ground (arith, apart, eq_iff other path)
