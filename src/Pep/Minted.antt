-- ===== src/Pep/Minted.antt =====
-- The PDP's token for a request, presented to the PEP with the same request: the fast path over
-- HTTP, where the PDP decodes the request from its JSON form.
use mathlib.Core.Option
use zta_core.Base.{
  ℕ, String, ◌≡◌, ◌≢◌, ◌↔◌, refl, sym, ap, ◌∙◌, Option, none, some, ◌≤◌, ◌<◌, ◌+◌, arith, ok, subst,
}
use zta_core.Base64.{IsBytes}
use zta_core.Base.Text.{dot, cut}
use zta_core.Json.{
  Value, null, bool, num, str, arr, obj, Fields, end, field, Map, lookup, as_string, or_empty,
  string_at,
}
use zta_core.Json.Canon.{canon}
use zta_core.Json.Canon.Content.{get-canon_fields}
use zta_core.Http.{HttpRequest, header}
use zta_core.Authzen.{Request, Response, DecisionToken, auth_assurance_level}
use zta_core.Authzen.Encode.{wire_map, wire_request}
use zta_core.Signed.{Hash, Codec}
use zta_core.Token.{Claims, Issuer, seconds, stamped, unless_expired, verify, resource_digest}
use zta_core.Token.Laws.{verify-eq-ok}
use zta_core.Token.Digest.{resource_digest-canon, resource_digest-nil_ne_empty}
use zta_core.Grpc.Laws.{made, delivered}
use zta_core.Pdp
use zta_core.Pdp.{Service, claims_for, evaluate}
use zta_core.Pdp.Minting.{token_of, evaluate-verify}
use zta_core.Pep.{header_decision_token, Platform, Config}
use zta_core.Pep.Check.{aal_rank, try_decision_token}
use zta_core.Pep.Check.Grounds.{Covers}
use zta_core.Pep.Reuse.{reuse, try_decision_token_iff}

as_string-canon : (o : Option Value) → as_string (Option.map canon o) ≡ as_string o
unfolding canon
as_string-canon none = refl
as_string-canon (some null) = refl
as_string-canon (some (bool b)) = refl
as_string-canon (some (num n)) = refl
as_string-canon (some (str s)) = refl
as_string-canon (some (arr xs)) = refl
as_string-canon (some (obj m)) = refl

string_at-wire_map : (k : String) (m : Map) → string_at k (wire_map m) ≡ string_at k m
unfolding zta_core.Json.get
string_at-wire_map k none = refl
string_at-wire_map k (some end) = refl
string_at-wire_map k (some (field j v m)) =
    ap (λ o. or_empty (as_string o)) (get-canon_fields k (field j v m))
    ∙ ap or_empty (as_string-canon (lookup k (some (field j v m))))

level-wire :
    (r : Request) → auth_assurance_level (wire_request r).subject ≡ auth_assurance_level r.subject
unfolding auth_assurance_level wire_request
level-wire r = string_at-wire_map "auth_assurance_level" r.subject.properties

string_at-made : (k : String) (m : Map) → string_at k (made m) ≡ string_at k m
unfolding zta_core.Json.get
string_at-made k none = refl
string_at-made k (some m) = refl

level-delivered :
    (r : Request) → auth_assurance_level (delivered r).subject ≡ auth_assurance_level r.subject
unfolding auth_assurance_level
level-delivered r = string_at-made "auth_assurance_level" r.subject.properties

verify_nonempty :
    (H : Hash) (C : Codec Claims) (i : Issuer) (now : ℕ) (tok : String) (c : Claims)
    → verify H C i now tok ≡ ok c
    → tok ≢ ""
unfolding cut
verify_nonempty H C i now tok c h e =
    let (body, sig, _, parted, _, _, _, _) = verify-eq-ok H C i now tok c h in
    let blank : cut dot "" ≡ some (body, sig) =
      subst (λ t. cut dot t ≡ some (body, sig)) e parted in
    cc

live : (later : ℕ) (c : Claims) → seconds later < c.expires_at → unless_expired later c ≡ ok c
live later c h = ground arith

module _ (P : zta_core.Pdp.Platform) (F : Platform) where
  -- What the PEP does with the token of a response that the PDP gave for a request sent to it,
  -- while the token lives: it stands for the PDP's answer exactly when its claims cover the request.
  minted_iff :
      (s : Service) (now later : ℕ) (sent : Request) (resp : Response) (tok : DecisionToken)
      (j : Issuer) (cfg : Config) (r : HttpRequest) (req : Request) (cid : String)
      → evaluate P s now sent ≡ ok resp
      → token_of resp ≡ some tok
      → s.issuer.secret ≡ j.secret
      → cfg.token_verifier ≡ some (verify P.hash P.claims j later)
      → header header_decision_token r.headers ≡ tok.value
      → seconds later < seconds (now + s.issuer.ttl)
      → ((try_decision_token F cfg r req cid).0 ≡ some (reuse tok.value cid))
        ↔ Covers F (stamped s.issuer now (claims_for P sent)) req
  unfolding stamped
  minted_iff s now later sent resp tok j cfg r req cid h found same wired shown alive =
      let opened =
        evaluate-verify P s now sent resp tok j later h found same
        ∙ live later (stamped s.issuer now (claims_for P sent)) alive in
      let named = verify_nonempty P.hash P.claims j later tok.value _ opened in
      subst
        (λ raw.
          ((try_decision_token F cfg r req cid).0 ≡ some (reuse raw cid))
          ↔ Covers F (stamped s.issuer now (claims_for P sent)) req)
        shown
        (try_decision_token_iff F cfg r req cid (verify P.hash P.claims j later) _ wired
          (λ blank. named (sym shown ∙ blank)) (ap (verify P.hash P.claims j later) shown ∙ opened))

  Covers-wire :
      (s : Service) (now : ℕ) (req : Request) (k : String) (v : Value) (m : Fields)
      → F.hash ≡ P.hash
      → req.resource.properties ≡ some (field k v m)
      → Covers F (stamped s.issuer now (claims_for P (wire_request req))) req
  unfolding stamped claims_for wire_request
  Covers-wire s now req k v m hash props = record {
    subject = refl;
    action = refl;
    resource = refl;
    digest =
        ap (λ m. resource_digest P.hash (wire_map m)) props
        ∙ resource_digest-canon P.hash (some (field k v m))
        ∙ ap (λ H. resource_digest H (some (field k v m))) (sym hash)
        ∙ ap (resource_digest F.hash) (sym props);
    aal = at_most (ap aal_rank (level-wire req));
  }
    where
      at_most : {a b : ℕ} → a ≡ b → a ≤ b
      at_most e = omega arith

  -- Over HTTP, where the PDP decodes the request that the PEP built, the token that it mints is
  -- honoured when it comes back with the same request before it expires, provided that the
  -- request has resource properties and that the PEP verifies with the issuer's secret and the
  -- same hash.
  pub minted-reused :
      (s : Service) (now later : ℕ) (resp : Response) (tok : DecisionToken) (j : Issuer)
      (cfg : Config) (r : HttpRequest) (req : Request) (cid : String) (k : String) (v : Value)
      (m : Fields)
      → F.hash ≡ P.hash
      → req.resource.properties ≡ some (field k v m)
      → evaluate P s now (wire_request req) ≡ ok resp
      → token_of resp ≡ some tok
      → s.issuer.secret ≡ j.secret
      → cfg.token_verifier ≡ some (verify P.hash P.claims j later)
      → header header_decision_token r.headers ≡ tok.value
      → seconds later < seconds (now + s.issuer.ttl)
      → (try_decision_token F cfg r req cid).0 ≡ some (reuse tok.value cid)
  minted-reused s now later resp tok j cfg r req cid k v m hash props h found same wired shown
        alive =
      (minted_iff s now later (wire_request req) resp tok j cfg r req cid h found same wired shown
          alive).1
        (Covers-wire s now req k v m hash props)

  -- A request without resource properties is built with the empty map, which its JSON form leaves
  -- out and the PDP reads as nil. Over HTTP the token that the PDP mints for it is not honoured
  -- when it comes back with the same request before it expires, provided that SHA-256 gives
  -- different bytes on "null" and "{}".
  pub minted-reused_ne :
      (s : Service) (now later : ℕ) (resp : Response) (tok : DecisionToken) (j : Issuer)
      (cfg : Config) (r : HttpRequest) (req : Request) (cid : String)
      → F.hash ≡ P.hash
      → IsBytes (P.hash.sha256 "null")
      → IsBytes (P.hash.sha256 "{}")
      → P.hash.sha256 "null" ≢ P.hash.sha256 "{}"
      → req.resource.properties ≡ some end
      → evaluate P s now (wire_request req) ≡ ok resp
      → token_of resp ≡ some tok
      → s.issuer.secret ≡ j.secret
      → cfg.token_verifier ≡ some (verify P.hash P.claims j later)
      → header header_decision_token r.headers ≡ tok.value
      → seconds later < seconds (now + s.issuer.ttl)
      → (try_decision_token F cfg r req cid).0 ≢ some (reuse tok.value cid)
  unfolding stamped claims_for wire_request
  minted-reused_ne s now later resp tok j cfg r req cid hash hn he differ props h found same wired
        shown alive e =
      let c =
        (minted_iff s now later (wire_request req) resp tok j cfg r req cid h found same wired shown
            alive).0
          e in
      resource_digest-nil_ne_empty P.hash hn he differ (
        sym (ap (λ m. resource_digest P.hash (wire_map m)) props)
        ∙ c.digest
        ∙ ap (λ H. resource_digest H req.resource.properties) hash
        ∙ ap (resource_digest P.hash) props)

  Covers-delivered :
      (s : Service) (now : ℕ) (req : Request) (m : Fields)
      → F.hash ≡ P.hash
      → req.resource.properties ≡ some m
      → Covers F (stamped s.issuer now (claims_for P (delivered req))) req
  unfolding stamped claims_for
  Covers-delivered s now req m hash props = record {
    subject = refl;
    action = refl;
    resource = refl;
    digest =
        ap (λ m. resource_digest P.hash (made m)) props
        ∙ ap (λ H. resource_digest H (some m)) (sym hash)
        ∙ ap (resource_digest F.hash) (sym props);
    aal = at_most (ap aal_rank (level-delivered req));
  }
    where
      at_most : {a b : ℕ} → a ≡ b → a ≤ b
      at_most e = omega arith

  -- Over gRPC, where nil maps arrive empty, the token that the PDP mints is honoured when it
  -- comes back with the same request before it expires, whether or not its resource properties
  -- are empty, provided that the PEP verifies with the issuer's secret and the same hash.
  pub minted-reused_grpc :
      (s : Service) (now later : ℕ) (resp : Response) (tok : DecisionToken) (j : Issuer)
      (cfg : Config) (r : HttpRequest) (req : Request) (cid : String) (m : Fields)
      → F.hash ≡ P.hash
      → req.resource.properties ≡ some m
      → evaluate P s now (delivered req) ≡ ok resp
      → token_of resp ≡ some tok
      → s.issuer.secret ≡ j.secret
      → cfg.token_verifier ≡ some (verify P.hash P.claims j later)
      → header header_decision_token r.headers ≡ tok.value
      → seconds later < seconds (now + s.issuer.ttl)
      → (try_decision_token F cfg r req cid).0 ≡ some (reuse tok.value cid)
  minted-reused_grpc s now later resp tok j cfg r req cid m hash props h found same wired shown
        alive =
      (minted_iff s now later (delivered req) resp tok j cfg r req cid h found same wired shown
          alive).1
        (Covers-delivered s now req m hash props)
