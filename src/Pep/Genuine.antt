-- ===== src/Pep/Genuine.antt =====
-- authz/token/token.go, as the PEP relies on it: what stands behind a decision token that is presented.
use mathlib.Core.Option.{some-injective}
use zta_core.Base.{
  ◌⊎◌, eq_iff, arith, ℕ, String, ◌+◌, ◌≤◌, ◌<◌, ◌<>◌, ◌≡◌, refl, sym, ap, subst, ◌∙◌, Bool, true,
  false, Option, some, ok,
}
use zta_core.Base.Text.{dot, cut}
use zta_core.Base64.{Bytes, IsBytes, encode, decode}
use zta_core.Base64.Laws.{decode-encode}
use zta_core.Json.{string_at}
use zta_core.Authzen.{Request, Response, DecisionToken, auth_assurance_level}
use zta_core.Signed.{seal}
use zta_core.Signed.Laws.{cut-seal}
use zta_core.Token.{messages, Claims, seconds, resource_digest, stamped, sign}
use zta_core.Token.Laws.{issue-eq-ok}
use zta_core.Pdp
use zta_core.Pdp.{Service, claims_for, evaluate}
use zta_core.Pdp.Laws.{IsTokenFor, Justified, evaluate-Justified}
use zta_core.Pdp.Minting.{token_of, Justified-token, evaluate-issue}
use zta_core.Pep.{Platform}
use zta_core.Pep.Check.{aal_rank}
use zta_core.Pep.Check.Grounds.{Covers}

-- Whoever has reached one assurance level has reached the other.
abbrev pub NoHigher : String → String → Type 0
NoHigher a b =
    (a ≡ "AAL1" → (b ≡ "AAL1") ⊎ ((b ≡ "AAL2") ⊎ (b ≡ "AAL3")))
    × (a ≡ "AAL2" → (b ≡ "AAL2") ⊎ (b ≡ "AAL3"))
    × (a ≡ "AAL3" → b ≡ "AAL3")

aal_rank-pos : (b : String) → 1 ≤ aal_rank b → (b ≡ "AAL1") ⊎ ((b ≡ "AAL2") ⊎ (b ≡ "AAL3"))
unfolding aal_rank
aal_rank-pos b h = ground (arith, h, eq_iff b "AAL1", eq_iff b "AAL2", eq_iff b "AAL3")

aal_rank-ge_2 : (b : String) → 2 ≤ aal_rank b → (b ≡ "AAL2") ⊎ (b ≡ "AAL3")
unfolding aal_rank
aal_rank-ge_2 b h = ground (arith, h, eq_iff b "AAL2", eq_iff b "AAL3")

aal_rank-ge_3 : (b : String) → 3 ≤ aal_rank b → b ≡ "AAL3"
unfolding aal_rank
aal_rank-ge_3 b h = ground (arith, h, eq_iff b "AAL3")

aal_rank-NoHigher : (a b : String) → aal_rank a ≤ aal_rank b → NoHigher a b
unfolding aal_rank
aal_rank-NoHigher a b h = (
  λ is. aal_rank-pos b (subst (λ x. aal_rank x ≤ aal_rank b) is h),
  λ is. aal_rank-ge_2 b (subst (λ x. aal_rank x ≤ aal_rank b) is h),
  λ is. aal_rank-ge_3 b (subst (λ x. aal_rank x ≤ aal_rank b) is h),
)

module _ (P : zta_core.Pdp.Platform) (F : Platform) (s : Service) where
  -- A text that the PDP signed as the body of a token, by a time.
  pub record SignedBody (now : ℕ) (body : String) : Type 0 where
    pub at : ℕ
    pub earlier : at ≤ now
    pub sent : Request
    pub resp : Response
    pub token : DecisionToken
    pub sig : String
    pub answered : evaluate P s at sent ≡ ok resp
    pub minted : token_of resp ≡ some token
    pub parted : cut dot token.value ≡ some (body, sig)

  -- What a keyed hash is for: whoever presents a mac under the secret has the text from the PDP,
  -- which signed it before.
  abbrev pub IsGenuine : ℕ → String → String → Type 0
  IsGenuine now secret tok =
      (body sig : String)
      → cut dot tok ≡ some (body, sig)
      → decode sig ≡ some (P.hash.hmac secret body)
      → SignedBody now body

  -- The grant with which the presented token was minted: it was a yes, given before and not longer
  -- ago than a token lives, to the same subject, action, resource and digest of properties, at no
  -- higher assurance level.
  pub record GrantedBefore (now : ℕ) (presented : String) (req : Request) : Type 0 where
    pub body : String
    pub presented_sig : String
    pub presented_parts : cut dot presented ≡ some (body, presented_sig)
    pub grant : SignedBody now body
    pub said_yes : grant.resp.decision ≡ true
    pub grounds : Justified P s grant.at grant.sent grant.resp
    pub unexpired : now < grant.at + s.issuer.ttl
    pub same_subject : grant.sent.subject.id ≡ req.subject.id
    pub same_action : grant.sent.action.name ≡ req.action.name
    pub same_resource :
        (grant.sent.resource.kind <> ("/" <> grant.sent.resource.id))
        ≡ (req.resource.kind <> ("/" <> req.resource.id))
    pub same_digest :
        resource_digest P.hash grant.sent.resource.properties
        ≡ resource_digest P.hash req.resource.properties
    pub no_higher_aal :
        NoHigher
          (string_at "auth_assurance_level" grant.sent.subject.properties)
          (string_at "auth_assurance_level" req.subject.properties)

  token_for-decision :
      (at : ℕ) (sent : Request) (b : Bool) (o : Option DecisionToken) (tok : DecisionToken)
      → IsTokenFor P s.issuer at sent b o
      → o ≡ some tok
      → b ≡ true
  token_for-decision at sent true o tok is e = refl
  token_for-decision at sent false o tok is e = ground arith

  -- A response that carries a token says yes.
  token_of-decision :
      (at : ℕ) (sent : Request) (resp : Response) (tok : DecisionToken)
      → evaluate P s at sent ≡ ok resp
      → token_of resp ≡ some tok
      → resp.decision ≡ true
  token_of-decision at sent resp tok h found =
      let v = evaluate-Justified P s at sent resp h in
      v.same_decision
      ∙ token_for-decision at sent v.decision.allow v.context.decision_token tok v.token_for
          (sym (Justified-token P s at sent resp v) ∙ found)

  -- The claims read from a signed body are those of the request that was granted.
  pub SignedBody-claims :
      (now : ℕ) (body : String) (payload : Bytes) (c : Claims) (b : SignedBody now body)
      → decode body ≡ some payload
      → P.claims.unmarshal payload ≡ some c
      → c ≡ stamped s.issuer b.at (claims_for P b.sent)
  SignedBody-claims now body payload c b opened read =
      let issued = evaluate-issue P s b.at b.sent b.resp b.token b.answered b.minted in
      let (minted, marshalled, shape) =
        issue-eq-ok P.hash P.claims s.issuer b.at (claims_for P b.sent) b.token.value issued in
      let bytes : IsBytes minted = P.claims.marshal-IsBytes _ minted marshalled in
      let cut_here : cut dot (seal (sign P.hash s.issuer) minted) ≡ some (body, b.sig) =
        ap (cut dot) (sym shape) ∙ b.parted in
      let same_body : encode minted ≡ body =
        ap (λ (x : String × String). x.0)
          (some-injective _ _
            (sym (cut-seal (sign P.hash s.issuer) messages minted bytes) ∙ cut_here)) in
      let same : minted ≡ payload =
        some-injective _ _ (sym (decode-encode minted bytes) ∙ ap decode same_body ∙ opened) in
      sym (
        some-injective _ _ (
          sym (P.claims.unmarshal-marshal _ minted marshalled) ∙ ap P.claims.unmarshal same ∙ read))

  stamped-expires :
      (now at : ℕ) (sent : Request) (c : Claims)
      → c ≡ stamped s.issuer at (claims_for P sent)
      → seconds now < c.expires_at
      → now < at + s.issuer.ttl
  unfolding stamped
  stamped-expires now at sent c same alive =
      let in_seconds : seconds now < seconds (at + s.issuer.ttl) =
        subst (λ e. seconds now < e) (ap (λ (x : Claims). x.expires_at) same) alive in
      omega (arith, in_seconds)

  -- A token that covers a request and has its body from the PDP was minted with a grant for it.
  pub covered-GrantedBefore :
      (now : ℕ) (presented body sig : String) (c : Claims) (req : Request) (b : SignedBody now body)
      → F.hash ≡ P.hash
      → cut dot presented ≡ some (body, sig)
      → c ≡ stamped s.issuer b.at (claims_for P b.sent)
      → seconds now < c.expires_at
      → Covers F c req
      → GrantedBefore now presented req
  unfolding stamped claims_for auth_assurance_level
  covered-GrantedBefore now presented body sig c req b hash parted same alive covers = record {
    body = body;
    presented_sig = sig;
    presented_parts = parted;
    grant = b;
    said_yes = token_of-decision b.at b.sent b.resp b.token b.answered b.minted;
    grounds = evaluate-Justified P s b.at b.sent b.resp b.answered;
    unexpired = stamped-expires now b.at b.sent c same alive;
    same_subject = ap (λ (x : Claims). x.subject) (sym same) ∙ covers.subject;
    same_action = ap (λ (x : Claims). x.action) (sym same) ∙ covers.action;
    same_resource = ap (λ (x : Claims). x.resource) (sym same) ∙ covers.resource;
    same_digest =
        ap (λ (x : Claims). x.res_digest) (sym same)
        ∙ covers.digest
        ∙ ap (λ h. resource_digest h req.resource.properties) hash;
    no_higher_aal = aal_rank-NoHigher _ _ (
        subst (λ x. aal_rank x ≤ aal_rank (auth_assurance_level req.subject))
          (ap (λ (x : Claims). x.aal) same) covers.aal);
  }
