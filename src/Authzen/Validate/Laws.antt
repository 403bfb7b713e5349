-- ===== src/Authzen/Validate/Laws.antt =====
-- `Request.Validate` accepts exactly the requests that conform to the contract.
use zta_core.Base.{
  inl, inr, err, invalid, String, ◌≡◌, ◌≢◌, refl, ◌↔◌, ◌⊎◌, true, false, ◌++◌, List, [], ◌∷◌, some,
  arith, ok, eq_iff,
}
use zta_core.Authzen.{Request, authz_profile}
use zta_core.Authzen.Validate.{
  is_colon_pair, domain_of, type_issues, id_issues, action_issues, resource_issues, domain_issues,
  profile_issues, issues, verdict, validate,
}
use zta_core.Authzen.Validate.Names.{colon_char, IsToken, is_colon_pair_iff, domain_of-pair}
use zta_core.Base.Text.Laws.{join}

-- The contract of design-v3 §3.1: known subject type, a subject id, action and resource named
-- `<domain>:<name>` in one domain, a known profile.
pub record Conforms (r : Request) : Type 0 where
  pub subject_type : (r.subject.kind ≡ "user") ⊎ (r.subject.kind ≡ "workload")
  pub subject_id : r.subject.id ≢ ""
  pub domain : String
  pub verb : String
  pub entity : String
  pub domain_token : IsToken domain
  pub verb_token : IsToken verb
  pub entity_token : IsToken entity
  pub action_name : r.action.name ≡ join colon_char domain verb
  pub resource_type : r.resource.kind ≡ join colon_char domain entity
  pub profile :
      (authz_profile r ≡ "edge") ⊎ ((authz_profile r ≡ "east_west") ⊎ (authz_profile r ≡ "partner"))

empty_no_pair : is_colon_pair "" ≡ false
unfolding is_colon_pair
empty_no_pair = refl

module _ (quote : String → String) where
  append-eq-nil : (xs ys : List String) → (xs ++ ys ≡ []) ↔ ((xs ≡ []) × (ys ≡ []))
  append-eq-nil [] ys = ground arith
  append-eq-nil (x ∷ xs) ys = ground arith

  type_issues_iff : (t : String) → (type_issues quote t ≡ []) ↔ ((t ≡ "user") ⊎ (t ≡ "workload"))
  type_issues_iff t = ground (arith, eq_iff t "user", eq_iff t "workload", eq_iff t "")

  id_issues_iff : (id : String) → (id_issues quote id ≡ []) ↔ (id ≢ "")
  id_issues_iff id = ground (arith, eq_iff id "")

  action_issues_iff :
      (name : String) → (action_issues quote name ≡ []) ↔ (is_colon_pair name ≡ true)
  action_issues_iff name = ground (arith, eq_iff name "", empty_no_pair)

  resource_issues_iff : (t : String) → (resource_issues quote t ≡ []) ↔ (is_colon_pair t ≡ true)
  resource_issues_iff t = ground (arith, eq_iff t "", empty_no_pair)

  profile_issues_iff :
      (p : String)
      → (profile_issues quote p ≡ []) ↔ ((p ≡ "edge") ⊎ ((p ≡ "east_west") ⊎ (p ≡ "partner")))
  profile_issues_iff p =
      ground (arith, eq_iff p "edge", eq_iff p "east_west", eq_iff p "partner", eq_iff p "")

  six-eq-nil :
      (a b c d e f : List String)
      → (a ++ (b ++ (c ++ (d ++ (e ++ f)))) ≡ [])
        ↔ ((a ≡ []) × (b ≡ []) × (c ≡ []) × (d ≡ []) × (e ≡ []) × (f ≡ []))
  six-eq-nil [] [] [] [] [] f = ground arith
  six-eq-nil (x ∷ a) b c d e f = ground arith
  six-eq-nil [] (x ∷ b) c d e f = ground arith
  six-eq-nil [] [] (x ∷ c) d e f = ground arith
  six-eq-nil [] [] [] (x ∷ d) e f = ground arith
  six-eq-nil [] [] [] [] (x ∷ e) f = ground arith

  domain_issues_iff :
      (name kind : String) {ad rd : String}
      → domain_of name ≡ some ad
      → domain_of kind ≡ some rd
      → (domain_issues quote name kind (domain_of name) (domain_of kind) ≡ []) ↔ (ad ≡ rd)
  domain_issues_iff name kind {ad} {rd} p q = rw (p, q) (ground (arith, eq_iff ad rd))

  issues-Conforms : (r : Request) → issues quote r ≡ [] → Conforms r
  unfolding issues
  issues-Conforms r h =
      let (kind, id, name, res, dom, prof) = (six-eq-nil _ _ _ _ _ _).0 h in
      let (d, v, hd, hv, named) = (is_colon_pair_iff _).0 ((action_issues_iff _).0 name) in
      let (d', e, hd', he, typed) = (is_colon_pair_iff _).0 ((resource_issues_iff _).0 res) in
      let same : d ≡ d' =
        (domain_issues_iff _ _ (domain_of-pair _ d v hd hv named)
            (domain_of-pair _ d' e hd' he typed)).0
          dom in
      record {
        subject_type = (type_issues_iff _).0 kind;
        subject_id = (id_issues_iff _).0 id;
        domain = d;
        verb = v;
        entity = e;
        domain_token = hd;
        verb_token = hv;
        entity_token = he;
        action_name = named;
        resource_type = rw same typed;
        profile = (profile_issues_iff _).0 prof;
      }

  Conforms-issues : (r : Request) → Conforms r → issues quote r ≡ []
  unfolding issues
  Conforms-issues r c = (six-eq-nil _ _ _ _ _ _).1 (
    (type_issues_iff _).1 c.subject_type,
    (id_issues_iff _).1 c.subject_id,
    (action_issues_iff _).1
        ((is_colon_pair_iff _).1 (c.domain, c.verb, c.domain_token, c.verb_token, c.action_name)),
    (resource_issues_iff _).1 (
        (is_colon_pair_iff _).1
          (c.domain, c.entity, c.domain_token, c.entity_token, c.resource_type)),
    (domain_issues_iff _ _
          (domain_of-pair _ c.domain c.verb c.domain_token c.verb_token c.action_name)
          (domain_of-pair _ c.domain c.entity c.domain_token c.entity_token c.resource_type)).1
        refl,
    (profile_issues_iff _).1 c.profile,
  )

  verdict-eq-ok : (is : List String) → (verdict quote is ≡ ok tt) ↔ (is ≡ [])
  verdict-eq-ok [] = ground arith
  verdict-eq-ok (i ∷ is) = ground arith

  -- `Validate` returns nil exactly for the requests that conform to the contract.
  pub validate-eq-ok_iff : (r : Request) → (validate quote r ≡ ok tt) ↔ Conforms r
  unfolding validate
  validate-eq-ok_iff r = (
    λ h. issues-Conforms r ((verdict-eq-ok _).0 h),
    λ c. (verdict-eq-ok _).1 (Conforms-issues r c),
  )

  verdict-cases :
      (is : List String)
      → (verdict quote is ≡ ok tt)
        ⊎ ((i : String) × (rest : List String) × (verdict quote is ≡ err (invalid (i ∷ rest))))
  verdict-cases [] = inl refl
  verdict-cases (i ∷ rest) = inr (i, rest, refl)

  pub validate-cases :
      (r : Request)
      → (validate quote r ≡ ok tt)
        ⊎ ((i : String) × (rest : List String) × (validate quote r ≡ err (invalid (i ∷ rest))))
  unfolding validate
  validate-cases r = verdict-cases (issues quote r)
