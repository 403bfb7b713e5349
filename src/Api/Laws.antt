-- ===== src/Api/Laws.antt =====
-- The endpoint over the PDP: what each reply means.
use zta_core.Base.{
  ℕ, String, ◌<>◌, ◌≡◌, refl, ap, ◌∙◌, ◌⊎◌, inl, inr, none, List, [], ◌∷◌, Error, invalid,
  as_validation, ok, err, Result-cases, arith,
}
use zta_core.Json.{bool, str, arr, obj, Items, nil, cons, Fields, end, field}
use zta_core.Json.Render.{render, marshal}
use zta_core.Http.{Body, Reply, write_encoded}
use zta_core.Authzen.{Request, Response}
use zta_core.Authzen.Encode.{response_fields}
use zta_core.Authzen.Encode.Laws.{IsResponseJson, response_fields-IsResponseJson}
use zta_core.Authzen.Validate.Laws.{Conforms, validate-cases, validate-eq-ok_iff}
use zta_core.Pdp.{Platform, Service, evaluate}
use zta_core.Pdp.Laws.{Justified, evaluate-Justified, evaluate_invalid, valid-err}
use zta_core.Api.{
  issue_items, internal_error, evaluation_error, evaluated, Decoded, decoded, handle_evaluation,
}

-- The issues, one for one and in their order, as the items of a JSON array.
pub data Lists : List String → Items → Type 0 where
  no_more : Lists [] nil
  then :
      {issue : String} {issues : List String} {items : Items}
      → Lists issues items
      → Lists (issue ∷ issues) (cons (str issue) items)

-- A reply to a request that was decoded, by what the PDP made of the request: the response's decision,
-- at least one issue of a request that breaks the contract, or the one fixed text of an internal error.
abbrev pub Answered : Platform → Service → ℕ → Request → Reply → Type 0
Answered P s now req reply =
    ((resp : Response) × (json : Fields) × (evaluate P s now req ≡ ok resp)
      × Justified P s now req resp
      × (reply.status ≡ 200)
      × (reply.body ≡ render (obj json) <> "\n")
      × IsResponseJson resp json)
    ⊎ (((first : String) × (more : List String) × (items : Items) × (¬ Conforms req)
          × (evaluate P s now req ≡ err (invalid (first ∷ more)))
          × Lists (first ∷ more) items
          × (reply.status ≡ 400)
          × (reply.body
              ≡ marshal
                  (obj (field "error" (str "contract_violation") (field "issues" (arr items) end)))
                <> "\n"))
        ⊎ ((x : Error) × Conforms req
            × (evaluate P s now req ≡ err x)
            × (reply.status ≡ 500)
            × (reply.body ≡ "{\"error\":\"internal_error\",\"message\":\"evaluation failed\"}\n")))

issue_items-Lists : (issues : List String) → Lists issues (issue_items issues)
unfolding issue_items
issue_items-Lists [] = no_more
issue_items-Lists (issue ∷ issues) = then (issue_items-Lists issues)

internal_error-body :
    internal_error.body ≡ "{\"error\":\"internal_error\",\"message\":\"evaluation failed\"}\n"
unfolding write_encoded marshal render zta_core.Json.Canon.canon zta_core.Json.Canon.place
    zta_core.Json.Order.before
internal_error-body = refl

module _ (P : Platform) (decode : Body → Decoded) where
  evaluated-ok :
      (s : Service) (now : ℕ) (req : Request) (resp : Response)
      → evaluate P s now req ≡ ok resp
      → Answered P s now req (evaluated (evaluate P s now req))
  unfolding write_encoded
  evaluated-ok s now req resp h = inl (
    resp,
    response_fields resp,
    h,
    evaluate-Justified P s now req resp h,
    ap (λ r. (evaluated r).status) h,
    ap (λ r. (evaluated r).body) h,
    response_fields-IsResponseJson resp,
  )

  evaluated-invalid :
      (s : Service) (now : ℕ) (req : Request)
      → ¬ Conforms req
      → Answered P s now req (evaluated (evaluate P s now req))
  unfolding write_encoded
  evaluated-invalid s now req broken =
      let (first, more, all) = evaluate_invalid P req broken in
      let h = all s now in
      inr (
        inl (
          first,
          more,
          issue_items (first ∷ more),
          broken,
          h,
          issue_items-Lists (first ∷ more),
          ap (λ r. (evaluated r).status) h,
          ap (λ r. (evaluated r).body) h,
        ))

  evaluated-err :
      (s : Service) (now : ℕ) (req : Request) (x : Error)
      → Conforms req
      → evaluate P s now req ≡ err x
      → as_validation x ≡ none
      → Answered P s now req (evaluated (evaluate P s now req))
  unfolding write_encoded
  evaluated-err s now req x conforms h plain =
      let sent : evaluated (evaluate P s now req) ≡ internal_error =
        ap evaluated h ∙ ap evaluation_error plain in
      inr (
        inr (
          x,
          conforms,
          h,
          ap (λ (r : Reply). r.status) sent,
          ap (λ (r : Reply). r.body) sent ∙ internal_error-body,
        ))

  -- Provided that the engine itself returns no validation error, the endpoint answers a decoded request
  -- by what the PDP returns: its response with 200, as JSON with its decision, token, obligations and
  -- reason; the issues of a request that breaks the contract, at least one, with 400; and any other
  -- error with 500 and one fixed body that shows nothing of it.
  pub handle_evaluation-Answered :
      (s : Service) (now : ℕ) (body : Body) (req : Request)
      → ((input : Fields) (x : Error) → s.engine (obj input) ≡ err x → as_validation x ≡ none)
      → decode body ≡ decoded req
      → Answered P s now req (handle_evaluation decode (evaluate P s now) body)
  unfolding handle_evaluation
  handle_evaluation-Answered s now body req plain read =
      rw read (elim (Result-cases (evaluate P s now req)) [
        | inl (resp, h) ↦ evaluated-ok s now req resp h
        | inr (x, h) ↦ elim (validate-cases P.quote req) [
          | inl valid ↦
              evaluated-err s now req x ((validate-eq-ok_iff P.quote req).0 valid) h
                (valid-err P s now req x plain valid h)
          | inr (first, more, bad) ↦
              evaluated-invalid s now req
                (λ c. ground (arith, (validate-eq-ok_iff P.quote req).1 c))
        ]
      ])
