-- ===== src/Caep/Transmitter/Laws.antt =====
-- Delivery is best effort: one subscriber's failure keeps no other from its token.
use zta_core.Base.{
  ℕ, String, Bool, true, false, ◌≡◌, refl, ap, ◌∙◌, ◌↔◌, inl, inr, Option, none, some, List, [],
  ◌∷◌, map, arith, Error, Result, Result-cases, sym, subst, ok, eqb, Bool-cases, All, if◌then◌else◌,
  ◌≢◌, ◌<>◌, eqb_iff, message,
}
use zta_core.Base.Text.Decimal.{decimal}
use zta_core.Signed.{Hash, Codec}
use zta_core.Caep.Cache.{Event}
use zta_core.Caep.Tokens.{Signer, sign}
use zta_core.Caep.Transmitter.{
  Delivery, bad_url, failed, answered, delivery_error, keep_first, posted, deliver, emit,
}

abbrev pub is_reachable : Delivery → Bool
is_reachable (bad_url e) = false
is_reachable (failed e) = true
is_reachable (answered status) = true

ok-inverse : {a b : String} → ◌≡◌ {A = Result String} (ok a) (ok b) → a ≡ b
ok-inverse h = cc

module _ (post : String → String → Delivery) where
  -- The subscribers to whose URL a request can be made.
  abbrev pub reachable : String → List String → List String
  reachable set [] = []
  reachable set (url ∷ urls) =
      let rest = reachable set urls in if is_reachable (post url set) then url ∷ rest else rest

  -- The error of the first subscriber, in their order, that did not answer 202: the error of its
  -- URL or of the call, or the status that it answered.
  pub data FirstError (set : String) : List String → Option Error → Type 0 where
    none_left : FirstError set [] none
    fine :
        {url : String} {urls : List String} {e : Option Error}
        → post url set ≡ answered 202
        → FirstError set urls e
        → FirstError set (url ∷ urls) e
    unbuilt :
        {url : String} {urls : List String} {e : Error}
        → post url set ≡ bad_url e
        → FirstError set (url ∷ urls) (some e)
    unsent :
        {url : String} {urls : List String} {e : Error}
        → post url set ≡ failed e
        → FirstError set (url ∷ urls) (some e)
    unaccepted :
        {url : String} {urls : List String} {status : ℕ}
        → post url set ≡ answered status
        → status ≢ 202
        → FirstError set
            (url ∷ urls)
            (some (message ("caep: subscriber " <> url <> " returned " <> decimal status)))

  -- The same error, computed.
  abbrev first_error : String → List String → Option Error
  first_error set [] = none
  first_error set (url ∷ urls) =
      keep_first (delivery_error url (post url set)) (first_error set urls)

  posted_lem :
      (d : Delivery) (url set : String) (rest : List (String × String)) (urls : List String)
      → rest ≡ map (λ u. (u, set)) urls
      → posted d url set rest ≡ map (λ u. (u, set)) (if is_reachable d then url ∷ urls else urls)
  posted_lem (bad_url e) url set rest urls h = h
  posted_lem (failed e) url set rest urls h = ap (λ l. (url, set) ∷ l) h
  posted_lem (answered status) url set rest urls h = ap (λ l. (url, set) ∷ l) h

  keep_first_assoc :
      (a b c : Option Error) → keep_first (keep_first a b) c ≡ keep_first a (keep_first b c)
  keep_first_assoc none b c = refl
  keep_first_assoc (some e) b c = refl

  deliver_lem :
      (set : String) (first : Option Error) (urls : List String)
      → deliver post set first urls
        ≡ (keep_first first (first_error set urls), map (λ u. (u, set)) (reachable set urls))
  unfolding deliver
  deliver_lem set none [] = refl
  deliver_lem set (some e) [] = refl
  deliver_lem set first (url ∷ urls) =
      let outcome = post url set in
      let ih = deliver_lem set (keep_first first (delivery_error url outcome)) urls in
      let last =
        ap (λ r. r.0) ih
        ∙ keep_first_assoc first (delivery_error url outcome) (first_error set urls) in
      let posts =
        ap (λ r. posted outcome url set r.1) ih
        ∙ posted_lem outcome url set (map (λ u. (u, set)) (reachable set urls)) (reachable set urls)
            refl in
      λ i. (last i, posts i)

  emit_lem :
      (H : Hash) (C : Codec Event) (s : Signer) (urls : List String) (now : ℕ) (e : Event)
      (set : String)
      → sign H C s now e ≡ ok set
      → ((emit post H C s urls now e).0 ≡ first_error set urls)
        × ((emit post H C s urls now e).1 ≡ map (λ u. (u, set)) (reachable set urls))
  unfolding emit
  emit_lem H C s urls now e set h =
      rw h (ap (λ r. r.0) (deliver_lem set none urls), ap (λ r. r.1) (deliver_lem set none urls))

  kept-FirstError :
      (d : Delivery) (set url : String) (urls : List String) (e : Option Error)
      → post url set ≡ d
      → FirstError set urls e
      → FirstError set (url ∷ urls) (keep_first (delivery_error url d) e)
  kept-FirstError (bad_url x) set url urls e h rest = unbuilt h
  kept-FirstError (failed x) set url urls e h rest = unsent h
  kept-FirstError (answered status) set url urls e h rest = elim (Bool-cases (eqb status 202)) [
    | inl is ↦ rw is (fine (h ∙ ap answered ((eqb_iff status 202).0 is)) rest)
    | inr other ↦ rw other (unaccepted h (λ is. ground (arith, other)))
  ]

  first_error-FirstError :
      (set : String) (urls : List String) → FirstError set urls (first_error set urls)
  first_error-FirstError set [] = none_left
  first_error-FirstError set (url ∷ urls) =
      kept-FirstError (post url set) set url urls (first_error set urls) refl
        (first_error-FirstError set urls)

  -- `Emit` posts the one signed token to every subscriber whose URL is good, in order and
  -- whatever became of the others, and returns the error of the first subscriber that did not
  -- answer 202: of its URL, of the call, or one that names its URL and status.
  pub emit-posts :
      (H : Hash) (C : Codec Event) (s : Signer) (urls : List String) (now : ℕ) (e : Event)
      (set : String)
      → sign H C s now e ≡ ok set
      → FirstError set urls (emit post H C s urls now e).0
        × ((emit post H C s urls now e).1 ≡ map (λ u. (u, set)) (reachable set urls))
  unfolding emit
  emit-posts H C s urls now e set h =
      let (first, posts) = emit_lem H C s urls now e set h in
      (subst (FirstError set urls) (sym first) (first_error-FirstError set urls), posts)

  no_error_iff :
      (d : Delivery) (url : String) (rest : Option Error)
      → (keep_first (delivery_error url d) rest ≡ none) ↔ ((d ≡ answered 202) × (rest ≡ none))
  no_error_iff (bad_url e) url rest = (λ h. cc, λ h. cc)
  no_error_iff (failed e) url rest = (λ h. cc, λ h. cc)
  no_error_iff (answered status) url rest = elim (Bool-cases (eqb status 202)) [
    | inl e ↦ (λ h. ground arith, λ h. ground arith)
    | inr e ↦ (λ h. ground arith, λ h. ground arith)
  ]

  -- No subscriber has an error exactly when each of them answered 202.
  first_error_iff :
      (set : String) (urls : List String)
      → (first_error set urls ≡ none) ↔ All (λ url. post url set ≡ answered 202) urls
  first_error_iff set [] = (λ _. tt, λ _. refl)
  first_error_iff set (url ∷ urls) =
      let (to, from) = no_error_iff (post url set) url (first_error set urls) in
      let (ih_to, ih_from) = first_error_iff set urls in
      (λ h. ((to h).0, ih_to (to h).1), λ h. from (h.0, ih_from h.1))

  -- `Emit` returns no error exactly when the event was signed and every subscriber answered 202.
  pub emit-eq-none_iff :
      (H : Hash) (C : Codec Event) (s : Signer) (urls : List String) (now : ℕ) (e : Event)
      → ((emit post H C s urls now e).0 ≡ none) ↔ (
          (set : String) × (sign H C s now e ≡ ok set)
          × All (λ url. post url set ≡ answered 202) urls)
  unfolding emit
  emit-eq-none_iff H C s urls now e = elim (Result-cases (sign H C s now e)) [
    | inl (set, signed) ↦
        let (to, from) = first_error_iff set urls in
        let (first, _) = emit_lem H C s urls now e set signed in
        (
          λ h. (set, signed, to (sym first ∙ h)),
          λ (other, same, all).
              first
              ∙ from (
                  subst (λ t. All (λ url. post url t ≡ answered 202) urls)
                    (ok-inverse (sym same ∙ signed)) all),
        )
    | inr (x, unsigned) ↦ (λ h. absurd (ground arith), λ (other, same, all). absurd (ground arith))
  ]
