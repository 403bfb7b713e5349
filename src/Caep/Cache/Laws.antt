-- ===== src/Caep/Cache/Laws.antt =====
-- The cache against the history of events: the last word on a subject counts.
use zta_core.Base.{
  String, true, ◌≡◌, refl, ap, ◌∙◌, ◌↔◌, ◌⊎◌, inl, inr, List, [], ◌∷◌, ◌++◌, arith, ◌==◌, eq_iff,
  All, Bool-cases,
}
use zta_core.Caep.Cache.{Event, Cache, new_cache, apply, is_revoked, apply_all}

module _ (s : String) where
  abbrev pub Revokes : Event → Type 0
  Revokes e = (e.kind ≡ "session-revoked") × (e.subject ≡ s)

  abbrev pub Restores : Event → Type 0
  Restores e = (e.kind ≡ "session-restored") × (e.subject ≡ s)

  -- An event revokes the session and none after it restores it.
  abbrev pub StandsRevoked : List Event → Type 0
  StandsRevoked es =
      (before : List Event) × (e : Event) × (after : List Event) × (es ≡ before ++ (e ∷ after))
      × Revokes e
      × All (λ x. ¬ Restores x) after

  apply-Revokes : (e : Event) (c : Cache) → Revokes e → is_revoked (apply e c) s ≡ true
  unfolding is_revoked apply
  apply-Revokes e c (k, h) = ground (arith, eq_iff e.kind "session-revoked", eq_iff e.subject s)

  apply_kept :
      (e : Event) (c : Cache)
      → is_revoked c s ≡ true
      → ¬ Restores e
      → is_revoked (apply e c) s ≡ true
  unfolding is_revoked apply
  apply_kept e c h keeps = elim (Bool-cases (e.kind == "session-restored")) [
    | inl k ↦ elim (Bool-cases (e.subject == s)) [
      | inl t ↦ absurd (keeps ((eq_iff _ _).0 k, (eq_iff _ _).0 t))
      | inr f ↦ ground arith
    ]
    | inr k ↦ ground arith
  ]

  apply-cases :
      (e : Event) (c : Cache)
      → is_revoked (apply e c) s ≡ true
      → Revokes e ⊎ ((is_revoked c s ≡ true) × (¬ Restores e))
  unfolding is_revoked apply
  apply-cases e c h = elim (Bool-cases (e.kind == "session-revoked")) [
    | inl k ↦ elim (Bool-cases (e.subject == s)) [
      | inl t ↦ inl ((eq_iff _ _).0 k, (eq_iff _ _).0 t)
      | inr f ↦ inr (
        ground arith,
        λ r. ground (arith, eq_iff e.kind "session-revoked", eq_iff e.subject s, r.0, r.1),
      )
    ]
    | inr k ↦ inr (
      ground arith,
      λ r. ground (arith, eq_iff e.kind "session-restored", eq_iff e.subject s, r.0, r.1),
    )
  ]

  apply_all-kept :
      (es : List Event) (c : Cache)
      → is_revoked c s ≡ true
      → All (λ x. ¬ Restores x) es
      → is_revoked (apply_all es c) s ≡ true
  unfolding apply_all
  apply_all-kept [] c h _ = h
  apply_all-kept (e ∷ es) c h (keeps, rest) =
      apply_all-kept es (apply e c) (apply_kept e c h keeps) rest

  apply_all-Revokes :
      (before : List Event) (e : Event) (after : List Event) (c : Cache)
      → Revokes e
      → All (λ x. ¬ Restores x) after
      → is_revoked (apply_all (before ++ (e ∷ after)) c) s ≡ true
  unfolding apply_all
  apply_all-Revokes [] e after c h rest =
      apply_all-kept after (apply e c) (apply-Revokes e c h) rest
  apply_all-Revokes (x ∷ before) e after c h rest =
      apply_all-Revokes before e after (apply x c) h rest

  apply_all-cases :
      (es : List Event) (c : Cache)
      → is_revoked (apply_all es c) s ≡ true
      → StandsRevoked es ⊎ ((is_revoked c s ≡ true) × All (λ x. ¬ Restores x) es)
  unfolding apply_all
  apply_all-cases [] c h = inr (h, tt)
  apply_all-cases (e ∷ es) c h = elim (apply_all-cases es (apply e c) h) [
    | inl (before, x, after, shape, rev, rest) ↦
        inl (e ∷ before, x, after, ap (λ l. e ∷ l) shape, rev, rest)
    | inr (now, rest) ↦ elim (apply-cases e c now) [
      | inl rev ↦ inl ([], e, es, refl, rev, rest)
      | inr (earlier, keeps) ↦ inr (earlier, (keeps, rest))
    ]
  ]

-- After any sequence of events, an empty cache reports a subject as revoked exactly when some
-- event revoked its session and no later one restored it. Events of other types count for nothing.
pub is_revoked_iff :
    (s : String) (es : List Event)
    → (is_revoked (apply_all es new_cache) s ≡ true) ↔ StandsRevoked s es
is_revoked_iff s es = (
  λ h. elim (apply_all-cases s es new_cache h) [
    | inl stands ↦ stands
    | inr (never, _) ↦ absurd (unfold is_revoked in ground (arith, never))
  ],
  λ (before, e, after, shape, rev, rest).
      ap (λ l. is_revoked (apply_all l new_cache) s) shape
      ∙ apply_all-Revokes s before e after new_cache rev rest,
)
