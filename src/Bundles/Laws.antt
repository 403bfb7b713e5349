-- ===== src/Bundles/Laws.antt =====
-- Publication and reading of a bundle, and its retention.
use zta_core.Base.{
  ℕ, String, ◌≡◌, refl, sym, ap, ◌∙◌, ◌↔◌, ◌*◌, ◌≤◌, ◌<◌, Bool, false, Option, none, some, arith,
  Error, wrapped, ◌≢◌, Result, ok, err, wrap, >>=-elim, wrap-eq-ok, ok-injective,
}
use zta_core.Base.Int.{ℤ, pos, int64}
use zta_core.Base64.{Bytes}
use zta_core.Bundles.{
  Address, PutOptions, Object, Minio, retention, Store, new_store, latest_bundle, ensured, upload,
  publish_with, publish,
}

-- The service at an endpoint answers a read, if it does, with the object that was put last, to whichever
-- clients are connected to it.
abbrev pub IsConsistent : Minio → Type 0
IsConsistent M =
    (endpoint k₁ s₁ k₂ s₂ : String) (ssl₁ ssl₂ : Bool) (c d : M.Client) (bucket object : String)
    (content : Bytes) (o : PutOptions) (state left : M.State) (version : String) (got : Object)
    → M.connect endpoint k₁ s₁ ssl₁ ≡ ok c
    → M.connect endpoint k₂ s₂ ssl₂ ≡ ok d
    → M.put_object c bucket object content o state ≡ (ok version, left)
    → M.get_object d bucket object left ≡ ok got
    → ((b : Bytes) → got.content ≡ ok b → b ≡ content)
      × ((v : String) → got.version ≡ ok v → v ≡ version)

err_ne_ok : (e : Error) (v : String) → ◌≢◌ {A = Result String} (err e) (ok v)
err_ne_ok e v h = cc

wrap-pair :
    {S : Type 0} (text : String) (p : Result String × S) {v : String} {left : S}
    → ◌≡◌ {A = Result String × S} (wrap text p.0, p.1) (ok v, left)
    → p ≡ (ok v, left)
wrap-pair {S} text (ok x, s) h = h
wrap-pair {S} text (err e, s) {v} {left} h =
    absurd (err_ne_ok (wrapped text e) v (ap (λ (q : Result String × S). q.0) h))

module _ (M : Minio) where
  -- The call that stored what was published.
  abbrev Stored : Result M.Client → Address → Result Bytes → M.State → String → Type 0
  Stored client a file left version =
      (c : M.Client) × (content : Bytes) × (o : PutOptions) × (state : M.State) × (client ≡ ok c)
      × (file ≡ ok content)
      × (M.put_object c a.bucket a.object content o state ≡ (ok version, left))

  upload-eq-ok :
      (c : M.Client) (a : Address) (file : Result Bytes) (until : ℤ)
      (ready : Option Error × M.State) (version : String) (left : M.State)
      → upload M c a file until ready ≡ (ok version, left)
      → Stored (ok c) a file left version
  upload-eq-ok c a file until (some e, state) version left h =
      absurd (err_ne_ok e version (ap (λ (q : Result String × M.State). q.0) h))
  upload-eq-ok c a (err e) until (none, state) version left h =
      absurd (err_ne_ok e version (ap (λ (q : Result String × M.State). q.0) h))
  upload-eq-ok c a (ok content) until (none, state) version left h =
      (c, content, _, state, refl, refl, wrap-pair "put object" (M.put_object c _ _ _ _ state) h)

  publish_with-eq-ok :
      (client : Result M.Client) (a : Address) (file : Result Bytes) (until : ℤ)
      (state left : M.State) (version : String)
      → publish_with M client a file until state ≡ (ok version, left)
      → Stored client a file left version
  publish_with-eq-ok (err e) a file until state left version h =
      absurd (err_ne_ok e version (ap (λ (q : Result String × M.State). q.0) h))
  publish_with-eq-ok (ok c) a file until state left version h =
      upload-eq-ok c a file until (ensured M c a.bucket state (M.bucket_exists c a.bucket state))
        version left h

  new_store-eq-ok :
      (a : Address) (s : Store M)
      → new_store M a ≡ ok s
      → (M.connect a.endpoint a.access_key a.secret_key a.use_ssl ≡ ok s.client) × (s.address ≡ a)
  unfolding new_store
  new_store-eq-ok a s h =
      >>=-elim
        (wrap "bundlestore: connect" (M.connect a.endpoint a.access_key a.secret_key a.use_ssl)) _ h
        λ client h_client made.
          let is = ok-injective _ _ made in
          (
            wrap-eq-ok _ _ h_client ∙ ap (λ (x : Store M). ok x.client) is,
            sym (ap (λ (x : Store M). x.address) is),
          )

module _ (M : Minio) (consistent : IsConsistent M) where
  -- A bundle that was published and is then read at the same endpoint, from the same bucket and under the
  -- same key, by any client, has the bytes of the file and the version that the publication
  -- reported.
  pub latest_bundle-publish :
      (a at : Address) (file : Result Bytes) (retain_days : ℤ) (now : ℕ) (state left : M.State)
      (version read_version : String) (s : Store M) (read : Bytes)
      → publish M a file retain_days now state ≡ (ok version, left)
      → at.endpoint ≡ a.endpoint
      → at.bucket ≡ a.bucket
      → at.object ≡ a.object
      → new_store M at ≡ ok s
      → latest_bundle M s left ≡ ok (read, read_version)
      → (file ≡ ok read) × (read_version ≡ version)
  unfolding publish latest_bundle
  latest_bundle-publish a at file retain_days now state left version read_version s read h
        same_endpoint same_bucket same_object made h_read =
      let (c, content, o, before, dialled, opened, stored) =
        publish_with-eq-ok M (M.connect a.endpoint a.access_key a.secret_key false) a file _ state
          left version h in
      let (connected, is_at) = new_store-eq-ok M at s made in
      let bucket = ap (λ (x : Address). x.bucket) is_at ∙ same_bucket in
      let object = ap (λ (x : Address). x.object) is_at ∙ same_object in
      >>=-elim
        (wrap "bundlestore: get" (M.get_object s.client s.address.bucket s.address.object left)) _
        h_read
        λ obj h_obj h₁.
          >>=-elim (wrap "bundlestore: read bundle" obj.content) _ h₁ λ found h_found h₂.
            >>=-elim (wrap "bundlestore: stat bundle" obj.version) _ h₂ λ v h_v h₃.
              let got : M.get_object s.client a.bucket a.object left ≡ ok obj =
                rw (bucket, object) at (wrap-eq-ok _ _ h_obj) in
              let (bytes, id) =
                consistent a.endpoint a.access_key a.secret_key at.access_key at.secret_key false
                  at.use_ssl c s.client a.bucket a.object content o before left version obj dialled
                  (rw same_endpoint at connected) stored got in
              let out = ok-injective _ _ h₃ in
              (
                opened
                    ∙ ap ok (
                        sym (bytes found (wrap-eq-ok _ _ h_found))
                        ∙ ap (λ (q : Bytes × String). q.0) out),
                sym (ap (λ (q : Bytes × String). q.1) out) ∙ id v (wrap-eq-ok _ _ h_v),
              )

-- A retention of up to 106751 days, some 292 years, is kept to the day; at twice as many days less one
-- it is not, since the duration has wrapped around.
pub retention-exact_iff :
    (days : ℕ)
    → days < 213504
    → (retention (pos days) ≡ pos (days * 86400000000000)) ↔ (days ≤ 106751)
unfolding retention int64
retention-exact_iff days few = ground arith
