-- ===== src/Tests/Signals.antt =====
-- CAEP: the cache, the tokens, the receiver and the transmitter.
use zta_core.Base.{
  ℕ, String, Bool, true, false, ◌≡◌, ◌≢◌, ◌↔◌, ◌⊎◌, refl, inl, inr, Option, none, some, List, [],
  ◌∷◌, ◌==◌, map, Result, ok, err, arith, Error,
}
use zta_core.Base.Text.{cut}
use zta_core.Base.Text.Trim.{trim_space}
use zta_core.Base64.{Bytes, decode}
use zta_core.Http.{Body, stream, failing}
use zta_core.Caep.Cache.{Event, Cache, new_cache, apply, is_revoked, apply_all}
use zta_core.Caep.Cache.Laws.{StandsRevoked, is_revoked_iff}
use zta_core.Caep.Tokens.{Signer, sign, verify}
use zta_core.Caep.Receiver.{accepted, receive}
use zta_core.Caep.Receiver.Laws.{receive-cases, receive_again}
use zta_core.Caep.Transmitter.{Delivery, answered, emit}
use zta_core.Caep.Transmitter.Laws.{FirstError, reachable, emit-posts}
use zta_core.Tests.Toys.{toy_hash, event_codec}

abbrev revoked_event : Event
revoked_event = record { kind = "session-revoked"; subject = "u-1"; issued_at = 5 }

abbrev restored_event : Event
restored_event = record { kind = "session-restored"; subject = "u-1"; issued_at = 4 }

abbrev hub : Signer
hub = record { secret = "k" }

is_revoked_iff_example :
    (is_revoked (apply_all (revoked_event ∷ restored_event ∷ []) new_cache) "u-1" ≡ true)
    ↔ StandsRevoked "u-1" (revoked_event ∷ restored_event ∷ [])
is_revoked_iff_example = is_revoked_iff "u-1" (revoked_event ∷ restored_event ∷ [])

signed_event : sign toy_hash (event_codec revoked_event) hub 5000000000 revoked_event ≡ ok "Bw.AQ"
unfolding sign zta_core.Signed.seal zta_core.Base64.encode
signed_event = refl

verified_event : verify toy_hash (event_codec revoked_event) hub "Bw.AQ" ≡ ok revoked_event
unfolding verify zta_core.Signed.unseal cut decode
verified_event = refl

receive-cases_example :
    ((text : String) × (e : Event) × (◌≡◌ {A = Body} (stream "Bw.AR") (stream text))
      × (verify toy_hash (event_codec revoked_event) hub (trim_space text) ≡ ok e)
      × ((receive toy_hash (event_codec revoked_event) hub new_cache (stream "Bw.AR")).0.status
          ≡ 202)
      × ((receive toy_hash (event_codec revoked_event) hub new_cache (stream "Bw.AR")).1
          ≡ apply e new_cache))
    ⊎ (((◌≡◌ {A = Body} (stream "Bw.AR") failing)
          × ((receive toy_hash (event_codec revoked_event) hub new_cache (stream "Bw.AR")).0.status
              ≡ 400)
          × ((receive toy_hash (event_codec revoked_event) hub new_cache (stream "Bw.AR")).1
              ≡ new_cache))
        ⊎ ((text : String) × (x : Error) × (◌≡◌ {A = Body} (stream "Bw.AR") (stream text))
            × (verify toy_hash (event_codec revoked_event) hub (trim_space text) ≡ err x)
            × ((receive toy_hash
                  (event_codec revoked_event)
                  hub
                  new_cache
                  (stream "Bw.AR")).0.status
                ≡ 401)
            × ((receive toy_hash (event_codec revoked_event) hub new_cache (stream "Bw.AR")).1
                ≡ new_cache)))
receive-cases_example =
    receive-cases toy_hash (event_codec revoked_event) hub new_cache (stream "Bw.AR")

received_restored :
    (receive toy_hash (event_codec restored_event) hub new_cache (stream "Bw.AQ")).0.status ≡ 202
unfolding receive verify zta_core.Signed.unseal cut trim_space decode
received_restored = refl

receive_again_example :
    (e : Event) × ((later : Cache)
      → receive toy_hash (event_codec restored_event) hub later (stream "Bw.AQ")
        ≡ (accepted, apply e later))
receive_again_example =
    receive_again toy_hash (event_codec restored_event) hub new_cache (stream "Bw.AQ")
      received_restored

abbrev post_all : String → String → Delivery
post_all url set =
    zta_core.Base.if◌then◌else◌ (url == "http://a")
      (Delivery.failed (zta_core.Base.message "refused")) (answered 202)

emit-posts_example :
    FirstError post_all "Bw.AQ"
      ("http://a" ∷ "http://b" ∷ [])
      (emit post_all toy_hash
        (event_codec revoked_event)
        hub
        ("http://a" ∷ "http://b" ∷ [])
        5000000000
        revoked_event).0
    × ((emit post_all toy_hash
          (event_codec revoked_event)
          hub
          ("http://a" ∷ "http://b" ∷ [])
          5000000000
          revoked_event).1
        ≡ map (λ u. (u, "Bw.AQ")) (reachable post_all "Bw.AQ" ("http://a" ∷ "http://b" ∷ [])))
emit-posts_example =
    emit-posts post_all toy_hash (event_codec revoked_event) hub ("http://a" ∷ "http://b" ∷ [])
      5000000000 revoked_event "Bw.AQ" signed_event
