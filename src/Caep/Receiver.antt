-- ===== src/Caep/Receiver.antt =====
-- signals/caep/http.go, the receiving side: `Receiver.Handler`, with the revocation cache for
-- its sink.
pub mod Laws
use zta_core.Base.{String, Option, none, some, [], Result, ok, err}
use zta_core.Base.Text.Trim.{trim_space}
use zta_core.Signed.{Hash, Codec}
use zta_core.Http.{Body, read_all, Reply, http_error}
use zta_core.Caep.Cache.{Event, Cache, apply}
use zta_core.Caep.Tokens.{Signer, verify}

-- `w.WriteHeader(http.StatusAccepted)`
abbrev pub accepted : Reply
accepted = record { status = 202; headers = []; body = "" }

abbrev pub ingest : Cache → Result Event → Reply × Cache
ingest c (err e) = (http_error "invalid SET" 401 [], c)
ingest c (ok e) = (accepted, apply e c)

module _ (H : Hash) (C : Codec Event) where
  abbrev pub receive_text : Signer → Cache → Option String → Reply × Cache
  receive_text s c none = (http_error "read error" 400 [], c)
  receive_text s c (some text) = ingest c (verify H C s (trim_space text))

  -- The handler: its reply, and the cache that it leaves.
  unfoldable pub receive : Signer → Cache → Body → Reply × Cache
  receive s c body = receive_text s c (read_all body).0
