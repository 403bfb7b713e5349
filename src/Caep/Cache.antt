-- ===== src/Caep/Cache.antt =====
-- signals/caep/cache.go, and the event types of caep.go. The map `revoked` is read only through
-- `revoked[subject]`, so it is a function; a deleted key reads as false.
pub mod Laws
use zta_core.Base.{ℕ, String, Bool, true, false, List, [], ◌∷◌, ◌==◌, if◌then◌else◌}

abbrev pub event_session_revoked : String
event_session_revoked = "session-revoked"

abbrev pub event_session_restored : String
event_session_restored = "session-restored"

pub record Event : Type 0 where
  pub kind : String
  pub subject : String
  pub issued_at : ℕ

-- `RevocationCache`
pub record Cache : Type 0 where
  pub revoked : String → Bool

-- `NewRevocationCache`
abbrev pub new_cache : Cache
new_cache = record { revoked = λ _. false }

abbrev pub update : String → Bool → (String → Bool) → String → Bool
update k b f s = if k == s then b else f s

-- `Apply`
unfoldable pub apply : Event → Cache → Cache
apply e c =
    if e.kind == event_session_revoked
    then record { revoked = update e.subject true c.revoked }
    else if e.kind == event_session_restored
    then record { revoked = update e.subject false c.revoked }
    else c

-- `IsRevoked`
unfoldable pub is_revoked : Cache → String → Bool
is_revoked c subject = c.revoked subject

-- The cache after a sequence of events.
unfoldable pub apply_all : List Event → Cache → Cache
apply_all [] c = c
apply_all (e ∷ es) c = apply_all es (apply e c)
