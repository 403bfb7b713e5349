-- ===== src/Tests/Identity.antt =====
-- A workload gets its SVID, keeps it fresh, stores it, and shows it to a sidecar.
use zta_core.Base.{
  ℕ, ◌≡◌, refl, ◌≤◌, true, ◌==◌, none, some, [], ◌∷◌, arith, ok, err, message, if◌then◌else◌,
}
use zta_core.Base.Int.{pos}
use zta_core.Spiffe.{Certificate, Library, Svid, Entropy, SpiffeId, id_text, mint}
use zta_core.Spiffe.Laws.{Issued, mint-Issued}
use zta_core.Spiffe.Source.{Source, rotating_source}
use zta_core.Spiffe.Rotation.{
  Rotating, get_x509_svid, initial, ticked, ticking, begin, tick, close, Runs, rest, and_then, made,
}
use zta_core.Spiffe.Rotation.Invariant.{Reach-Held, tick-valid}
use zta_core.Spiffe.Files.{Files}
use zta_core.Tests.Issuance.{
  work, toy_library, toy_library-IsX509, authority, authority-IsAuthority, dice, worker,
}

abbrev at_100 : ℕ
at_100 = 100000000000

worker_minted : mint toy_library authority at_100 dice work ≡ ok worker
unfolding mint
worker_minted = refl

mint-Issued_example : Issued toy_library authority at_100 work worker
mint-Issued_example =
    mint-Issued toy_library toy_library-IsX509 authority at_100 dice work worker
      authority-IsAuthority worker_minted

-- A source that has begun, then ticked once in vain, and was closed.
abbrev blocked : Entropy
blocked = record { key = err (message "entropy"); int_below = λ n. none }

abbrev begun : Rotating
begun = record (initial (some worker)) { phase = ticking }

abbrev hour : ℕ
hour = 3600000000000

later : (n m : ℕ) → n ≤ n
later n m = omega arith

source_made :
    rotating_source toy_library authority work at_100 dice
    ≡ ok (
      (record {
        svid = zta_core.Spiffe.rotated;
        bundle = zta_core.Spiffe.roots (zta_core.Spiffe.bundle toy_library authority);
        td = "t";
      }),
      some worker,
    )
unfolding rotating_source zta_core.Spiffe.Source.remint mint
source_made = refl

abbrev after_tick : Rotating
after_tick = ticked toy_library authority work hour blocked begun

life :
    Runs toy_library authority work
      (pos hour)
      at_100
      (initial (some worker))
      hour
      (record after_tick { cancelled = true })
life =
    and_then
      (and_then (and_then rest (omega arith) (begin at_100 refl refl)) (omega arith)
        (tick hour blocked refl))
      (omega arith) (close hour)

Reach-Held_example :
    (m : ℕ) × (svid : Svid) × (m ≤ hour)
    × (get_x509_svid (record after_tick { cancelled = true }) ≡ some svid)
    × Issued toy_library authority m work svid
Reach-Held_example =
    Reach-Held toy_library toy_library-IsX509 authority authority-IsAuthority work (pos hour) hour
      (record after_tick { cancelled = true }) (made at_100 dice source_made life)

abbrev fresh : Rotating
fresh = ticked toy_library authority work at_100 dice begun

tick-valid_example :
    (svid : Svid) × (c : Certificate) × (get_x509_svid
        (ticked toy_library authority work hour blocked fresh)
      ≡ some svid)
    × (svid.certificates ≡ c ∷ [])
    × (c.uris ≡ work ∷ [])
    × (c.not_before ≤ hour)
    × (hour ≤ c.not_after)
unfolding ticked
tick-valid_example =
    tick-valid toy_library toy_library-IsX509 authority authority-IsAuthority work (pos hour) at_100
      hour dice worker begun (ticked toy_library authority work hour blocked fresh) worker_minted
      (and_then rest (omega arith) (tick hour blocked refl)) (omega arith)

abbrev stored : Files
stored q = if q == "key.pem" then some "key" else if q == "cert.pem" then some "cert" else none
