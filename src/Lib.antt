-- ===== src/Lib.antt =====
-- zta-core: a zero-trust authorization core in Go, modelled and verified.
--
-- A policy enforcement point (PEP) stands before a protected service. It checks the calling workload
-- (L0), the route (L1), the revocation list, and asks the policy decision point (PDP) about the
-- request (L2), or honours a decision token that the PDP minted earlier. The PDP validates the request
-- against the AuthZEN contract, lets an engine decide (Rego policies, or relationships in OpenFGA) and
-- attaches a token on allow. CAEP signals feed the revocation list.
--
-- Which file models what, by paths from the repository's root:
--   Base, Base/*           errors and results, tests on numbers, Go's strings functions
--   Json, Json/*           values of encoding/json, Go maps, their sorted and printed form
--   Base64, Signed         base64url, and the format body.signature of both kinds of token
--   Http                   the part of net/http that the code uses, writeJSON, http.Error
--   Authzen, Authzen/*     authz/authzen/types.go and validate.go: types, JSON form, Validate
--   Token, Token/*         authz/token/token.go: Issue, Verify, ResourceDigest
--   Engine, Engine/*       authz/engine: New, NewFromBundle, Eval and parseDecision over a result set
--   Pdp, Pdp/*             authz/pdp/pdp.go: Evaluate, assemble, toObligations, toInput
--   Caep, Caep/*           signals/caep: the cache, Sign and Verify, the receiver, the transmitter
--   Pep                    authz/pep/pep.go and enforce.go: New, matchRoute, peerIdentity, buildRequest
--   Pep/Check, Pep/Check/* authz/pep/enforce.go: Check, classify, tryDecisionToken
--   Pep/Middleware         authz/pep/middleware.go: the reply of each outcome
--   Pep/Reuse, Pep/Minted  the fast path, alone and over the tokens that the PDP mints
--   Pep/Genuine            what stands behind a decision token that is presented
--   Pep/Sanction           the PEP and its PDP together: who granted what is allowed
--   Rebac                  authz/rebac/rebac.go: Eval over OpenFGA
--   Api                    authz/api/handler.go: the endpoint over HTTP
--   PdpClient              authz/pdpclient/client.go: the PEP's client of that endpoint
--   Grpc                   authz/grpcpdp: the same over gRPC
--   Sidecar                cmd/zta-pep/main.go: configuration, wiring, mux, the edge's rewriting
--   Sidecar/History        the sidecar over any sequence of requests and accepted events
--   Sidecar/System, Sidecar/Admission
--                          all of it together: sidecar, PEP, signals, PDP and SVIDs
--   Sidecar/Start          cmd/zta-pep/main.go: from the configuration file to the listener
--   Services, Services/*   services: PDPService, PDPHandler, where mTLS material comes from, gRPC over mTLS
--   PdpServer              cmd/pdp/main.go: the PDP's process
--   Spiffe, Spiffe/*       identity/spiffe: the authority, sources and their rotation, PEM files; and an
--                          SVID before the PEP (Spiffe/Peer)
--   Policies               policies/policies.go: the embedded modules and data
--   Bundles                policystore/bundlestore/s3.go and cmd/bundlepush/main.go
--   Caep/Command           cmd/caepemit/main.go
--   Mocks                  testsupport/mock/mock.go
--   Tests, Tests/*         runs on small inputs
--
-- State is passed on explicitly: the revocation cache is a value that each event maps to the next, the
-- request is returned with its body as the check leaves it, a check returns the list of the calls that
-- it made, and a command that changes the object store returns the state that it leaves. What happens
-- in any order is a relation: the requests that a sidecar gets (Sidecar/History), and the ticks and the
-- close of a rotating source (Spiffe/Rotation), each with the states that can be reached. An error is a
-- value of `Result`; a panic of the PEP is `none`. Every loop is a structural recursion on its list; the
-- printing of a number n has fuel n + 1, and each round divides it by ten.
--
-- Parameters stand for code that is not in the repository: SHA-256 and HMAC (a mac is a list of bytes),
-- the JSON codec of the claims and of events (what was marshalled unmarshals to the same value),
-- decoding of JSON and YAML text, OPA, the HTTP exchanges, google.protobuf.Struct, crypto/x509 and
-- go-spiffe (a certificate keeps its template, times to the second), the file system, minio-go (at one
-- endpoint a read gives what was put last), the environment, and the PEP's dependencies where its
-- configuration has them. Times are nanoseconds since 1970, read once where the code reads the clock. The text of an error
-- leaves out the values that it prints, and the text of a foreign error, where no theorem speaks of it.
--
-- Not modelled: the generated protobuf code, logging, contexts and timeouts, locks (each operation of the
-- cache and of a rotating source is one step), the TLS handshake itself, the reverse proxy, parsing of
-- flags, negative token lifetimes, the test fixture of the policies and the Rego policies themselves.
pub mod Base
pub mod Json
pub mod Base64
pub mod Signed
pub mod Http
pub mod Authzen
pub mod Token
pub mod Engine
pub mod Pdp
pub mod Caep
pub mod Pep
pub mod Rebac
pub mod Api
pub mod PdpClient
pub mod Grpc
mod Tests
pub mod Sidecar
pub mod Services
pub mod Spiffe
pub mod Policies
pub mod Bundles
pub mod PdpServer
pub mod Mocks
