-- ===== src/Lib.antt =====
-- behalf records what AI agents do on somebody's behalf: an agent's calls become signed receipts in
-- a transparency log, an independent witness cosigns the log's checkpoints, delegation chains say
-- on whose authority a call was made, and runs are compared step by step. This library models the
-- parts that decide what may be trusted:
--   Witness (internal/witness): `New` registers log keys (Register); `Cosign` reads a checkpoint
--     (Note: `originLine`, `parseBody`), applies the safety rule (Cosign: `checkConsistent`), and
--     persists the head before it returns a signature (Store: `Record`, `flushLocked`, `OpenStore`).
--     History runs a host through submissions, flushes that fail before or after the rename, and
--     restarts from the state file.
--   Aat (internal/aat/aat.go and verify.go, internal/dsse/jwk.go): hops, tokens (Jws) and `Verify`,
--     which gives every hop of a chain one of three states, and `Weakest`, the rollup.
--   Why (internal/why/chain.go): grants, `compareV1` and `CheckScope`. Why.Tools
--     (internal/why/aat_i4.go): `CompareGrantsDetail`, which `Verify` calls to compare a hop with its
--     parent: JSON values (Value), decoding (Json), `parse` (Constraint), `subsumes` (Subsumes),
--     `readTools` (Entry) and `compareAAT` (Compare), with the arguments that a constraint accepts
--     (Accepts) and the invocations that a tool map permits (Permits), after the vendored draft.
--   Diff (internal/diff/align.go): the aligner of two runs, with both tiers and the anchored blocks.
--   Index (internal/index/index.go): `lookupCanonical` and `record`, which mark the leaves that hold
--     a receipt again, with the SQL that they run and the unique index on canonical rows.
--   Tlog (internal/tlog/epoch.go, promise.go, tlog.go): the epoch file, which lets one holder of a log
--     directory append; `BeginAppend` and `Wait` (Append), which check it and write to Index; appends one
--     after the other (Append.Sequence) and two that overlap (Append.Race); and promises.
--   Dsse (internal/dsse/dsse.go): the bytes that are signed.
--   Proxy (internal/proxy/jsonrpc.go and policy.go): the terminators of lines, what routing reads of
--     a message, and the class of risk that the tool policy gives a call.
--   Spool (internal/spool/spool.go): the segments of the local queue, `scanSegment` (Segment),
--     `appendLine` and `rotate` (Writer), `Drain` with its cursors and renames (Drain) and `Recover`
--     (Recover); a directory is the list of its segments by name, and an error of the file system is
--     an argument.
--   Encoding: the functions of Go's encoding and strings packages that these parts use.
-- What a file system, an index or the log's storage may fail at is an argument of the operation that
-- it serves. Aat takes the comparison of grants as an argument; Why defines it. All parts use Prelude.
--
-- Numbers: Go's int and int64 are integers with the wrap of an addition written out where one can
-- occur; uint64 counters wrap. Strings and byte slices are lists of numbers. Maps are association
-- lists, and where the order of a range over a map shows in the result that order is an argument.
-- `parse` counts the levels left, 33 at the top, since the code refuses a deeper constraint,
-- `subsumes` carries the code's budget of 200,000 steps, and a number is printed with itself as
-- fuel, which is more than it has digits. No other definition needs fuel: every loop is over a
-- list, or counts a number down (the trace of `needlemanWunsch` goes down one row, one column or
-- both in each step).
--
-- Parameters: the signed-note and Merkle-proof libraries (Env in Witness.Cosign), SHA-256, Ed25519
-- and JSON (Crypto in Aat.Hop, Keys in Tlog.Promise), math/big (Rational in Why.Grant, with the
-- laws of a total order), encoding/json under the tool maps (Json in Why.Tools.Json) and in the
-- records of the spool (Codec in Spool.Segment, with the span of an envelope),
-- float64 (Float in Diff.Align, without laws) and path.Match (an argument in Proxy.Policy).
-- Not modelled: the prose of reasons and errors, network and command-line code, HTML export, the
-- OIDC login flow (its report is data here), hooks, the log's storage (Tessera gives a new entry the
-- size of the log as its index), the scanner of JSON spans, and the verifier in Rust.
pub mod Prelude
pub mod Encoding
pub mod Dsse
pub mod Witness
pub mod Aat
pub mod Diff
pub mod Why
pub mod Proxy
pub mod Spool
pub mod Tlog
pub mod Index
