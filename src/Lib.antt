-- ===== src/Lib.antt =====
-- The crate cfdkim (DKIM, RFC 6376): verification of the DKIM-Signature headers of an email, and
-- signing. Files are named from the repository's root.
--
-- The parts, from the bottom:
-- - Bytes (src/bytes.rs): find, get_all_after, replace, replace_slice. Children: Bytes.Find,
--   Bytes.Replace, and Bytes.Skip (a text with another put in front of it).
-- - Canonicalization (src/canonicalization.rs): the simple and the relaxed form of a body and of a
--   header. Each `while` loop and each `retain` is a function of its own. Children: Blank (empty
--   lines at the end), Spaces, Body, Form and Open (the relaxed body), Value and Value.Folding
--   (the relaxed value), Visible (what is kept), Ends (the loops end).
-- - Nom: the combinators of the crate nom as an interface with their documented laws.
-- - Parser (src/parser.rs): the grammar of tag lists and the values of c= and a=. Parser.RoundTrip
--   is about printed lists.
-- - Header (src/header.rs): DKIMHeader, its serialization and its builder. The IndexMap is an
--   association list (Map). Header.Print, Header.ReadBack and Header.Line are about the text that
--   is built, Header.Reach about the builders that its operations make.
-- - Hash (src/hash.rs): the hash of the body, the choice of the signed headers and their hash.
--   Hash.Numbered and Hash.Select are about the loop of select_headers, Hash.Prepend about an
--   email with one more header on top, Hash.Transit about emails with the same signed headers,
--   Hash.Bounds about the two places that cut bytes off, Hash.Length about l=.
-- - Validate (validate_header of src/lib.rs), one function per check. Children: Checks and
--   Complete (which headers are valid), Domain, Expiry, Panics, Statuses.
-- - PublicKey (src/public_key.rs, src/dns.rs, DkimPublicKey of src/lib.rs). Children: Retrieve,
--   Complete and Refused (how the retrieval of a key ends), Stored, Statuses.
-- - Verify (the rest of src/lib.rs): one signature (verify_signature, verify_email_header), and
--   the loops over an email's headers (verify_email_with_resolver, verify_email_with_key). A round
--   of a loop is a value of type Flow: go on, go on with an error to remember, or return.
--   Children: Signature (one signature), Same, Collision, Integrity and Transit (what of an email
--   a signature is about), Loop, Round and Remembered (the loop), Verdict (what one header is to
--   it), Steps and Refines (the loop as steps from header to header), Email, Refusals, Reported
--   and Answered (its results), Agree (the two loops against each other), Safe and Panics,
--   Statuses and Reasons.
-- - Sign (src/sign.rs): SignerBuilder and DKIMSigner; `signed_header` is `sign` up to the text it
--   formats. Sign.Built is about the builder, Sign.Steps names the tags of the header, Sign.Erase
--   is about its b=, Sign.Verifies and Sign.Accepted are about the verifier on it, Sign.Delivered
--   and Sign.Passes about the whole email with the line on top, Sign.Transit about one that has
--   been passed on, and Sign.Reach about the signers that the setters make.
-- - DkimResult (src/result.rs) and Error (src/errors.rs). Outcome is Rust's Result with panics as
--   a third case: `unwrap` on None, an addition of chrono that overflows, `unreachable!`.
--   Error.NoPanic and Error.Statuses hold a predicate on outcomes each, with one rule for each way
--   to build an outcome: the rulesets no_panic_rules and verdict_rules, which `search` applies.
-- - Str (what is used of `str` and of the number parsers of the standard library), Externals (the
--   other crates as interfaces; a law that only some theorems need is a definition beside them, as
--   KeepsMatches for mailparse), Prelude (shared names and lemmas).
-- - Tests: runs at concrete inputs. Tests.Crates, Tests.Combinators and Tests.Unary have toy
--   definitions of the crates; Tests.Real has SHA-1, SHA-256, SHA-512, base64, RSA with PKCS #1
--   v1.5, Ed25519 and the headers of a mail after their standards. Unfolding Tests.Program opens
--   all of the program for a run. Tests.Repository holds every test of the repository, by its
--   name, as the type of what it asserts, with its run at the definitions of Tests.Real.
--
-- How the parts meet: an email's headers named DKIM-Signature go through validate_header, which
-- parses the tag list; the key comes from the caller or from a DNS record, itself a tag list; the
-- body and the headers named in h= are canonicalized and hashed, and the key checks the signature.
-- The signer writes a header with the same functions.
--
-- Bytes are natural numbers, a `str` is its UTF-8 bytes, and `usize` has 64 bits where a number is
-- parsed. The features "dns" and "time" are on, but for verify_email, which is modelled both with
-- "dns" and without. The clock is an argument: the time at which the header with a given number is
-- validated, and the time of the signer.
--
-- Fuel: each loop of the canonicalization takes the length of its input as fuel and drops a byte
-- per round; replace_slice takes the length of its source and one more, since each round moves on
-- in the source. The trimming of a text takes its length, and the conversion of a number to
-- decimal digits takes the number and one more. All else is structural recursion.
--
-- Not modelled: logging; the debug_assert! of get_required_tag that the name is a required tag,
-- which every caller passes; the asynchronous runtime (awaiting a future is calling it); the
-- crates that are not in the repository (nom, chrono, mailparse, rsa, ed25519-dalek, sha1, sha2,
-- base64, the DNS resolver), which are interfaces; the rest of the build without the features
-- "dns" and "time"; the time that a run takes and the reading of key files (the keys of test/keys
-- stand in the tests).
pub mod Prelude
pub mod Error
pub mod Bytes
pub mod Str
pub mod Canonicalization
pub mod Nom
pub mod Parser
pub mod Externals
pub mod Map
pub mod Header
pub mod Hash
pub mod Validate
pub mod DkimResult
pub mod PublicKey
pub mod Verify
pub mod Sign
pub mod Tests
