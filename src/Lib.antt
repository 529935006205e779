-- ===== src/Lib.antt =====
-- erase.to: one-time encrypted notes and files. The browser client and the command line client
-- encrypt a package on the device, buy its upload with a proof of work, and hand out a link; the
-- service stores the ciphertext, and deletes it when it expires or was retrieved. This library models
-- the TypeScript code of the clients.
--
-- The parts, in the order in which a package goes through them:
--   shared/types.ts        Types: the limits, the inputs and the values of the protocol, `Result` for
--                          what a function returns or throws.
--   shared/encoding.ts     Encoding.Utf8: `encodeText` and `utf8`, over UTF-8 as TextEncoder and the
--                          fatal TextDecoder do it. Encoding.Base64Url: `toBase64Url` and
--                          `fromBase64Url`, over btoa and atob. Encoding.Links: `makeShareLink`
--                          and `parseShareLink`. Encoding.Header: `validatePolicy`,
--                          `serializeHeader` and `parseHeader`, over the values of Json.
--                          Encoding.Packet: `parsePacket`, and the packet that `create` writes.
--   shared/content.ts      Content.Names: `normalizeFilename` and `normalizeMime`. Content.Pack and
--                          Content.Unpack: the envelope that is encrypted. Wire has the typed arrays
--                          and the big-endian views that they use.
--   shared/index.ts        Protocol: `create`, `prepareOpen`, `decrypt` and what they call.
--                          Proof: `solveProof` and its search. Both use Digits.
--   web/src/lib/api.ts     Transport: `readBounded`, and `bytes` of cli/client.ts, the two readers of
--   cli/client.ts          the service's answers. Answers: the checks of api.ts on them.
--   web/src/lib/session.ts Session: `SensitiveSession`, which clears what the page holds.
--                          ObjectUrls: the class of that name, which holds download addresses.
--   web/src/lib/controllers.ts  Reader: `Reader`, the controller of the page that opens a package, with
--                          its calls in Reader.Loading, Reader.Retrieval and Reader.Copies, and what can
--                          happen to it in Reader.Events. Page has what it awaits.
--   web/src/lib/text-metrics.ts  TextMetrics: the counter of a draft's bytes and lines.
--   web/src/lib/worker.ts  Worker: `CryptoWorker`, the page's end of the worker that encrypts.
--   web/src/lib/crypto.worker.ts  Jobs: the worker's own end, with the listener of messages in
--                          Jobs.Messages. It calls Protocol, Proof, Encoding.Links and Origins.
--   web/src/lib/worker-hkdf.ts   Origins: `workerHkdf`, and `canonicalI2pOrigin` of
--                          web/src/lib/site.ts: on which pages the worker encrypts.
--   web/src/lib/theme.ts   Theme: `ThemeController`, with the storage that pages share.
--
-- The names are those of the source, in snake case. A string is the list of its UTF-16 code units, a
-- byte array the list of its bytes, and a number a natural number: the code tests that the numbers it
-- takes are safe integers, and no sum of them comes near 2 ^ 53. The retrievals that Reader shows as
-- left are a whole number, since it counts them down without a test. Code that throws gives an `err`.
-- A method of a class is a function from the object to the object, and what it reports to its
-- surroundings is part of the result or of a log. Each piece of code that runs without a break
-- (a method call up to its first wait, what follows a wait, a listener, a timer, a microtask) is one
-- step, in which the clock stands still; a sequence of events is a list of steps in any order.
--
-- Parameters stand for what the code uses from elsewhere: the tables of Unicode (NFC, lower case), the
-- source of random bytes, `new URL`, `JSON.parse`, libsodium and HKDF, SHA-256, the abort signal and
-- the clock at each turn of the search, the parts that a stream delivers, whether the owner of a
-- session alone holds data, what the worker, the service and the clipboard answer to Reader, and
-- whether the browser's theme is dark. Assumed of the tables of Unicode (`UnicodeLaws`): NFC is
-- idempotent, lower case keeps lower-case ASCII as it is, and a text whose lower case is ASCII is as
-- long as it. Assumed of `new URL`: it keeps the path and the fragment of a share link behind the
-- origin; of `JSON.parse`: it reads the text of a header as the members written in it. Assumed of
-- libsodium and HKDF (`SodiumLaws`): the sizes of what they give, that hexadecimal digits are decoded
-- to what they encode and back, that `memcmp` compares, and that decryption undoes encryption under
-- the same key, nonce and additional data. Argon2 may be refused its memory, and then throws; whether
-- it is depends in the model on its arguments alone, so a passphrase that was stretched when a note
-- was created is stretched again when it is opened. Nothing is assumed of their secrecy, and nothing
-- is stated of it. Buffers that are wiped when they are no longer used are values here.
--
-- Loops: those over lists are structural. The count of a chunk has as fuel the distance to its end,
-- which each turn shortens. The search has as fuel the number of nonces left, as the source bounds it,
-- and the decimal digits of n take n + 1 rounds at most. None of them ends for want of fuel.
--
-- Not modelled: the controller of the page that creates a package, the requests, and the command line,
-- which rest on much code from elsewhere; the Svelte components, which are markup; and the service, a
-- Rust program of its own, which the clients see through its answers.
pub mod Prelude
pub mod Types
pub mod Wire
pub mod Digits
pub mod Json
pub mod Encoding
pub mod Content
pub mod TextMetrics
pub mod Transport
pub mod Answers
pub mod Session
pub mod ObjectUrls
pub mod Proof
pub mod Theme
pub mod Worker
pub mod Origins
pub mod Protocol
pub mod Page
pub mod Reader
pub mod Jobs
