-- ===== src/Lib.antt =====
-- Anzdrop, a file sharing service with encryption in the browser: its core, and what makes it right.
--
-- The browser cuts a file into chunks, encrypts each under AES-GCM with additional data that ties
-- it to its file and place, and sends the byte stream in parts through the upload routes to R2.
-- Rows in D1 keep the shares, the open upload sessions, their parts and the finished files. Whoever
-- has the address of a share lists its files, fetches their bytes, whole or by ranges, and decrypts.
-- The plan of an account limits sizes and retentions; payments decide the plan.
--
-- Crypto: lib/crypto. Crypto/Types, Packet and Aad model types.ts, packet.ts and aad.ts, function by
--   function; Crypto/Cipher is AES-GCM of WebCrypto, a record with two laws: decrypting undoes
--   encrypting under the same IV and additional data, and the ciphertext is the text and 16 bytes.
--   Crypto/Stream models stream.ts: a generator is the list of what it yields with the way it ends,
--   the random salt and IVs are arguments, and the buffered reader (fillTo, peek, drop) is a record.
--   The loops run on fuel: the file's size for the chunks, and one more than the number of bytes
--   for decryption, since each round takes a byte or ends.
--   The packet size is a parameter there. The abort signal is left out.
-- Auth: lib/timingSafeEqual.ts, with the token test that share-auth.ts, uploadSessionAuth.ts and the
--   complete route write.
-- In Plan: lib/retention.ts, lib/limits.ts and lib/plan.ts. A time is a number of milliseconds.
-- Billing: lib/billing/cardPlan.ts on lists of accounts and prepayments, lib/stripe-subscription.ts, and in
--   Billing/Webhook the handling of events in server/routes/billing/stripe/webhook. What Stripe answers and what
--   other requests do while a handler waits for Stripe are arguments; a handler gives the tables and
--   whether it returned or threw. Billing/Webhook/Once has the deliveries of one event, one after the other.
-- Client: `repartition` of lib/upload/chunkUploader.ts; the part size is a parameter, and a fuel of the
--   pending length drains it, since each round takes a part. Client/Repartition/Stored sends the parts
--   through Server/Upload/Chunk.
--   Client/Uploader: the pool of workers of the same file, as a relation of steps in any order; a part's
--   retries are loops over what the rounds meet, with as many rounds as there are attempts.
--   Client/BufferAhead: lib/asyncBuffer.ts, with its producer, its consumer and an abort as steps in any order.
--   Client/Download and Client/Windows: lib/download/parallelFetch.ts. A request is the sequence of what its
--   attempts meet. The ordered stream of windows is a relation of steps (a fetch ends with
--   what `fetchWindow` makes of its answer, the consumer pulls, the consumer cancels) in any order; `pump` takes as many rounds as there are windows. Times are left out.
-- Server: the routes server/routes/upload/start, chunk, part-ack and complete, server/routes/download/[shareId]
--   and server/routes/file/[fileId], with lib/share-auth.ts and lib/upload/uploadSessionAuth.ts.
--   Server/State has the rows of the tables and the calls made of R2; a route is a function from its
--   context, its request and this state to the new state and a reply. A refusal is its status, and
--   a thrown error is 500, as lib/api/handler.ts answers. SQL is written out on the lists. What
--   comes from outside is an argument: the clock, the ids that are drawn, what R2 and D1 answer,
--   the verdicts of the rate limiter and of Turnstile, and the session. Complete has what other
--   requests do while R2 works as an argument; Server/Download/Counting follows one file through
--   requests and ends of streams, in any order, as a relation of steps.
-- Cleanup: lib/cleanup.ts with lib/storage/cleanupBudget.ts, on the rows of Server/State and a bucket. R2 is the
--   record Storage, whose laws say that an abort and a look touch no object, that a look tells the truth
--   and that a deletion removes the objects given and no others; each of its calls may fail. Which calls of D1
--   throw is a list, and a batch is one transaction. Cleanup/World is the monad of these jobs with the ceilings
--   in force and a count of the statements and calls of R2, made where they are made, Cleanup/Triple the rules by which they are proved. The slices of deleted keys run on
--   the number of keys, since each takes one at least, and the pages on the number that is allowed.
--   No other request runs during a clean-up. SQLite's order of ids is a parameter.
-- Base/Lists and its siblings: lists over native numbers, Boolean tests, texts and bits, shared by all of them.
--
-- A file's size is a natural number, below the 2^53 where JavaScript's arithmetic is exact. Not
-- modelled: the part URLs, accounts, the other routes of billing, administration, statistics, the
-- pages, and the zod schemas, which a request is taken to have passed.
pub mod Auth
pub mod Base
pub mod Billing
pub mod Cleanup
pub mod Client
pub mod Crypto
pub mod Plan
pub mod Server
