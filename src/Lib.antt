-- ===== src/Lib.antt =====
-- PacketLab captures HTTP traffic in two ways, by a proxy with an interceptor and by a packet
-- sniffer. What is captured goes through a memory ring or a channel to writers, which store it in
-- SQLite; an HTTP interface with a WebSocket hub serves it to the browser.
--
-- The parts, and the files that model them:
--
-- Ring: internal/capture/memring.go, `MemRingBuffer` (`NewMemRingBuffer`, `Push`, `PopBatch`,
--   `Usage`, `Stop`). The indices are uint64 with their wrap written out. Ring/Spec is the queue that
--   the ring promises to be, Ring/Window and Ring/Inv relate the slots to its contents, Ring/Refine,
--   Ring/Drain and Ring/History show the refinement, Ring/New the construction, Ring/Limits the byte
--   limit. A `PopBatch` that waits is a call that returns nothing.
-- Capture/Scan, Capture/Frame: internal/capture/engine.go, the byte helpers and
--   `findHTTPMessageEnd`, `findChunkedEnd`, `parseContentLength`, `parseTransferEncoding`,
--   `truncateBuffer`. Frame/Chunked is about the scan of chunks, Frame/Roundtrip about bodies that a
--   sender has encoded, Frame/Message and Frame/Delimit about whole messages.
-- Capture/Parse: the parsers of that file, `parseHTTPRequest`, `parseHTTPResponse` and what they use.
--   Parse/LastLine is about the end of a header block, Parse/Hosts about hosts in URLs,
--   Parse/Responses about the status codes that are let through.
-- Capture/Sni: `extractSNI` of that file. Sni/Safe shows that it reads in bounds, Sni/Hello, with
--   Sni/Reading, what it reads from a ClientHello.
-- Capture/Stream: `TCPStream` of that file, on top of Capture/Frame, Capture/Parse and Capture/Sni.
--   Stream/Extract is `tryExtractHTTP` and `tryExtractHTTPOnClose`, Stream/Feed is `Feed` and what a
--   stream does when it ends. Stream/Outcomes lists what a round can do, Stream/Ends and
--   Stream/Closes show that the loops end, Stream/Sound, Stream/Feeds and Stream/Bounds what each
--   call keeps, Stream/Exchange what becomes of a request and its response.
-- Capture/Assembler: `Assembler` and `workerLoop` of that file, on top of Capture/Stream.
--   Assembler/Keys is about the key of a stream, Assembler/Evict about the eviction, Assembler/Valid,
--   with Assembler/Chains, and Assembler/Runs about the invariant over any events.
-- Capture/Settings: `New` and the setters of the engine, as cmd/proxy/main.go calls them with a
--   configuration (Config); Settings/Configured brings both parts together.
-- Capture/Writer: internal/capture/memring.go, `AsyncWriterPool.flushAll`, which drains the ring
--   (Ring) into the store (Storage).
-- Storage: what internal/store promises of `Save` and `SaveBatch`, as an interface that the writers
--   take; Storage/Scripted keeps the promises and fails on demand. Storage/Texts:
--   internal/store/store.go, `truncateStr`, with Texts/Runes, Texts/Cuts and Texts/Fits on UTF-8, and
--   `escapeLike`, with Texts/Like on what SQLite reads.
-- Proxy/Rules: internal/proxy/interceptor.go, `matchRule` and the automatic mode of `Handle`.
--   Rules/Spec and Rules/Match say what a match means, Rules/First which rule decides, Rules/Case
--   what is done with capitals.
-- Proxy/Pending: the queue of requests that wait for the user, of the same file: `enqueuePending`,
--   `Resolve`, `awaitDecision`, `writeLog`, `Stop` and the setters, as steps of goroutines on a heap
--   of entries that the queue and the waiting goroutines share. Pending/Inv holds the invariant,
--   Pending/Changes, Pending/Cases, Pending/Enqueue and Pending/Steps its proof, Pending/Decisions
--   what becomes of a decision.
-- Proxy/Decide: what `Handle` and `HandleResponse` do once Proxy/Pending has an outcome. Decide/Kept is
--   about what a decision leaves, Decide/Manual, with Decide/Given, about what goes out.
-- Proxy/Bodies: internal/proxy/proxy.go, `readBodyBounded`, with Bodies/Whole, and `shouldMITM`, with
--   Bodies/Hosts.
-- Proxy/Batch: internal/proxy/batch.go, `BatchWriter`, over Storage: Batch/Kept on any
--   interleaving, Batch/Stopped on `Stop`.
-- Config: internal/config/config.go, `Load`.
-- Api/Limiter: internal/api/middleware.go, `rateLimiter`. Api/Gate: the other middleware of that
--   file, in the order in which internal/api/server.go nests it, around handlers that are a
--   parameter. Gate/Served lists the answers of the chain; Gate/Guards and Gate/Headers go by it.
-- Api/Hub: internal/api/ws.go, `wsHub`.
-- Api/Addresses: internal/api/service.go, the guard on the targets of a resent request: `blockedIP`,
--   `resolveAllowedIP`, `resendDialContext`, `checkResendTarget`. Addresses/Blocks and
--   Addresses/Refused are about the blocks of addresses, Addresses/Guards about what is dialled.
-- Api/Resend: the same file, `Resend`, over Storage, with a client that is a parameter. Resend/Sends is
--   about what is sent, Resend/Stores about what is stored and told and about redirects, Resend/Came
--   about where the answer comes from.
-- Llm/Endpoints: internal/llm/custom_endpoints.go, the registry of the user's endpoints.
-- Llm/Lookup: internal/llm/limits.go and internal/llm/pricing.go, the search by a prefix of the
--   model's name and the table of limits.
-- Models: internal/models/models.go. Prelude: what the parts share.
--
-- Texts are lists of bytes, and the functions of `strings` and `fmt` on them are those on ASCII:
-- upper and lower case, white space, decimal and hexadecimal scans with the ranges of int and uint64.
-- Times are numbers of nanoseconds; maps are association lists, and where a handler ranges over one
-- the model takes the list's order. The ids of rows, the counters of visitors and the lengths of
-- slices are natural numbers, as they stay far below 2^63. The operating system, url.Parse,
-- net.SplitHostPort, uuid, http.NewRequest and http.StatusText are parameters.
--
-- Each worker of the capture engine owns its assembler, so that an assembler is a state that its
-- events change one after the other; the clock is read once for an event. What leaves the engine (a
-- record for the ring, a row that is saved or updated, a message to the hub) is a list, the newest
-- first, and what the store answers to `Save` is any function of the calls so far. A packet is the
-- layers that gopacket decodes, net.IP its kind and its text, and the look-up of a process a parameter.
-- The engine has a ring, as it does once it is started.
--
-- Loops that are not structural run on fuel: the scan of chunks and the scan of header lines take a
-- round per byte and one more, `flushAll` a round per request, `tryExtractHTTP` a round per byte of the
-- server's data and one more, `tryExtractHTTPOnClose` three rounds, `extractSNI` a round per byte, the
-- doubling of `NewMemRingBuffer` 64 rounds; the theorems say that this is enough where a result depends
-- on it.
--
-- Interleavings are lists of steps of the goroutines, and the theorems on them hold for every list. In
-- Proxy/Pending a `Resolve` takes the entry, stops the timer and sends in three steps, between which
-- others can come; Pending/Decisions is about a `Resolve` whose first two steps follow each other. In
-- Proxy/Batch the workers take turns in any order until each returns, during `Stop` too.
--
-- Not modelled: the spread of packets over workers and the start and stop of the engine, libpcap, the
-- look-up of processes, goproxy and TLS, the handlers behind the middleware, the export to HAR, the SQL
-- of the store, the other recognition of language models, and the web front end.
pub mod Prelude
pub mod Models
pub mod Ring
pub mod Capture
pub mod Config
pub mod Api
pub mod Storage
pub mod Proxy
pub mod Llm
