-- ===== src/Lib.antt =====
-- zdh, an HTTP/2 server in Go with no dependencies (RFC 9113, RFC 9218), modelled in parts.
--
-- The parts and how they meet. A connection's reader goroutine takes frames off the socket
-- (internal/frame) and hands those that name a stream to the stream table (internal/stream/table.go),
-- which keeps the state of each stream (internal/stream/stream.go), decodes header blocks through a
-- codec, debits and credits receive windows (internal/flow/window.go), and credits the send half
-- (internal/flow/sender.go), from which the goroutines that write responses take what they may send.
-- A token bucket (internal/limits/bucket.go) bounds how often a peer may reset a stream.
-- The goroutine itself (internal/server/conn.go) reads, dispatches, answers settings and pings, and
-- buffers priorities of streams that are still to come (internal/priority/pending.go). The codec of
-- header blocks is internal/hpack. Static files (internal/static) are named by request targets and
-- sent whole or in ranges. The fields of a request are checked and read by internal/request. A response (internal/response) is checked, encoded by one encoder of the
-- connection and written frame by frame against the credit of its stream.
--
-- Where each part is:
--   H2                     internal/h2/types.go: errors with their scope, fields, `Outcome`
--   Flow.Window            internal/flow/window.go; its children are Bounds and Ledger
--   Flow.Sender            internal/flow/sender.go; its children Validity, Resize, Credit, Streams
--   Limits, Limits.Bucket  internal/limits/bounds.go and bucket.go; its child Rate
--   Frame.Types, Header    internal/frame: the frames, and the nine octets before each
--   Frame.Wire, Padding    octets and slices; padding.go
--   Frame.Payload          the writing methods of all frame types: type, flags, length, payload
--   Frame.Parse            the parsers of all frame types, and the table of them
--   Frame.WellFormed, RoundTrip, ParseSafety
--                          frames that a peer may send; written and read; any octets read
--   Frame.Reader           internal/frame/reader.go; its children Names, Blocks and
--                          Continuity are about header blocks, Progress about the loop,
--                          Preface about the client preface
--   Stream.State           internal/stream/stream.go, and the interfaces of table.go
--   Stream.Table           internal/stream/table.go: the state, queries, settings, the end of a
--                          response; its children Credit (receive credit), Blocks (header blocks)
--                          and Handle (the other frames, `HandleFrame`) define the rest
--   Stream.Table.Invariant, Drains, Safety, Preservation, Dispatch, History
--                          what holds between two frames, step by step and over histories
--   Stream.Table.InStep    the table's header block beside the reader's; its child Handling
--   Stream.Table.Decoding  when the header decoder runs; its child Whole
--   Stream.Table.Lifecycle the state diagram, and its children Moves, Opening and Frames
--   Hpack.Dynamic          internal/hpack/dynamic.go; its children Eviction and History are
--                          about what it holds, Search about `find`
--   Hpack.Static, Integer, Codec, Decode
--                          internal/hpack/static.go, primitives.go, encoder.go and decoder.go; the
--                          children of Integer, Codec and Decode read what is written, part by part,
--                          and Hpack.RoundTrip whole blocks
--   Priority.Pending       internal/priority/pending.go; its child Ahead
--   Server.Conn            internal/server/conn.go: state and handlers; its child Run is the loop and
--                          Serve; Sound says what holds between two frames; Settling, Arriving,
--                          Dispatching, Reports and Safety are about what keeps it
--   Static.Request         what internal/static reads of a request; entity tags of etag.go
--   Static.Ranges, Path    internal/static/ranges.go and path.go; their children Bounds and Safety
--   Request.Fields, Parse  internal/request/fields.go and request.go; the children of Parse are Gathering,
--                          Sources, Target and Sound
--   Exchange.Body          internal/exchange/body.go; its child Order
--   Response.Fields        internal/response/fields.go; its children Shape and Exact
--   Response.Encoder       internal/response/encoder.go; its child Delivery is about the frames of a
--                          block, Sections and Frames about those of a section
--   Response.Writer        internal/response/writer.go; its children Order, Content and Lending
--   Base.Text              the functions of Go's strings package; its child Split
--   Tests                  concrete runs
--
-- How Go is read. A method that returns an error is a function into `Outcome`: the state with a nil
-- error (`done`), the state with an error (`failed`, since a Go method may have changed the state
-- before it fails), or a panic. A map is an association list; a pointer to a stream is its
-- identifier. A uint32 is a natural number, with `% 2 ^ 32` where Go narrows; an int64 window is an
-- integer (its bounds are in `Flow.Window.Bounds`). A mutex makes each method one step; the reports of
-- other goroutines are events between two frames. The clock is an argument.
--
-- What is a parameter: the header codec, the request handlers, the response encoder and the frame
-- writer, which the table and the connection know by interfaces, are records of operations over states
-- of their own, with no law assumed of them. So is the Huffman code in Hpack.Codec, with the law
-- `Lossless` where a theorem needs it, and the parser of the priority field in Request.Parse. The
-- socket and the clock are in the turns of Server.Conn.Run.
--
-- Every loop is a structural recursion, on a list or a count, but for these. ReadFrame discards frames
-- of unknown types: its fuel is one more than the octets that are left, and each of its rounds takes
-- nine or more. The loops over a header block and over a range-set take an octet or more in a round,
-- and their fuel is the octets; so do the loops that cut the block or the content of a response into
-- frames. An integer of a header block has ten groups of seven bits at most.
--
-- Not modelled: texts of errors; sockets, TLS, certificates, files and flags; and so far the Huffman
-- code, the scheduler of the frame writer, the registry of requests, the priority field, and the
-- answers and preconditions of static files.
pub mod Base
pub mod H2
pub mod Flow
pub mod Limits
pub mod Frame
pub mod Stream
pub mod Hpack
pub mod Static
pub mod Priority
pub mod Server
pub mod Response
pub mod Request
pub mod Exchange
mod Tests
