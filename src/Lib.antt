-- ===== src/Lib.antt =====
-- A network monitor for OpenWrt routers, src/*.c. It captures frames, parses them, keeps the traffic
-- of a sliding window of five seconds and the flows of the current window, and at the end of each
-- window raises alerts and hands a batch of telemetry to an upload thread.
--
-- The parts, and the files that model them:
--
--  * Parser: `parse_packet` of src/packet_parser.c. The buffer is the list of the bytes received, a
--    read outside it is `none`, and a frame that is not for the agent is `some none`. Parser/Names,
--    Safety, Qname, Frame and Query are about the name loop, every frame, names on the wire, frames in
--    their parts, and DNS queries. Packet holds `struct parsed_packet`.
--  * PacketWindow: src/packet_window.c, a circular buffer of records with running totals. Model has its
--    abstract view, Totals, Refine and Rolling the proofs.
--  * FlowTable: src/flow_table.c. `add`, `top` and `reset` in FlowTable; the scan detection,
--    `flow_table_scan_fanout`, with its hash set in FlowTable/Fanout. The entries in use are a list, so
--    its length is the field `count`. Flows, Add, Tally and Top are about the entries; Fanout/Bits,
--    Count and Best about the scan.
--  * Stats: src/traffic_stats.c, 64-bit counters.
--  * FxRing: src/fx_ring.c, the last packets for an alert's forensics.
--  * Detector: src/anomaly_detector.c, thresholds and alerts. Decimal holds what `strtoull`, `%llu` and `%d`
--    of C do with decimal numbers.
--  * Uploader: src/uploader.c, the queue between the capture loop and the upload thread. Refine is about
--    each operation, Steps about the two threads together, Drain about the thread's loop.
--  * Telemetry: `run_job` of src/uploader.c, the requests of one batch; Order is about their order, Texts
--    about the bodies of one batch, Batches about those of all batches of the capture loop. What these
--    need of the other parts is in Parser/Clean, FlowTable/Plain, DnsWindow/Counts, FxRing/Sizes,
--    PacketWindow/Bounds and MainLoop/Reportable.
--  * DnsWindow: src/dns_window.c, how often each client asked for each name.
--  * Roster: src/client_roster.c, the private addresses seen lately and the clients of the lease file.
--    Lookup and History are about the table of addresses, Leases about the file.
--  * MainLoop: src/main.c. The packet filter and `flush_window`, which puts the batch together from the
--    other parts, are in MainLoop; the arguments and the configuration that the program begins with in
--    MainLoop/Start; the capture loop in MainLoop/Loop; the lines that are printed in MainLoop/Console;
--    `main` as a whole in MainLoop/Program. Alerts is about a batch, Windows, Holds, Batches and Fits about
--    the whole loop, Exit about the end of the program.
--  * Capture, Logger and IsoTime: src/packet_capture.c, src/logger.c and src/iso_time.c.
--  * Json: `json_escape` of src/backend_client.c, with a reader of JSON strings in Json/Reader.
--    Json/Value has JSON values and their tokens, Json/Lexer reads the tokens of a text, and Json/Pieces
--    is about the parts that the bodies are made of.
--  * Backend: src/backend_client.c. Load has the configuration, Register the registration, Usage the
--    percentages of a heartbeat, Bodies the requests with a body of fixed parts and Batch those with a
--    list. A request is a path and a body, which `http_post_json` takes with the configuration. Fits,
--    Identity, Restart, Whole, Closed and Batches are the proofs; Format, Objects, Requests, Reports and
--    ListBodies give the bodies as JSON values.
--  * Http: src/http_client.c. Requests and responses in Http, POST over a plain socket in Http/Plain,
--    over mbedTLS in Http/Tls, and GET through a shell command in Http/Get. Transfer, Released, Request and
--    Shell are about the sending, what is given back to the system, the request's text, and the command.
--  * Rules: src/rules_client.c. What is read of a response is in Rules, `rules_client_fetch` and
--    `sync_ruleset` of src/main.c in Rules/Fetch.
--  * Base and Ring: lists, bytes, C strings, tests, and the list that a circular buffer holds.
--
-- The capture loop parses a frame, and gives the packet to the packet window, the flow table and the
-- forensics ring, and a DNS query to the DNS window. At the end of a window the detector checks the
-- snapshot of the packet window, the flow table supplies the flow of each alert and the scan signal, and
-- the batch goes to the uploader.
-- The upload thread makes the requests of a batch one after the other and, once a minute, fetches the
-- thresholds of the detector.
--
-- Machine integers wrap around as written in the definitions; a `time_t` is a natural number, and an
-- `int` that may be negative, the seconds of a window, is the number of its 32 bits. Character
-- arrays that hold C strings are the bytes before the terminator. A circular buffer is a function from
-- indices to its entries.
--
-- Loops that are not structural take fuel. The name loop takes the buffer's length and one more, and
-- each of its rounds moves on by at least one byte; the eviction takes the number of records, and each
-- round removes one. A decimal number of 64 bits takes twenty digits. The loop of the upload thread takes
-- the number of its sections under the mutex; while nothing new is submitted, as many are enough as jobs
-- wait.
--
-- Taken as parameters are `inet_ntop`, of which only the length of its text is assumed and, where it is
-- put into a body, that it needs no escape there, `getenv`, the
-- contents of files, `gmtime_r` and `strftime`, the formatted time where it is put into a body, the lines
-- of the lease file as `sscanf` splits them, the numbers that are read of /proc, and the shell. The
-- results of the calls of sockets and of mbedTLS, and what the capture loop receives, are lists in the
-- order of the calls, so each loop over them ends; a call behind the end of a list fails, and the end of
-- what is received is the signal that stops the program.
--
-- Not modelled: null pointers other than that of `iso_time_format`, the log messages of all parts but
-- `main` itself, the races on the `volatile` thresholds, the timeouts of sockets and the certificate
-- settings of mbedTLS, which have no result that the code reads, and what `vprintf` does with a format.
pub mod Base
pub mod Packet
pub mod Stats
pub mod Ring
pub mod Decimal
pub mod FxRing
pub mod PacketWindow
pub mod FlowTable
pub mod DnsWindow
pub mod Roster
pub mod Parser
pub mod Logger
pub mod IsoTime
pub mod Capture
pub mod Detector
pub mod Uploader
pub mod Http
pub mod Json
pub mod Backend
pub mod Rules
pub mod MainLoop
pub mod Telemetry
