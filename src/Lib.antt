-- ===== src/Lib.antt =====
-- dlna-proxy: announces a remote DLNA media server on the local network by SSDP, and proxies TCP
-- connections to it, rewriting the URLs in its HTTP responses.
--
-- The program's parts, the files that model them, and how they interact:
--
-- src/tcp_proxy.rs: Proxy and its children.
--   Proxy: TCPProxy (TcpProxy, url_base, new, start), handle_conn as its two tasks (Proxy.Relay).
--   Proxy.Listen: listen_loop as a step relation (Step, Reach) over the phase of the accept loop, the
--     semaphore's free permits and the number of running handler tasks. The environment chooses the steps.
--     Proxy.Listen.Clients has the same loop with its clients (Serve, Serving) and with what handle_conn does for
--     each of them; Proxy.Listen.Counts takes the clients away from it again.
--   Proxy.Header: should_rewrite_content, update_content_length, and what the header loop of
--     proxy_response_with_rewrite notes of each line (Head, note_line).
--   Proxy.Chunk: read_line_bytes, parse_chunk_size, pass_through_chunked, read_chunked_body,
--     write_chunked_body, and the copying loop (forward) that occurs twice in the source.
--   Proxy.Response: proxy_response_with_rewrite. One function per stretch of the loop's body: read_headers,
--     then respond with its three branches stream_rest, pass_response and rewrite_response; continue is true
--     and return is false. Proxy.Response.Message is a specification of it by messages,
--     and Proxy.Response.Client reads what was sent as a client does. Proxy.Response.Io says of which calls on
--     the connection the task is made (Io), for what holds on streams that are not well formed too.
--     Proxy.Response.Parts and Proxy.Chunk.Panics say of any stream where headers, bodies and chunks end in it.
-- src/ssdp/packet.rs: Ssdp.Packet (SSDPPacket is SsdpPacket, its Display is fmt).
-- src/ssdp/utils.rs: Ssdp.Utils (InteractiveSSDP: fetch_endpoint_info, send_alive, send_ok, send_byebye).
-- src/ssdp/listener.rs: Ssdp.Listener (parse_ssdp, listen_task); Ssdp.Listener.Task has the task as a relation
--   (Serves), Ssdp.Listener.Own the program's own notices among what it receives.
-- src/ssdp/broadcast.rs: Ssdp.Broadcast (do_ssdp_alive, broadcast_task, wait_for_shutdown_signal,
--   shutdown_handler).
-- src/ssdp/mod.rs: Ssdp.Sockets (ssdp_sockets, on each system) and Ssdp.Manager (SSDPManager, main_task).
-- src/config.rs: Config (get_config, sockaddr_from_url).
-- src/main.rs: Main (main: try_from, init_logging, then the proxy with TCPProxy::start, then the SSDP manager,
--   whose main_task runs on), with Main.Announce and Main.Forward for the running program, and Logging
--   (init_logging and the text of a log line).
-- Witness holds the theorems at concrete inputs, and Witness.Tests the source's own unit tests of
-- tcp_proxy.rs, packet.rs and listener.rs, evaluated on the model (the last for a parser that returns what
-- httparse documents for their packets; those of utils.rs only run quick_xml's parser, which is a
-- parameter). Common and Text hold what the parts share: lists, Boolean tests, and the operations of str,
-- String and usize that the source calls.
--
-- The world outside. Net models a proxied connection for the response task: the bytes that the origin will
-- send and how its stream ends, the sizes that the network chooses for the reads, what was sent to the
-- client, and how much the client still takes. Net.Ends and Net.After are postconditions for programs on it
-- (of what a program has read and left, and of when it panics), with a rule for each step of a do block; the
-- modules called Ends and Panics apply them to each function. The calls of tokio on the connection
-- (read_until, read_exact, read, write_all, copy) have the contract of the calls of these names in std::io,
-- for sockets; an error is the value of an operation, and so is a panic. What reqwest, quick_xml, httparse,
-- toml, url, chrono and the resolver return are parameters: World and its fields, the parser given to
-- parse_ssdp, Outside, UrlOps and Platform. A datagram socket is the list of what it has sent, with a field
-- of World that says whether it takes a datagram.
--
-- Numbers. usize and u64 have 64 bits; the sums and products that can exceed them are written with % 2 ^ 64,
-- as in a release build, and parsing digits is checked. A text is its list of code points, with
-- UTF-8 coding, strict and lossy decoding in Text.Utf8. Lower case is exact for the ASCII letters in the
-- result, which is all that the program looks for; the other letters are kept.
--
-- Fuel. The loops on a connection run on fuel: the bytes that the connection still has, plus one
-- (with_fuel), or the bytes that remain to be copied (forward). Each round of a loop reads at least one
-- byte or ends, and no_fuel is an outcome of its own. Printing a number has its value plus one.
--
-- Not modelled: what fern and the logging macros write, clap's parsing of the command line, the packaging,
-- TLS of the HTTP client, the exact moment at which concurrent tasks run (the two directions of a
-- connection and the two SSDP tasks have states of their own and do not share data).
pub mod Common
pub mod Text
pub mod Net
pub mod Proxy
pub mod Ssdp
pub mod Config
pub mod Logging
pub mod Main
pub mod Witness
