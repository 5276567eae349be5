-- ===== src/Lib.antt =====
-- wdbgp is a BGP speaker that turns feeds of IP prefixes into routes for each user's router. A feed
-- is downloaded and parsed (internal/feeds), the operator's lists restrict and punch holes into its
-- prefixes (internal/prefixfilter), the store (internal/store) keeps the result, and the BGP
-- manager (internal/bgp) announces it over sessions whose messages are built and read by the wire
-- codec. Alerts, settings, the web interface and the command put these parts together.
--
-- The development models the prefix filter, the wire codec, the routes and the session of a peer,
-- the retries, the alerts and the settings.
--
-- Netip is net/netip as the code uses it. An address is its family and one number of 32 or 128
-- bits; a prefix is an address and a length, and is valid if the length fits the family. Zones and
-- the invalid address do not occur. `masked` clears the host bits, `contains` compares the high
-- bits, `block_size` is the number of addresses. Netip.Laws has their laws, and Netip.Cover what a
-- list of prefixes covers: `covered` for any of them, `hits` for how many.
--
-- PrefixFilter is internal/prefixfilter/filter.go. Subtract has `children` and `subtract`, whose
-- loop takes one round for each bit by which the denied prefix is longer. Normalize has
-- `normalize`, with both ways to drop covered prefixes: `normalizeSimple` with a map of the
-- accepted ones (a list here), and `normalizeWithTrie` with the binary trie, a tree whose null
-- pointer is `nil`. sort.Slice is an insertion sort by the same order, and the set of seen prefixes
-- is a list in the order of the input. Apply has `Apply` and `intersect`; `none` is the error of
-- too many routes, and a limit of zero or below is written 0. Aggregate is aggregate.go of the same
-- directory, on natural numbers instead of big.Int; its loop over a range takes one round for each
-- address that the range has. Exclude is exclude.go: an exclude set has two sorted lists, and
-- sort.Search is the index of the first exclude behind the prefix.
--
-- Bgp.Wire is internal/bgp/wire_types.go, wire_encode.go and wire_decode.go. A byte is a number
-- below 256 and a writer or a reader is a list of bytes; numbers wrap to their fields as Go's
-- conversions do. Types has the messages and one constructor for each error of the decoder, Bytes
-- the big-endian numbers and the bytes of an address, Prefixes the NLRI, Attributes the path
-- attributes, and Messages the messages with `ReadMessage`, which gives the message and the bytes
-- that stay in the reader. Each loop of the decoder runs on rounds, one for each byte that it has
-- and one more for the loops over capabilities and parameters: the constructor `stuck` is no error
-- of the program and stands for a loop that ran out of them. Decided has the rules by which a
-- decoder is shown not to get stuck. `As4` on the address of an IPv4 next hop panics on an IPv6 one
-- in Go; here the low four bytes are taken, and the theorems ask for an IPv4 address there.
--
-- Bgp.Resync is internal/bgp/peer_routes.go with writeConn of peer_fsm.go. A peer is the record of
-- the fields of `Peer` that the routes use, and `established` stands for a connection in the
-- established state. Each operation takes the peer and the connection and gives whether it
-- succeeded, the peer and the connection; a resync holds sendMu throughout and is one step. The
-- connection has the outcomes of the writes to come, all good once the list is used up, and the
-- messages written, whose bytes are those of Bgp.Wire. The map of groups is the list of groups in
-- the order of their first routes, with the parts of the key string compared one by one. Table is
-- the remote side by RFC 4271 and RFC 4760: which prefixes it holds after the messages that it
-- received. A write that fails part of the way also closes the connection, so that later writes
-- fail: the outcomes may be any list, this one among them.
--
-- Bgp.Session is internal/bgp/peer_fsm.go: both handshakes and the main loop, as functions of what
-- the connection reads and of whether the writes of the handshake succeed. UPDATE messages are
-- written by Bgp.Resync, the other messages stand in a list of their own. The main loop runs for as
-- many turns as it is given, and `none` says that the session still runs. No other call of the peer
-- comes between the steps of a session.
--
-- Retry is internal/retry. Breaker is circuitbreaker.go: its operations are steps that take the
-- time of the clock, the kind of a result (`TransientError` of its error) is given, and Invariant
-- lets calls start and end in any order. Manager is the map of breakers by name. Attempts is `Do`
-- of retry.go: the function, the check of an error and the context are functions of the attempt or
-- the error, the random part of a delay is a function of the delay, and the loop runs on the
-- attempts that are left.
--
-- Alerts is the checks of the users' prefix counts. State is internal/store/user_prefix_alerts.go:
-- the row of one user in user_prefix_alert_state, `none` if there is none, with the evaluation, the
-- lookups and the marks as functions of the row, the clock and whether each statement succeeds.
-- Counts and times are not negative. Checker is internal/alerts/alerts.go: `run` is a check of all
-- users, in one step for the delivering side, and `advance` is one step of a goroutine that runs
-- deliverLoop, which stops between the re-check of a message, which the webhook's answer follows,
-- and its mark. The rows of the store are a function of the user. The map of queued messages is a
-- list in the order of insertion; Go gives it to the next pass in any order.
--
-- Settings is internal/settings/setting.go, whose two kinds of settings, `Simple` and `Complex`,
-- share the parts that the source writes twice. A setting is its value, its callbacks by number,
-- and the table of the database as a function of the key; `set`, `reset` and their forms in a
-- transaction take whether the write succeeds. The value of a transaction is published after its
-- commit. The environment does not change while the program runs. Validators has the checks of
-- numbers.
--
-- Bgp.Routes is `buildRoute` of internal/bgp/route.go, after the texts are parsed. Bgp.Manager is
-- the loop of reconcileLocked in internal/bgp/manager.go that announces the routes of each peer,
-- with its map peerRoutes. Store.IpCodec is internal/store/ipcodec.go, without the forms that parse
-- a text: an address is its 4 or 16 bytes.
--
-- Web.Session is the tokens of internal/web/session.go as their parts between the dots. The HMAC
-- and the hexadecimal forms are the standard library's, a record of functions of which IsCodec
-- states what the code relies on.
--
-- Not modelled: the dial, the deadlines and the backoff of a session, the peers of the manager, the
-- speaker and TCP MD5 of internal/bgp, the words of transient errors in internal/retry, the posts
-- of alerts, feeds, the list of settings and the checks of their texts, the rest of the store and
-- of the web interface. The texts of errors and the log lines are left out.
pub mod Prelude
pub mod Netip
pub mod PrefixFilter
pub mod Bgp
pub mod Retry
pub mod Settings
pub mod Store
pub mod Web
pub mod Alerts
