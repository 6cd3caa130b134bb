-- ===== src/Lib.antt =====
-- vpnproxy relays TCP connections through a WireGuard tunnel of its own. A listener accepts a client on
-- a port; the host that the client is after is sniffed from its first bytes (a TLS ClientHello or an
-- HTTP request); the host is resolved by DNS through the tunnel, behind a cache that the connections
-- share; and the bytes are copied both ways. The program also reads the status of its WireGuard peers
-- and finds, lists and writes their configuration files.
--
-- The parts, and the files that model them:
-- - Base: names of the libraries, tests on numbers, lists measured by native numbers. Go: what the
--   program uses of the packages strings (Text), strconv, net (Net) and time (Duration, an int64 as its
--   bit pattern, with the wrap-around).
-- - Relay, for relay.go. Slice has Go's slices with their capacity, and code that may panic; Post the
--   rules for what such code returns. Sni is parseSNI, statement by statement, Http is parseHTTPHost,
--   Peek is peekHostname and the reader that replays, Conn is relayConn as the list of its effects,
--   Splice the interleavings of its two copies and the ends of the peers' streams, and Serve is
--   serveRelay.
-- - Resolver, for resolver.go. Ip has the tests on addresses, Query is queryDNS, Retry is queryDNSRetry
--   and budget, Lookup is lookup, Literal the first part of Resolve, and Shared the rest of it with
--   lookupShared: a state of cache, lookups in flight and callers, and a step for what a goroutine does
--   under one lock or on one channel. Service puts lookup and these steps together, and Spec is what
--   Resolve promises to its callers.
-- - Main, for main.go: parsePorts, and in Run run, as the calls that it makes, with requireElevated of
--   priv_darwin.go and priv_windows.go.
-- - Wireguard, for wireguard.go: parsePeerStatuses, peerStatuses, in Peers waitForHandshake,
--   logPeerStatus and anyPrefixContains, and in Describe describePeers and routeInterface. Report writes
--   down what a device reports.
-- - Tunnel, for tunnel_darwin.go: startTunnel and configureInterface, as the calls that they make; and
--   in Windows the same of tunnel_windows.go, with the socket options of both systems in Bound.
-- - Bind, for bind_darwin.go: Open, Close, Send, ParseEndpoint and the receive function, with the open
--   sockets as a state.
-- - Config, for config.go: configDirs and findConfig, in Regions what runList finds, and in Command its
--   flags and output, and configDirUsage.
-- - Vault, for vault.go: writeConfigs and writeFileAtomic, on files as a state; in Kv kvRead and
--   kvMount, in Client do, tokenValid and vaultError, in Html htmlEscape, in Login oidcLogin with its
--   callbacks, and in Fetch runFetch with the tokens that it finds and saves, and openBrowser. Contents
--   has what the files are to hold.
-- - Tests: runs on concrete inputs, and the theorems at inputs where their hypotheses hold.
-- The parts meet as in the program: Conn calls Peek, which calls Sni and Http; Lookup calls Retry, and
-- that Query; in Service what lands in Shared is what Lookup found. Run starts the tunnel and serves
-- with the resolver's settings, Serve starts a Conn for each connection, and Fetch calls Client, Login,
-- Kv and the writing of the files.
--
-- Fuel: the loop of parseSNI runs on one more round than the extensions have bytes, since each round
-- takes four of them at least; waitForHandshake on one more poll than reaches the deadline; the decimal
-- print on one more round than the number. The theorems show that this is enough.
--
-- Parameters: the packages dnsmessage, flag, json, url and http, netip.ParseAddr, netip.ParsePrefix,
-- netip.ParseAddrPort, net.IP.String, the Unicode case tables of strings.ToLower beyond ASCII,
-- filepath.Join, the files that exist, the Vault server, the results of the calls into the operating
-- system and wireguard-go, the network, the clock and the random source. Texts are lists of bytes, and
-- the machine is a 64-bit one.
--
-- Not modelled: log lines other than those of logPeerStatus, the texts of errors other than those of
-- vaultError, usage texts, and main, which prints the error of run. The interplay of describePeers with
-- a failed lookup, whose log line it ends, is left out with that line.
pub mod Base
pub mod Go
pub mod Relay
pub mod Resolver
pub mod Main
pub mod Wireguard
pub mod Tunnel
pub mod Bind
pub mod Config
pub mod Vault
mod Tests
