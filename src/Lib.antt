-- ===== src/Lib.antt =====
-- Verification of Nozdormu, a CDN edge proxy in Rust: its decision logic, translated from the
-- sources and proved. A file of this library names the source files it translates; paths are from
-- the root of the repository.
--
-- The parts, and how they interact:
-- Prelude -- the shared names. Tests and Lists (Booleans, options, lists over the native numbers),
--   Text (`str` as the list of its code points, with the methods that the program calls), Decimal
--   (`format!` and `parse::<u64>`), Map (HashMap and DashMap as association lists), Member.
-- Range -- crates/cdn-proxy/src/range.rs. `parse_range_header`, `resolve_range`, `check_if_range`,
--   `slice_body` and the header values. Children: Parsing, Resolving, Conditions.
-- Health -- crates/cdn-proxy/src/health.rs. `HealthChecker` is a record with the map of
--   `OriginHealth`; each method is a function that returns the new record. Children: Key (the map's
--   keys), Origin (the automaton of one origin), Store (the map refines the automata).
-- Rand -- crates/cdn-proxy/src/utils/rand.rs, the xorshift generator, its state passed explicitly.
-- Balancer -- crates/cdn-proxy/src/balancer.rs, which asks Health and Rand. `Balancer` is the mutable
--   part of `DynamicBalancer`. Select, Ring, Weight and Peer translate the algorithms, the hash ring,
--   the effective weights and `select_peer`; the other children prove.
-- Cache -- crates/cdn-cache/src/strategy.rs and key.rs, over the CacheConfig of
-- crates/cdn-common/src/types.rs. The thread-local cache of compiled patterns is passed explicitly
-- (`RegexCache`). Regexes, Rules, Directives, Decisions and Key translate; Longest, Chosen, Sorting
-- and Paths prove.
-- Ingest -- crates/cdn-ingest/src/store.rs and manifest/blocking.rs. `LiveStream` is the record of
-- one live stream; its write lock makes each call one step, and the players' calls interleave with
-- the encoder's in any order. Store translates `LiveStreamStore`, whose map holds handles into a heap
-- of streams. The children Ring, Available, Waiting and Streams prove.
-- Config -- crates/cdn-config/src/live_config.rs: the indexes of domains and the choice of a site for
-- a host. Routing proves.
-- Cc -- crates/cdn-middleware/src/cc: rules and counter keys, bans and counters (State), the challenge
-- cookie and page (Token, Page), the engine (Check). The caches of the moka crate and the signing are
-- the interfaces `TtlCache` and `Signing`. Counting and Limit prove.
-- Mp4 -- crates/cdn-streaming/src/packaging/mp4_parse.rs. Atoms translates the iterator over atoms and
--   `find_atom`, Entries the tables, Tracks and Movie the boxes up to `parse_mp4`, Samples the
--   functions on samples, chunks and times; the other children prove. An `Outcome` is a value, an
--   error, a panic or an endless loop.
-- Redirect -- crates/cdn-middleware/src/redirect: the redirects of a site (domain.rs, protocol.rs), the
--   rules on URLs (Url) and the three tiers (Engine). The cache of patterns shares its eviction with
--   that of Cache. Patterns, Sanitizing and Settling prove.
-- Waf -- crates/cdn-middleware/src/waf/ip.rs and mod.rs: the sets of address blocks, over the
--   interface `PrefixSet` of the prefix-trie crate, and the chain of checks. Sets, Places and Chain
--   prove. Geo translates the lookup of geo.rs; Body translates body.rs and proves what it lets through.
--
-- Conventions. A u32, u64 or usize is a number, with its wrap-around written out where the code
-- can wrap (as in a release build). `none` in the result of a function that the code declares
-- without `Option` is a panic, or a loop that never ends; in Mp4 both are outcomes of their own.
-- The clock, random seeds, DNS, the hash functions, the regex engine, the GeoIP databases,
-- Unicode's letter case and the reading of dates are arguments. An f64 is a value of the interface
-- `Floats`, whose laws are those of IEEE arithmetic that the bounds need, and in Mp4 of any type
-- with a division. An atomic counter and an entry of a DashMap change in one step. The decimal
-- printer has one round of fuel more than the number itself, and each round divides it by ten. The
-- loops over atoms have one round more than the buffer has bytes: an offset is at most the length,
-- so a loop of more rounds comes to an offset again, and never ends.
--
-- Not modelled: network, files, TLS, logging and metrics, and the parts that PROJECT.json lists so.
pub mod Prelude
pub mod Range
pub mod Health
pub mod Rand
pub mod Balancer
pub mod Cache
pub mod Ingest
pub mod Config
pub mod Cc
pub mod Mp4
pub mod Redirect
pub mod Waf
