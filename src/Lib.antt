-- ===== src/Lib.antt =====
-- metaText, a peer-to-peer messenger: models of its protocols and of the state that its transports keep,
-- and the theorems that make them correct.
--
-- The program. The core process owns the peers' network and serves the front ends over a local socket.
-- crates/meta-text-proto holds what both sides share: the frames of that socket (src/ipc/framing.rs), its
-- constants and errors (src/ipc/protocol.rs) and the validators of text (src/ipc/validation.rs).
-- crates/meta-text-backend holds the transports: network.rs speaks to peers over TCP, transport.rs and
-- tox_store.rs over Tox, trust.rs remembers the identities that TCP peers announce, identity.rs keeps our
-- own and agrees keys with it, and crypto.rs seals what a transport carries. A name that a peer
-- sends goes through validation.rs; a payload for a Tox friend that is offline waits in the outbox of
-- transport.rs, which tox_store.rs publishes to a file and which the next run reads.
--
-- The files.
--   Prelude: lists, options, results, the state monad of fallible code, big-endian bytes, texts as lists
--     of code points, association lists for hash maps.
--   Io: byte streams as a record of operations with laws for a healthy stream; Io/ListStream is one.
--   Hex: the hexadecimal codec as a record of operations with laws; Hex/Digits is one.
--   Ipc/Protocol, Ipc/Framing, Ipc/Validation: the three files of crates/meta-text-proto/src/ipc, by
--     their function names. Framing/Verdict and Framing/Stream compare the reader with the wire format.
--   Net/Frame: encode_frame, encode_message_frame, decode_message_id and read_frame of network.rs.
--   Net/Peers: the tables of NetworkManager and Shared in network.rs, and queue_frame, queue_to,
--     peer_senders and dispatch_to. Net/Sending: send_ciphertext_to_peer, enqueue, prune_outbox and
--     flush_outbox, which is take_queue, send_entries and put_back. Net/Keys: pair_keys, connection_keys,
--     decrypt_from, and NetworkManager::contact_key as peer_contact_key. Net/Dispatch: dispatch with one
--     accept_ function per kind of frame. Net/Connection: register, announce, read_loop, whose rounds are
--     read_frames and whose clean-up is disconnect, and the desired peers.
--   Core/State, Core/Contacts, Core/Messages, Core/Groups: the handlers of CoreService in
--     crates/meta-text-core/src/ipc/core.rs, by their names; Contacts/Requests runs them one after another.
--     on_message_received is the first branch of on_app_event.
--   Crypto: CryptoManager of crypto.rs and contact_key; Crypto/Plain has primitives that compute.
--   Identity: NetworkIdentity, EphemeralKey, pair_key and IdentityStore of identity.rs.
--   Trust: PinStore of trust.rs, with observe, persist and snapshot; Trust/Restore is load and restore.
--     The decision that observe takes under the lock is decide, what it does after it is settle.
--   Server: TokenBucket and PeerBudgets of crates/meta-text-core/src/ipc/server.rs: `bucket` is
--     TokenBucket::new, `acquire` its try_acquire, default_budgets PeerBudgets::new, and make_room and charge the
--     two halves of its try_acquire. Server/Rate is about a bucket, Server/Table about the table.
--   Tox/State: the tables of ToxTransport in transport.rs and the stored state of tox_store.rs.
--   Tox/Outbox: prune_outbox, pop_outbox, flush_outbox, enqueue and queued_messages.
--     Outbox/Interleaving has the steps that the bridge task and the actor may take in turn, as events on
--     the shared tables, one for each piece that runs under the lock, and the direct send of send_payload,
--     which does not look at the tables.
--   Tox/Requests: keep_pending and the arrival, the refusal and the acceptance of a friend request.
--   Tox/Send: resolve_friend, send_payload and the branch of forward_event for a friend that comes online.
--   Tox/Store: ToxStore::load and restore_state.
--   Tui/Commands: the parser of crates/meta-text-tui/src/commands.rs. Commands/Spelled has the
--     line for each command.
--
-- Parameters. The tokio streams and channels, serde_json, the hex crate, the ciphers, the curve and the key
-- derivation functions, random bytes, the arithmetic of f64, the clock, the Tox client and the answers of the file system are arguments, with what their documentation says as hypotheses. The conversions of
-- case of the standard library are functions that are given; the conversions of ASCII letters are defined.
-- A lock that `try_read` finds taken shows no identity, as the code treats it.
-- A time is in nanoseconds since the Unix epoch.
--
-- Numbers are natural numbers. A counter that is an AtomicU64 wraps at 2^64 as in the source, and a length
-- that is cast to u32 is below the limit of a frame where it is cast.
--
-- Fuel. The loop of flush_outbox is given one round more than the queue has payloads, which is enough,
-- since each round but the last takes one of them. The other loops are structural recursion.
--
-- Not modelled: the sockets and tasks, the logs, the database, the bindings of toxcore, the core actor, the handshake and the connections of its socket, the client, the configuration, the loading of a session (which restores contacts without a check of their number), the groups and invitations of Tox, the front ends but for their command parser. The text of an error is its constructor
-- and its parts.
pub mod Prelude
pub mod Core
pub mod Crypto
pub mod Hex
pub mod Identity
pub mod Io
pub mod Ipc
pub mod Net
pub mod Server
pub mod Trust
pub mod Tox
pub mod Tui
