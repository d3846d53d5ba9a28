-- ===== src/Lib.antt =====
-- monocles chat desktop, an XMPP client in Rust: the parts of it that decide on what comes from
-- the network, as functions on lists, records and explicit state, and what is proved of them.
--
-- A stanza arrives at the router of crates/mxc-proto, which hands calls to xeps/jingle.rs and
-- xeps/muji.rs, and encrypted messages to crates/mxc-omemo; what is stored is shown by
-- crates/mxc-app-qt. The front end also scans verification codes, which crates/mxc-proto reads.
--
-- Base holds what the components share: texts as lists of Unicode scalar values with the
-- operations of `str` that the source calls, `HashMap` and a table of the database as association
-- lists with their laws, and `Outcome`, a computation that returns or panics. Dom is the interface of the `minidom` crate,
-- with the laws of its builder as a record and a tree that satisfies them.
--
-- Uri models crates/mxc-proto/src/uri.rs. Utf8 and Percent go down to bytes, since
-- `percent_decode` slices a string at byte offsets and panics inside of a character; Fingerprint
-- has `normalize_fingerprint` and `from_identity_key`, Print `verification_uri`, Parse `parse` and
-- `finish` with its loop (`scan`). `String::from_utf8_lossy` is written out; `i64` is a sign and a
-- number, and `parse::<i64>` tests the bound. The `hex` crate is a parameter.
--
-- Calls models crates/mxc-proto/src/xeps/jingle.rs and muji.rs. The registry `Calls` is a record
-- of maps; a handler is a function on a `World`, which is the registry with a log of its effects:
-- stanzas sent, events emitted, operations of media engines, rows of the call history. Action and
-- Signalling have `handle_message`, `propose`, `accept`, `reject`, `retract` and `hang_up`;
-- Members and Mesh have the members of a conference, `maybe_initiate`, `remesh`,
-- `place_group_call` and `leave_group_call`; Presence has `observe_muji_presence`, Phase has the
-- promise of one call as a machine of three flags, Quiet what the network can do to a client whose
-- user is idle, Session has `handle_iq` over the interface `Negotiation` (the translations of
-- jingle_sdp.rs, the OMEMO sessions that decrypt the fingerprints of a peer's contents, and what
-- the media engine accepts), Upgrade has `accept_video_upgrade` and `decline_video_upgrade` over
-- the description of contents of jingle_sdp.rs, and Stanzas has what is sent. `Env` holds what the
-- handlers read and do not own: the account, the clock, fresh ids, the answers of the store, and
-- whether the media library can create an engine. The account's id is left out, since one
-- account's handlers are modelled. The iteration order of a `HashMap`, which Rust leaves open, is
-- that of the association list. The events `Connected` and `Failed` of an engine's pump are
-- `engine_connected` and `engine_failed`; each runs as one step, and so does a round of the re-
-- mesh timer: the source runs them on one thread, and what could come in between at an `await` is
-- not modelled.
--
-- Sdp models crates/mxc-proto/src/xeps/jingle_sdp.rs, which is behind the first two fields of
-- `Negotiation`: Media has `parse_media` and `sdp_to_contents`, Describe `contents_to_sdp`,
-- Candidate `candidate_to_jingle` and `candidate_to_sdp`. Fresh ids and `str::to_lowercase` are
-- parameters.
--
-- Sce models crates/mxc-omemo/src/sce.rs. Envelope has the envelope, `to_xml`, `body` and
-- `verify_binding`; Reader has the loop of `from_xml`, over the list of events that `quick-xml`
-- makes of a text. That crate's escaping and tokenizer, and the random source of the padding, are
-- parameters.
--
-- Messages models crates/mxc-app-qt/src/messages.rs as far as the Qt model: Urls has the tests on
-- URLs, Item the rows, the items and the attachments, Render `MessageItem::from_row`, Quotes
-- `MessageItem::from_rows`. `Page` holds what stands outside: `serde_json`, `chrono`, the disk,
-- the cache paths, and the upper case of the standard library.
--
-- Messaging models of crates/mxc-proto/src/xeps/messaging.rs what is done to the text and to the
-- envelope of a message, outside of the store: Fallback has `strip_fallback_spans`, Mention
-- `mentions_nick`, Files `build_multi_file_body` and `build_multi_file_payloads` (`Json` is what
-- `serde_json` reads of a file), Binding `check_sce_binding`, `sce_time_reference` and
-- `strip_server_processed`, Open the part of `process_payload` that opens a decrypted envelope
-- with them; the XML parser and the tokenizer of `quick-xml` are parameters there. The spans of a
-- fallback count characters; the search for a nick goes on at a byte offset, and panics inside of
-- a character. `Clock` is the clock and the reading of stamps, of `chrono`.
--
-- Omemo models crates/mxc-omemo (session.rs, bundle.rs, store.rs, lib.rs) with what uses it in
-- crates/mxc-proto/src/xeps/omemo.rs and the queries of crates/mxc-store/src/omemo.rs. Database
-- has the tables with those queries, as functions on a record; Error has `OmemoError` and
-- `Result`. ContextBinding, Bytes, Kmac and Payload go from bytes to `omemo2_seal` and
-- `omemo2_open`: the context binding, the encodings of NIST SP 800-185 with `kmac256`, the key
-- commitment. Bundle has `Bundle::from_xml` over the events of the XML reader. Trust has the
-- identities, Handshake the KEM pre-keys behind an inbound handshake, Establish
-- `establish_session` and `reconcile_pq_pin`, Fingerprint the fingerprints. Caches has the in-
-- memory caches, each with its rules; Devices goes from the device list of a JID
-- (`fetch_device_list`, with `extract_items` of xeps/pep.rs) to `sessions_for`; Sending has
-- `encrypt` and `encrypt_for_recipients`, Receiving `select_key_candidates`, `decrypt` and
-- `decrypt_message`, Healing `heal_session`, `send_heartbeat` and `reconcile_pq_pin_if_missing`,
-- Prekeys `maintain_bundle`, which makes and maintains our own pre-keys.
--
-- Parameters of Omemo are libsignal (`Signal`, `Records`, and the encryption and decryption of
-- a message key in `Sealing` and `Opening`), the hash (`Sponge`), the cipher (`Aead`, with
-- `AeadLaws`), base64, `hex`, SHA3-512, and the network (`Peers`). They work on the database
-- that they are given. `SignalLaws` says that a handshake touches the rows of its device only
-- and leaves a session where it succeeds, `RecordsLaws` that a fresh KEM record is one of
-- ML-KEM-1024, and that the two ways to read a record's public key agree. One account is
-- modelled, so its id is left out; so are the errors of SQL, which end a call, the logs, the
-- text of an error, and the event for a device that was seen. Ids of devices and pre-keys are
-- natural numbers; the parser bounds those that come from the network by 2 ^ 32, and the `as
-- u32` of a stored id is not modelled.
--
-- Each loop is a recursion on a list or a count, but for two on fuel: the printing of a number (`show_nat`),
-- with one more than the number, which a division by ten makes smaller each time, and the search
-- of `mentions_nick`, with one more than the length of the body, of which each round leaves less.
-- Numbers are natural numbers: the lengths that occur are bounded by the memory, and the sums of
-- `unpadded` in `to_xml` stay far below the bound of `usize`.
--
-- Not modelled: the descriptions and candidates of an engine's pump, the OMEMO protection of DTLS
-- fingerprints, and screen sharing; of the OMEMO crates loading, regenerating and publishing an
-- identity, and the printing of a bundle; the rest of the store (SQL), the media engine
-- (GStreamer), the connection, the other extensions, and the Qt bridges.
pub mod Base
pub mod Uri
pub mod Dom
pub mod Sce
pub mod Calls
pub mod Messages
pub mod Messaging
pub mod Sdp
pub mod Omemo
