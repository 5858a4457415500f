-- ===== src/Lib.antt =====
-- vbuff, a clipboard manager: its replication, capture, paste and update logic.
--
-- The program is a Rust workspace. crates/vbuff-core decides what is captured and how the capture
-- side recovers; crates/vbuff-sync replicates items between devices; the other crates store,
-- display, integrate and update. Capture observations come from a platform backend, pass the
-- coalescer and the ledgers of vbuff-core, and end in the store; replicas of items meet in
-- vbuff-sync, ordered by its hybrid logical clock, and its signed chains, burn sessions and outbox
-- carry what the devices tell each other. The application of src pastes a clip back through a target
-- that the platform confirms, vbuff-ipc serves clients, and vbuff-update accepts signed releases.
--
-- Modelled here:
--   Sync.Clock        crates/vbuff-sync/src/clock.rs: HybridLogicalClock (tick, observe,
--                     bounded_at, advance_logical) and its derived order.
--   Sync.Conflict     crates/vbuff-sync/src/conflict.rs: resolve.
--   Sync.Crdt         crates/vbuff-sync/src/crdt.rs: OrSet, LwwRegister, ItemFields, ItemReplica.
--   Sync.Preimage     crates/vbuff-sync/src/chain.rs: the preimage builder.
--   Sync.Chain        crates/vbuff-sync/src/chain.rs: SignedChain (append, verify, replay, head)
--                     over any ChainEntry and the calls of the hash and signature crates.
--   Sync.Outbox       crates/vbuff-sync/src/device_experience/outbox.rs: SyncOutbox, with the
--                     bound of crates/vbuff-sync/src/device_experience.rs.
--   Sync.Burn         crates/vbuff-sync/src/burn.rs: BurnSession; crates/vbuff-sync/src/ledger.rs:
--                     WipeReceipt, issue_wipe_receipt and
--                     verify_wipe_receipt.
--   Sync.Capability   crates/vbuff-sync/src/capability.rs: issue and CapabilityVerifier
--                     (verify_and_consume, revoke), over any base64, JSON and HMAC.
--   Sync.Membership   crates/vbuff-sync/src/membership.rs: MembershipEntry as a ChainEntry,
--                     MembershipLog and revoke_and_rekey; Sync.Sealing has the seal_to of
--                     crates/vbuff-sync/src/crypto.rs, with its random bytes as arguments.
--   Sync.Merkle       crates/vbuff-sync/src/merkle.rs: the tree, its range hashes and the
--                     comparison of two trees by ranges.
--   Types.Replay, Types.Mac, Types.Content, Types.Text
--                     crates/vbuff-types/src/replay.rs: ReplayGuard; mac.rs: MacDomain, MacProof;
--                     lib.rs: ClipId, ContentKind; and what the crates ask of a String.
--   Ipc.Operation, Ipc.RateLimit
--                     crates/vbuff-ipc/src/operations/mod.rs: the error values;
--                     operations/rate_limit.rs: TokenRateLimiter.
--   Workflow.Board, Workflow.Router, Workflow.Queue, Workflow.Collector, Workflow.Basket,
--   Workflow.Checklist, Workflow.NamedSlots
--                     crates/vbuff-core/src/workflow/boards.rs: PinBoard, BoardRouter,
--                     ConsumeQueue, CaptureCollector, SessionBasket, Checklist, NamedSlots.
--   Workflow.Selection
--                     crates/vbuff-core/src/workflow/selection.rs: RangeSelection.
--   Plugin.Supervisor crates/vbuff-plugin/src/governance/supervisor.rs: PluginSupervisor.
--   Sync.Validation   crates/vbuff-types/src/validation.rs: all_zero, is_valid_identifier.
--   Sync.Error        crates/vbuff-sync/src/error.rs: the error values and Result.
--   Capture.Supervisor, Capture.Backpressure, Capture.Ring
--                     crates/vbuff-core/src/reliability.rs: CaptureSupervisor, ByteBackpressure,
--                     CaptureForensicRing (and SkippedCaptureRing of capture/ledger.rs).
--   Capture.Scheduler crates/vbuff-core/src/capture/scheduler.rs: AdaptivePollScheduler.
--   Capture.Coalescer crates/vbuff-core/src/capture/coalesce.rs: FlavorGrowthCoalescer and
--                     PrimaryIntentGate.
--   Capture.Generation, Capture.SelfWrite, Capture.Loss
--                     crates/vbuff-core/src/capture/ledger.rs: GenerationTracker, SelfTestState,
--                     SelfWriteLedger, CaptureLossLedger, with the drop reasons of
--                     crates/vbuff-core/src/capture/policy.rs.
--   Capture.Secret    crates/vbuff-core/src/secret.rs: the detectors of secrets (Capture.Secret.Tokens for
--                     one token, Capture.Secret.Scan for a text) and the floors of their findings.
--   Capture.Policy    crates/vbuff-core/src/capture/policy.rs: SourcePredicate and, in
--                     Capture.Policy.Decide, CapturePolicy, with the lifetimes of
--                     crates/vbuff-core/src/trust/secrets.rs. Types.Flavor and Types.Evidence have the
--                     vocabulary of crates/vbuff-types/src/lib.rs, Types.Ascii and Types.Utf8 the
--                     methods of `str`.
--   Paste.Guard       crates/vbuff-core/src/intelligence/actions.rs: PasteGuardFingerprint.
--   Paste.Target      crates/vbuff-platform/src/confirmed_paste.rs: ConfirmedPaste.
--   Paste.Coordinator src/paste.rs: PasteCoordinator over the two above, with
--                     Capture.SelfWrite. An operation takes the answers that the desktop and the
--                     clipboard give during it, and a poll says where a keystroke went.
--   Capture.Consent   crates/vbuff-core/src/trust/consent.rs: SensitiveSourceConsent, UnlockTimeouts.
--   Ipc.Event, Ipc.Replay
--                     crates/vbuff-ipc/src/event.rs and src/operations/runtime.rs: EventFilter and
--                     EventReplayCursor.
--   Update.Manifest, Update.Keyring, Update.Verifier
--                     crates/vbuff-update/src/manifest.rs: UpdateManifest, SignedUpdateManifest,
--                     KeyRotation, UpdateKeyring, UpdateVerifier, with UpdateError of lib.rs.
--   Update.State      crates/vbuff-update/src/state.rs: the state file of the verifier, with the
--                     writes that fail and the restarts (Update.State.Restarts).
--   Base              shared names, tests, orders, and BTreeSet and BTreeMap as ascending lists.
--
-- Conventions. A method that takes `&mut self` returns the new state, with its result beside it if
-- it has one. Unsigned integers are natural numbers; saturating and checked operations write their
-- bounds out, and u64, u32 and u8 fields are held in range by hypotheses or invariants. A `usize`
-- has 64 bits. Strings and digests are lists of bytes. Durations and instants are nanoseconds that
-- do not overflow, but where the source itself checks an addition. Every loop recurs on a list but
-- the comparison of two Merkle trees, which has fuel 65: a tree of 2 ^ 64 leaves or fewer has that
-- many levels, each call halves its range, and the theorem on it shows that the fuel never runs out;
-- and the decimal digits of an epoch, of which a u64 has at most 20 (Sync.Membership.Decimal reads
-- them back).
-- In Workflow, Capture.Secret and Capture.Policy a string is the list of its characters' code points, where the source asks for
-- whitespace, control characters or the length in UTF-8. A confidence is in hundredths.
--
-- Not modelled: serialization, cryptography (the record `Crypto` of Sync.Chain, `TokenOps` of
-- Sync.Capability, `SealOps` of Sync.Sealing, `UpdateOps` of Update.Manifest, `StateOps` of
-- Update.State, `PolicyOps` of Capture.Policy, `GuardOps` of
-- Paste.Guard and the hash of Sync.Merkle are the calls that are made
-- of it), SQL, platform
-- calls and drawing, which are calls of libraries, and the crates and files that no module above
-- names.
pub mod Base
pub mod Types
pub mod Sync
pub mod Capture
pub mod Ipc
pub mod Workflow
pub mod Plugin
pub mod Paste
pub mod Update
