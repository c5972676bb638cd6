-- ===== src/Lib.antt =====
-- A model of the logic of the chat: the broker that introduces peers to each other, and the
-- runtime that each peer runs (packages/chat-runtime/src, apps/web/src/server).
--
-- Peers meet at a broker: a WebSocket server that seats sockets in rooms and passes on their
-- signaling messages. From these a peer makes a direct connection to another, whose progress is a
-- state machine and on which both sides may offer at once (glare). On the connection runs the
-- encrypted session: every frame has a header that is authenticated with it, and the receiver
-- refuses sequence numbers that it has seen. Files travel as a manifest and chunks, which the
-- receiver puts together under a fixed budget; the user interface shows a list of transfers that
-- events change. A link invites to a conversation or a group, whose members one of them lists and
-- signs. Each peer keeps its conversations, their encrypted messages, groups and the keys it has
-- pinned to its contacts in a store.
--
-- Base holds what the parts share: numbers, tests, lists, maps in insertion order (Base/Map.antt),
-- JSON values (Base/Json.antt), strings as their UTF-16 code units (Base/Text.antt), and results
-- of functions that throw (Base/Result.antt).
--
-- Protocol (packages/chat-runtime/src/protocol):
--   Protocol/Limits.antt      limits.ts, the constants
--   Protocol/Types.antt       types.ts and errors.ts
--   Protocol/Bytes.antt       byte arrays, writeUint32Be and readUint32Be of codec.ts; reading
--                             part after part in Protocol/Bytes/Slices.antt
--   Protocol/Codec.antt       encodeAad, decodeAad, encodeFrameHeader, decodeFrameHeader and
--                             deriveRole of codec.ts; proofs in Codec/Aad, Header and Roles
--   Protocol/Nonce.antt       deriveNonce of codec.ts; proof in Nonce/Distinct
--   Protocol/Control.antt     the control subtypes, encodeTransferCancelPayload and
--                             decodeTransferCancelPayload of codec.ts
--   Protocol/Transcript.antt  encodeTranscript and decodeTranscript of codec.ts. Layout has where the
--                             parts stand, RoundTrip what is read from them
--   Protocol/Keys.antt        encodePublicKey of codec.ts; whether 65 bytes are a point of the
--                             curve is a parameter, the answer of @noble/curves
--
-- Crypto (packages/chat-runtime/src/crypto):
--   Crypto/ReplayWindow.antt  the class ReplayWindow of aead.ts. Slots reads its loops slot by
--                             slot, History relates a window to the list of accepted numbers,
--                             Refinement is about streams
--   Crypto/Aead.antt          encryptFrame and decryptFrame of aead.ts; AES-GCM is a parameter, a
--                             pair of functions that seal and open. Proofs in Aead/Frames
--
-- Framing (packages/chat-runtime/src/framing):
--   Framing/Errors.antt       errors.ts
--   Framing/Wire.antt         encodeWireFrame and decodeWireFrame of wire.ts
--   Framing/Chunks.antt       computeChunkCount and chunkBoundaries of manifest.ts, and the loop
--                             of sender.ts that cuts a file
--   Framing/Manifest.antt     encodeManifest and decodeManifest of manifest.ts; TextEncoder and
--                             TextDecoder are parameters. Proofs in Manifest/RoundTrip
--   Framing/Receiver.antt     the transfers of receiver.ts: handleManifest, handleChunk,
--                             completeTransfer, dropTransfer, cancelTransfer, teardown and the
--                             sweep. completeTransfer is split at its await: complete_transfer
--                             leaves a completion that waits, resume goes on with the digest.
--                             Receiver/Steps.antt is the relation of what may happen; the other
--                             files follow the counters through one handler each. Delivery and
--                             Handover are about the chunks of one file arriving in their order,
--                             Whole about the bytes handed over
--   Framing/Sender.antt       the class FrameSender of sender.ts: its counters and the calls that
--                             wait for AES-GCM. Each call is split at its awaits; Sender/Calls.antt
--                             has what a call does between two of them, Sender/Steps.antt the
--                             relation in which the waiting calls go on in any order. Proofs in
--                             Sequence, Moves, Nonces and Reservations
--   Framing/Ingest.antt       ingest, decrypt and handleControl of receiver.ts, from the wire to
--                             the handlers of Framing/Receiver.antt. Ingest/Runs follows one run,
--                             Sealed a frame the other side sealed, Stream a sequence of frames,
--                             Silence what comes after a teardown
--
-- Signaling (packages/chat-runtime/src/signaling):
--   Signaling.antt            state-machine.ts; Paths for its runs, Glare for two sides that offer
--
-- Runtime (packages/chat-runtime/src/runtime):
--   Runtime/TransferState.antt  applyTransferEvent of transfer-state.ts
--
-- Store (packages/chat-runtime/src/store):
--   Store/Types.antt          types.ts, the records that are kept
--   Store/Encoding.antt       bytesToHex and hexToBytes of encoding.ts
--   Store/Base64.antt         bytesToBase64 and base64ToBytes of encoding.ts
--   Store/Repo.antt           the state of InMemoryConversationRepository of in-memory-repo.ts and
--                             its operations on conversations and contacts; Repo/Groups has those
--                             on groups, Repo/Messages appendMessage and decryptMessage,
--                             Repo/Reload the loading of a serialized state, Repo/Steps the
--                             relation of what may happen. Proofs in Whole, Filling, Runs, Pins and
--                             Malformed
--
-- Group (packages/chat-runtime/src/group):
--   Group/Errors.antt         errors.ts, and encodeGroupId of types.ts
--   Group/Membership.antt     membership.ts: the encoders, decodeMembership, verifyMembership,
--                             addedMembers and removedMembers. Entries follows the loop of the
--                             decoder, Canonical the whole payload,
--                             Signature what the signature is checked over
--   Group/PairwiseId.antt     derivePairwiseConvId of pairwise-id.ts; proofs in PairwiseId/Pairs
--
-- Orchestrator (packages/chat-runtime/src/orchestrator):
--   Orchestrator/Invitation.antt  invitation.ts and errors.ts: the formatters of links and
--                             parseInvitation. RoundTrip is about links that were formatted,
--                             Accepted about any fragment that parses
--
-- Broker (packages/chat-runtime/src/broker and apps/web/src/server):
--   Broker/Room.antt          rooms and seats, the checks of ids, of room-registry.ts
--   Broker/Registry.antt      the class RoomRegistry of room-registry.ts: join, leave,
--                             removeSocket, getPeer and listPeers
--   Broker/Message.antt       parseMessage of protocol.ts, and forward
--   Broker/Connection.antt    BrokerConnection of connection.ts: what a connection does with a
--                             message or a close, its sends as a list of effects
--   Broker/Server.antt        the hooks of broker.ts, the sweep of sweep.ts and the origin check
--                             of origin-guard.ts over the process's state
--
-- How the code is represented. A socket is a number, its identity. A handler is a function from
-- the state to the state, with what it sends or calls back as a list of effects or events, and a
-- throw as a result. Bytes are lists of numbers; that an array's elements are below 256 is a
-- hypothesis where it matters. JavaScript numbers that the code checks to be non-negative integers
-- are natural numbers; uint32 writes keep their divisions and remainders. What JSON.stringify
-- writes of a value is Base/Json/Written.antt; a text that comes in stands beside what JSON.parse
-- makes of it. The UTF-8 codec of the language is a parameter, an encoder and a decoder. SHA-256 is a parameter, any
-- function from bytes to bytes, and so is AES-GCM, of which the round trip of a frame assumes that
-- it opens what it has sealed. So are random identifiers and nonces. An asynchronous function that
-- changes state on both sides of an await is two definitions, what it does before and after.
-- The ids and keys that the code's branded types give their length have it, so that the checks of
-- the store's defensive copies are left out; a transport takes every frame that it is given. Times
-- in the store are natural numbers, and how a number is read back from text is a parameter.
-- No definition uses fuel: every loop of the code is a structural recursion.
--
-- Not modelled: the codec of the handshake's messages, group sessions, the signaling
-- clients, the lockable and the browser's stores, export bundles, the orchestrator and the chat
-- controller; of the in-memory store, its serialize and the sorted listings, which only read. Calls
-- of WebCrypto, of @noble/curves and of the SPAKE2 module, the RTCPeerConnection and the user
-- interface are not code of this repository or are input and output.
pub mod Base
pub mod Protocol
pub mod Crypto
pub mod Framing
pub mod Signaling
pub mod Runtime
pub mod Broker
pub mod Store
pub mod Group
pub mod Orchestrator
