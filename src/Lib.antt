-- ===== src/Lib.antt =====
-- Models and theorems for node-ecies-lib: the messages of ECIES encryption for one and for several recipients,
-- encrypted streams, polls under homomorphic encryption, and the log of votes. Paths are from the
-- root of the repository. The parts meet in the ECIES service: a poll encrypts its receipts by it and
-- a stream its chunks, each through an interface of the operations that it calls.
--
-- The shared parts:
--   Prelude, with Prelude/Tests, Lists, Bits and Int: numbers, Boolean tests, lists and integers.
--   Errors: ECIESErrorTypeEnum, as far as the modelled code throws it, and results.
--   Buffer, with Buffer/Laws and Fields: Node's Buffer as a list of bytes, its big-endian reads and
--     writes with their range errors, `subarray`, `equals` and `concat`; reading a buffer by fields.
--   Ecies: the constants (src/interfaces/ecies-consts.ts) and the ID provider, which are parameters.
--     Their values come from @digitaldefiance/ecies-lib; `IsDocumented` holds the sizes that the
--     repository states.
--   Paillier: the keys of paillier-bigint, a parameter with the documented homomorphic laws.
--
-- src/services/ecies/multi-recipient.ts is MultiRecipient:
--   Header: getHeaderSize, calculateECIESMultipleRecipientOverhead (`overhead`),
--     buildECIESMultipleRecipientHeader (`build_header`). Parse: parseMultiEncryptedHeader
--     (`parse_header`), parseMultiEncryptedBuffer (`parse_buffer`).
--   Layout holds the wire format, Reading, RoundTrip and Messages how it is read, Bounds, Accepts
--     and Sizes the rest. Keys: encryptKey and decryptKey, over Node's crypto module, HKDF and the
--     normalization of public keys as a parameter. Encrypt: encryptMultiple and
--     both overloads of decryptMultipleECIEForRecipient, with what is random as an argument. ForAll is
--     about the encrypted keys, Decrypted about both directions whoever the sender is said to be,
--     Delivered about messages that are signed and that are not. Each overload has its own copy of the
--     search, the decryption and the check of the sender; Overloads compares the two.
--
-- src/services/ecies/crypto-core.ts is CryptoCore: normalizePublicKey, getPublicKey,
--   computeSharedSecret, deriveSharedKey, sign and verify, over `Node`, which is what they call of
--   @noble/curves and of Node's crypto module. Normal is about the forms of keys, Agreement about
--   shared secrets and signatures; `IsSecp256k1` and `IsEcdsa` are what they ask of the libraries.
--
-- src/services/ecies/single-recipient.ts is SingleRecipient: encrypt and getHeaderSize, Parse
--   (parseEncryptedMessage), Decrypt (decryptWithHeader, decryptWithHeaderEx,
--   decryptWithComponents). Reading is about a buffer that holds a message, Written about what
--   encrypt writes, RoundTrip about both, Refusals about errors and what a parse ensures. Random keys
--   and IVs are arguments; ensureEciesEncryptionTypeEnum of ecies-lib is a parameter.
--
-- src/services/multi-recipient-processor.ts is MultiChunk: encryptChunk; Decrypt (decryptChunk,
--   encryptKey, decryptKey). Written is about the bytes of the header, Sealed about what encryptChunk
--   returns, Lookup about the loop that finds a recipient's key, RoundTrip and Senders about both
--   directions. The constants are those of src/interfaces/multi-recipient-chunk.ts. What is random is
--   the argument `ChunkDraw`. The wrappers of the multi-recipient core are not modelled.
--
-- src/transforms/eciesEncryptTransform.ts and eciesDecryptTransform.ts are Transform: the buffering
--   that both share over a `process`, and the two streams, which process by encryptBasic and
--   decryptBasicWithHeader of Service. The loop over the buffer has as much fuel as the buffer is long,
--   which is enough for a block size of at least 1. Chunking is about how the source is cut,
--   RoundTrip about blocks that are undone one by one, Delivered about both streams.
--
-- src/services/ecies/service.ts is Service, where it passes one recipient's messages on and computes
--   their lengths. Streams takes it as the service of the streams below.
--
-- src/lib/voting/poll.ts is Poll:
--   State: the fields of a VotingPoll, its constructor, newPoll, receipts and close. Ballots: vote,
--     voteWeighted, voteRanked, voteApproval, with the poll that a throwing call leaves behind.
--     Results: tallies, leadingChoice, getResults, hasTie, tiedChoices, getTotalVotes.
--   Tallies and Loops are about the loops seen through decryption, Cast, Storing and Counting about
--     one call of a voting method, Election and History about many, Leading and Totals about the
--     results, Receipts about verifyReceipt, and Keeping about receipts after later calls.
--     EciesReceipts takes Service as what signs and encrypts the receipts.
--   A member is the text of the serialized ID. Hashing, signing and encrypting a receipt, of which
--     the latter two may fail, the time and the nonces are parameters. Choice indices and weights
--     are integers. getSortedResults and the copies of the timestamps are not modelled, and
--     newPollWithKeys only makes keys.
--
-- src/lib/voting/node-persistent-state.ts, the class NodeVoteLogger, is VoteLog:
--   Entry: appendVote, serializeVote, deserializeVote and replayVotes. Hex is about the hexadecimal
--     digits of a value, Writing and Reading about one entry, Replay and Appending about a log, Bounds
--     about what a log can give back.
--   Two loops run on fuel: the digits of a value, with the value as fuel, since a division by 16
--     makes a positive number smaller; and the loop over a buffer, with its length as fuel, since
--     every entry that is read takes at least one byte of it. The file's contents are a list of
--     bytes, and the chunks of the read stream are a list of byte lists. NodeCheckpointManager is
--     not modelled.
--
-- src/services/chunk-processor.ts and src/services/encryption-stream.ts are Stream:
--   Chunks holds ChunkProcessor, encryptStream and decryptStream, and Multiple encryptStreamMultiple
--     and decryptStreamMultiple over the interface `Processor` of MultiRecipientProcessor, without
--     an abort signal and without a progress callback. A source is the list of what it yields, and
--     a generator is what it has yielded and what it threw. The ECIES service
--     (encryptWithLength, decryptWithLengthAndHeader) is the interface `EciesService`, and `IsPair` a
--     pair of keys for which it works. The loop over the buffer runs on its length as fuel, which is
--     enough for a chunk size of at least 1.
--   Sealed is about one chunk, Loops about the chunks that encryption yields, Pieces and RoundTrip
--     about their decryption, Order about the indices and the marks of chunks, Recipients about
--     the streams for several recipients.
--
-- Not modelled besides: mnemonics, wallets and other key
-- management, ID providers, configuration, translations, and the classes that only extend those of ecies-lib.
pub mod Prelude
pub mod Errors
pub mod Buffer
pub mod Ecies
pub mod CryptoCore
pub mod SingleRecipient
pub mod MultiRecipient
pub mod Paillier
pub mod Poll
pub mod VoteLog
pub mod Stream
pub mod MultiChunk
pub mod Service
pub mod Transform
