-- ===== src/Lib.antt =====
-- The TypeScript client library of Swig, a smart wallet on Solana: what its roles may do, how that
-- is written to bytes and read back, and what the tail of a wallet's account holds.
--
-- The program's parts, by their paths from solana/typescript/packages:
-- - coder/src/types holds the binary layouts: enums, fixed-size records and their codecs.
-- - lib/src/actions composes the actions of a role (ActionsBuilder), writes them to one buffer,
--   decodes such a buffer (Actions.from, decodeActionPayload) and answers what a role may do.
-- - lib/src/role splits the roles buffer of an account into roles, and lib/src/swig/index.ts
--   answers questions about an account.
-- - lib/src/swig/tail.ts reads the typed entries behind the roles of an account, and computes from
--   the authorization locks there what a role must leave in an account.
-- - lib/src/instructions/compactInstruction.ts puts inner instructions into the compact form that
--   the wallet's sign instructions carry, with one combined list of accounts.
-- - coder/src/instructions holds the data of the wallet's instructions, and lib/src/instructions
--   their lists of accounts; lib/src/authority/instructions joins both for each kind of authority:
--   an Ed25519 authority signs the transaction, a Secp256k1 or Secp256r1 authority signs the data
--   and the accounts, and a program stands in front with an instruction of its own.
-- - lib/src/reservation.ts makes and checks the package that fixes a wallet's address before the
--   account exists.
--
-- How the files correspond to it:
-- - Common: shared names and lemmas; Common/Buffers holds the byte arrays, with `slice`, `set` and
--   `getUint32` of the language as functions on lists of numbers.
-- - Kit: the codecs of the package @solana/kit, which is not part of the repository, as a record
--   of operations with their documented laws. Kit/LittleEndian fills it, so the laws can hold.
--   Where an encoder or a decoder throws, the result is `none`.
-- - Coder/Permissions, Coder/AuthorityTypes, Coder/ScopeTypes: the enums by their numbers.
--   Coder/Limits, Coder/TokenLimits, Coder/Scopes, Coder/Headers: the records with `getXEncoder`
--   as `write_x` and `getXDecoder` as `read_x`; each has a child RoundTrip.
-- - Actions/Payload (payload.ts), Actions/Control (control.ts), Actions/Action (class Action),
--   Actions/Collection (class Actions, deserializeActions), Actions/Ensure (ensureProgramAction),
--   Actions/Config (class ActionConfig and its subclasses, as one data type with a constructor per
--   class), Actions/Builder (class ActionsBuilder, its limits in Actions/Builder/Limits).
--   Actions/Layout describes a buffer of actions apart from the code, Actions/Config/Carries the
--   payload that a configuration stands for.
-- - Roles (role/index.ts with getAuthority.ts), Roles/Layout for the format of a roles buffer.
-- - Coder/Accounts (coder/src/accounts/swig.ts) and Swig/Account (class Swig of swig/index.ts).
-- - Swig/Tail and Swig/Locks (tail.ts). Swig/Tail/Entries describes a tail apart from the code.
-- - Coder/CompactInstructions (coder/src/types/compactInstruction.ts), over the array codecs in
--   Kit/Arrays.
-- - Instructions/Compact (compactInstruction.ts). The account metas that the code changes in place
--   are objects in a store, and the arrays hold places in it. Instructions/Compact/Extends says
--   what the loops never change, Place and Resolve where an account is put, Signers and Unsigned
--   who signs, Unbalanced what is put behind the accounts after a transfer.
-- - Coder/KeySessions and Coder/ProgramExec (the data of authorities in coder/src/types),
--   Coder/AccountsPayload (accountsPayload.ts) and Coder/Secp256r1Signature
--   (secp256r1SignatureInstructionData.ts).
-- - Coder/Instructions: Discriminator (SwigInstruction.ts), Create, Authority, Session, SubAccount,
--   Sign, Assets and Locks for the other files of coder/src/instructions; Sign/Wire describes the
--   sign instructions apart from the code.
-- - Instructions/Metas and its children (the functions `get…BaseAccountMetas…` of
--   lib/src/instructions), Instructions/SwigInstruction (SwigInstruction.ts and the end of
--   lib/src/solana.ts) with Payload for where the authority's payload stands.
-- - Authority/Interface (interface.ts, a constructor per method), Authority/Ed25519 (ed25519.ts),
--   Authority/Secp256k1 (secp256k1.ts), Authority/Secp256r1 (secp256r1.ts), Authority/ProgramExec
--   (programexec.ts): for each of the last three the payload, the methods by group, `Methods` with
--   a clause per method, and the statements about them (Covered, Signed, Checked).
--   Authority/Signing holds what secp256k1.ts and secp256r1.ts share, over the hashes of
--   @noble/hashes and the caller's signing function as parameters; Authority/Signing/Covers says
--   which bytes of the data are signed.
-- - Reservation (reservation.ts), over the curves of @noble/curves as a record of operations with
--   their documented laws.
-- - Coder/CompactInstructions/Tests, Actions/Tests, Swig/Tests, Swig/Tests/Account, Instructions/Tests,
--   Coder/Instructions/Tests, Authority/Tests and Reservation/Tests run small examples.
--
-- Conventions. A method that changes its object takes and returns it. A call that throws returns
-- `none`; which error it throws is not kept. A public key is its 32 bytes (that there are 32 is
-- checked where a key is made from bytes; Reservation models the check, the other files are given
-- keys), and is compared as the source does by its Base58 text, which is a field of `Kit`. A
-- bigint is a natural number: the source compares, adds and subtracts below them only under a
-- guard that keeps the result from being negative. A number outside its width is refused by the
-- encoder, and the statements say which numbers fit.
--
-- Bounds. The loop of `decodeSwigTail` runs on fuel, one more than the tail has bytes: each round
-- moves on by eight bytes at least, and that the loop never runs out is part of the theorem about
-- it. The other loops recur on the list or on the counter that they run over. A buffer of actions
-- is assumed to be shorter than 2^32 bytes, since a boundary is written in four.
--
-- Not modelled: the classes of lib/src/authority that hold an authority's data and call the methods
-- above, createV1SwigInstruction and whatever else derives addresses by an external package; the
-- instruction contexts of lib/src/swig, lib/src/wallet.ts, which fetches accounts, and the addresses
-- that lib/src/reservation.ts derives; the decoder of removeAuthorityV1.ts; the compression of URLs in
-- coder/src/utils; the adapters classic and kit; the SDKs for other chains and in other languages.
-- What a call changes in the caller's own account metas is not followed further than the call.
pub mod Common
pub mod Kit
pub mod Coder
pub mod Actions
pub mod Roles
pub mod Swig
pub mod Instructions
pub mod Reservation
pub mod Authority
