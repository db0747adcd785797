-- ===== src/Lib.antt =====
-- The SDK for ERC-4337 smart accounts (package aasdk, at the repository's root): it fills in a user
-- operation, has a paymaster and the account's owner sign it, and sends it to a bundler or to the
-- entrypoint contract.
--
-- The parts, the files that model them and the code they are about:
-- - UserOperation, UserOperation/Body: UserOperation, NewUserOpWithDefault and ToBody of types.go, and
--   the PackedUserOperation of bindings/entrypoint/entrypoint.go. A *big.Int is an optional integer,
--   `none` for nil; the body is a function from keys to texts, `none` where there is no entry.
-- - Packing: PackInt and PackUserOperation of utils.go, PackPaymasterAndData and EncodePaymasterData
--   of paymaster.go. Layout, Parts and Faults hold what is proved of them.
-- - Hashing: HashedUserOp and GetUserOpHash of utils.go, GetPaymasterHash of paymaster.go.
-- - Quantity: HexToBigInt of utils.go, over the hexadecimal texts of Hex.
-- - Signing: SignMessage of sign.go, and SignUserOp of client.go.
-- - Rotator: RoundRobinSignerProvider of rotator.go. The provider's lock is held through each method,
--   so a method is one step on the provider; uint32 wraps around at 2^32.
-- - Rotator/Threads: the accesses of the rotator's fields one by one, by several goroutines, with the
--   documented behaviour of sync.RWMutex; Threads/Serial compares them with the methods as one step,
--   and Threads/Safe is about panics.
-- - Client: Config of types.go and Client of client.go; Client/Fill: FillAndSign, getInitCodeData and
--   IsAccountDeployed. FillAndSign changes the caller's operation in place, so that the operation is
--   part of the state of an action, together with a network that may answer each call differently. It
--   uses Packing, Hashing and Signing, the way the code calls them.
-- - Client/Account: GetAccount and GetAccountBalance, with the cache of cache.go as an interface, for the
--   caller may give any: Cached says what is asked of one.
-- - Client/Transact: HandleOps, HandleAtomicOps, Prefund and DeployAccount. The first two take a signer
--   from the interface Rotator of rotator.go, which Rotator's provider fills.
-- - Client/Connect: NewClient, and what the other methods reach through the client it returns. Made says
--   what NewClient has done; Through, Asks and Deploys follow HandleOps, the filling in of the nonce and
--   DeployAccount through the bindings to the contract that is called.
-- - Bindings: the code that abigen generated in bindings/. Bindings/Bind: the constructors;
--   Bindings/EntryPoint, SimpleAccount, SimpleAccountFactory and VerifyingPaymaster: the methods that
--   call the contract and those that send it a transaction, with the events, the sessions and the raw
--   methods in child modules. The code of an event is the same for each but for its struct, name and
--   indexed arguments: Bindings/Events has it once, and every event applies it. Events/Run has an
--   iterator in use, Tracks its invariant, and Order, Ends and Watched what callers get. go-ethereum's
--   bind.BoundContract, UnpackLog and abi.ConvertType are parameters. A loop over an iterator runs on
--   fuel: every call of Next takes a log or ends it, so that one more than the logs that wait is enough.
-- - Transfer: PackTransferData and PackBatchTransferData of utils.go.
-- - Bundler: `call` of bundler.go, with the client's counter of request ids, and the responses and their
--   errors; Bundler/Methods: the methods that call the bundler; Bundler/Wait: WaitForUserOperation, whose
--   loop runs over a list of events, the ticks and the context's end in the order in which `select` finds
--   them, a tick whose poll never returns among them; Bundler/Log: a log of what net/http is given, and
--   Bundler/Ids: the ids in it. net/http and encoding/json are parameters of these.
-- - Prelude (lists, integers, results and actions), Digits and Bytes carry the lemmas that the others
--   share. A result is a value, an error or a panic; an action is a function from a state to a result
--   and a state.
-- - Tests: a small go-ethereum, and the theorems at concrete inputs.
--
-- go-ethereum is not part of the repository. Its functions are the fields of Ethereum.Ethereum, a
-- parameter of the definitions; Ethereum.IsDocumented holds what its documentation promises of them.
-- abi.Arguments.Pack is given the list of ABI types and the list of values apart, and its encoding is
-- promised where each value is of the Go type and size that stands for its ABI type.
-- Keccak-256 is any function to 32 bytes: where a theorem needs that it has no collision, it names the
-- inputs for which it would have one. The node and its contracts are the fields of Client.Node.
--
-- Go's []byte is a list of numbers; that the numbers are below 256 and that arrays have their lengths
-- is asked for where it matters. A nil slice and an empty one are the same list, which the code
-- modelled here does not tell apart. Numbers are written in a base by Digits.digits, which
-- runs on fuel: as much as the number itself is enough, and Digits proves it.
--
-- The package's Default… variables are taken as the constants they are initialised with. The errors'
-- texts are kept as a prefix and the wrapped error.
--
-- Not modelled: the ABI and bytecode texts of the bindings; the examples, programs that call the SDK with
-- fixed inputs and print what it returns; and the unit tests. A data race on the signers that a caller
-- keeps a reference to, outside the rotator's lock, is not modelled.
pub mod Prelude
pub mod Digits
pub mod Bytes
pub mod UserOperation
pub mod Hex
pub mod Ethereum
pub mod Quantity
pub mod Packing
pub mod Hashing
pub mod Rotator
pub mod Signing
pub mod Client
pub mod Bundler
pub mod Bindings
pub mod Transfer
mod Tests
