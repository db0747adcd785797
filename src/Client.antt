-- ===== src/Client.antt =====
-- The client of client.go: its configuration (types.go), what it is connected to, and in the child
-- modules its methods.
pub mod Fill
pub mod Account
pub mod Transact
pub mod Connect
use Prim.Native.String.{String}
use aa_sdk_go.Prelude.{Option}
use aa_sdk_go.Prelude.Int.{ℤ}
use aa_sdk_go.Prelude.State.{Action}
use aa_sdk_go.Bytes.{Bytes, Address}

-- `Rotator` is the type of the executor signers' provider. A duration is a number of nanoseconds.
pub record Config (Key Rotator : Type 0) : Type 0 where
  pub node_url : String
  pub bundler_url : String
  pub wait_receipt_interval : ℤ
  pub entrypoint : Address
  pub account_factory : Address
  pub paymaster_address : Address
  pub verifying_signer : Option Key
  pub executor_signers : Option Rotator

-- The fields that the methods read and that none of them changes.
pub record Client (Key Abi Rotator : Type 0) : Type 0 where
  pub config : Config Key Rotator
  pub chain_id : Option ℤ
  pub simple_account_abi : Abi
  pub simple_factory_abi : Abi

-- The node, and the contracts on its chain, as far as the client reads them: calls that the network
-- answers or fails, and that may find another network each time.
pub record Node (Net : Type 0) : Type 0 where
  -- ethclient.Client.CodeAt, at the latest block
  pub code_at : Address → Action Net Bytes
  -- ethclient.Client.BalanceAt, at the latest block
  pub balance_at : Address → Action Net (Option ℤ)
  -- EntryPoint.GetNonce of a sender and a key
  pub get_nonce : Address → Option ℤ → Action Net (Option ℤ)
  -- SimpleAccountFactory.GetAddress of an owner and a salt
  pub get_address : Address → Option ℤ → Action Net Address
