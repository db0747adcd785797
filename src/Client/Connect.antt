-- ===== src/Client/Connect.antt =====
-- NewClient of client.go: it dials the node, asks it for its chain and binds the contracts; and what
-- the client's methods reach through it, the node and the bindings of bindings/.
pub mod Made
pub mod Through
pub mod Asks
pub mod Deploys
use aa_sdk_go.Prelude.{ℕ, Option, none, some, List, String}
use aa_sdk_go.Prelude.Int.{ℤ}
use aa_sdk_go.Prelude.Outcome.{Result, ok, wrapping}
use aa_sdk_go.Prelude.State.{Action, ◌>>=◌, pure, lift, wrapped}
use aa_sdk_go.Bytes.{Bytes, Address, Hash}
use aa_sdk_go.Bindings.{Convert}
use aa_sdk_go.Bindings.Bind.{Binding, Metadata}
use aa_sdk_go.Bindings.EntryPoint
use aa_sdk_go.Bindings.SimpleAccountFactory
use aa_sdk_go.Client.{Config, Client, Node}
use aa_sdk_go.Client.Transact.{Sender}

-- ethclient of go-ethereum, with bind.WaitMined.
pub record Ethclient (Backend Tx Receipt Net : Type 0) : Type 0 where
  pub dial : String → Action Net Backend
  pub chain_id : Backend → Action Net (Option ℤ)
  -- of an address, at the latest block
  pub code_at : Backend → Address → Action Net Bytes
  pub balance_at : Backend → Address → Action Net (Option ℤ)
  pub wait_mined : Backend → Tx → Action Net Receipt

-- The options that calls and transactions are made with: a new CallOpts, NewKeyedTransactorWithChainID,
-- the assignment of Value, and a transaction's hash.
pub record Options (Key CallOpts Opts Tx : Type 0) : Type 0 where
  pub call_opts : CallOpts
  pub new_transactor : Option Key → Option ℤ → Result Opts
  pub with_value : Option ℤ → Opts → Opts
  pub tx_hash : Tx → Hash

-- The struct Client with all its fields, but for http.DefaultClient. `Cache` is what an LRUCache
-- that may be nil is.
pub record Connected
    (Key Abi Rotator Cache Backend CallOpts Opts FilterOpts WatchOpts Tx Net : Type 0)
    : Type 0 where
  pub id : ℕ
  pub client : Client Key Abi Rotator
  pub eth : Backend
  pub simple_factory : Binding CallOpts Opts FilterOpts WatchOpts Tx Net
  pub entrypoint : Binding CallOpts Opts FilterOpts WatchOpts Tx Net
  pub lru_cache : Cache

module _ {Key Abi Rotator Cache Backend CallOpts Opts FilterOpts WatchOpts Tx Receipt Net : Type 0}
    (ethclient : Ethclient Backend Tx Receipt Net)
    (entry_point account_factory account : Metadata CallOpts Opts FilterOpts WatchOpts Tx Net Abi
      Backend) where
  unfoldable pub new_client :
      Config Key Rotator
      → Cache
      → Action Net
          (Connected Key Abi Rotator Cache Backend CallOpts Opts FilterOpts WatchOpts Tx Net)
  new_client config cache = do
    eth ← wrapped "error creating eth client" (ethclient.dial config.node_url)
    chain_id ← wrapped "error getting chain id" (ethclient.chain_id eth)
    entrypoint ← lift (
        wrapping "error creating entrypoint client"
          (EntryPoint.new_entry_point entry_point config.entrypoint (some eth)))
    simple_factory ← lift (
        wrapping "error creating account factory client" (
          SimpleAccountFactory.new_simple_account_factory account_factory config.account_factory
            (some eth)))
    simple_factory_abi ← lift (wrapping "error getting account factory ABI" account_factory.get_abi)
    simple_account_abi ← lift (wrapping "error getting simple account ABI" account.get_abi)
    pure (record {
      id = 0;
      client = record {
        config = config;
        chain_id = chain_id;
        simple_account_abi = simple_account_abi;
        simple_factory_abi = simple_factory_abi;
      };
      eth = eth;
      simple_factory = simple_factory;
      entrypoint = entrypoint;
      lru_cache = cache;
    })

module _ {Key Abi Rotator Cache Backend CallOpts Opts FilterOpts WatchOpts Tx Net : Type 0}
    (c : Connected Key Abi Rotator Cache Backend CallOpts Opts FilterOpts WatchOpts Tx Net) where
  -- The fields that ChainId, FactoryABI, AccountABI and EthClient return.
  abbrev pub chain_id : Option ℤ
  chain_id = c.client.chain_id

  abbrev pub factory_abi : Abi
  factory_abi = c.client.simple_factory_abi

  abbrev pub account_abi : Abi
  account_abi = c.client.simple_account_abi

  abbrev eth_client : Backend
  eth_client = c.eth

module _ {Key Abi Rotator Cache Backend CallOpts Opts FilterOpts WatchOpts Tx Receipt Net : Type 0}
    (ethclient : Ethclient Backend Tx Receipt Net) (convert : Convert)
    (options : Options Key CallOpts Opts Tx)
    (c : Connected Key Abi Rotator Cache Backend CallOpts Opts FilterOpts WatchOpts Tx Net) where
  -- What the methods read through `c.eth`, `c.entrypoint` and `c.simpleFactory`.
  abbrev pub node_of : Node Net
  node_of = record {
    code_at = ethclient.code_at c.eth;
    balance_at = ethclient.balance_at c.eth;
    get_nonce = EntryPoint.get_nonce convert c.entrypoint.caller options.call_opts;
    get_address =
        SimpleAccountFactory.get_address convert c.simple_factory.caller options.call_opts;
  }

  -- What they send through them.
  abbrev pub sender_of : Sender Key Opts Tx Receipt Net
  sender_of = record {
    new_transactor = options.new_transactor;
    with_value = options.with_value;
    handle_ops = EntryPoint.handle_ops c.entrypoint.transactor;
    handle_atomic_ops = EntryPoint.handle_atomic_ops c.entrypoint.transactor;
    deposit_to = EntryPoint.deposit_to c.entrypoint.transactor;
    create_account = SimpleAccountFactory.create_account c.simple_factory.transactor;
    tx_hash = options.tx_hash;
    wait_mined = ethclient.wait_mined c.eth;
  }
