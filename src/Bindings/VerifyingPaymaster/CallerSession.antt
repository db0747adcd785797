-- ===== src/Bindings/VerifyingPaymaster/CallerSession.antt =====
-- VerifyingPaymasterCallerSession of bindings/paymaster/verifying_paymaster.go: the methods with
-- the options that the session stores.
use aa_sdk_go.Prelude.{Option}
use aa_sdk_go.Prelude.Int.{ℤ}
use aa_sdk_go.Prelude.State.{Action}
use aa_sdk_go.Bytes.{Bytes, Address, Hash}
use aa_sdk_go.UserOperation.{PackedUserOperation}
use aa_sdk_go.Bindings.{Convert}
use aa_sdk_go.Bindings.Bind.{CallerSession}
use aa_sdk_go.Bindings.VerifyingPaymaster
use aa_sdk_go.Bindings.VerifyingPaymaster.{PaymasterAndData}

module _ (convert : Convert) {CallOpts Opts FilterOpts WatchOpts Tx Net : Type 0}
    (session : CallerSession CallOpts Opts FilterOpts WatchOpts Tx Net) where
  abbrev entry_point : Action Net Address
  entry_point = VerifyingPaymaster.entry_point convert session.contract session.call_opts

  abbrev get_deposit : Action Net (Option ℤ)
  get_deposit = VerifyingPaymaster.get_deposit convert session.contract session.call_opts

  abbrev get_hash : PackedUserOperation → Option ℤ → Option ℤ → Action Net Hash
  get_hash user_op valid_until valid_after =
      VerifyingPaymaster.get_hash convert session.contract session.call_opts user_op valid_until
        valid_after

  abbrev owner : Action Net Address
  owner = VerifyingPaymaster.owner convert session.contract session.call_opts

  abbrev parse_paymaster_and_data : Bytes → Action Net PaymasterAndData
  parse_paymaster_and_data paymaster_and_data =
      VerifyingPaymaster.parse_paymaster_and_data convert session.contract session.call_opts
        paymaster_and_data

  abbrev verifying_signer : Action Net Address
  verifying_signer = VerifyingPaymaster.verifying_signer convert session.contract session.call_opts
