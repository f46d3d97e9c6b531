-- ===== src/Seal/Mock.antt =====
-- MockSealer of coordinator/seal/seal.go: it keeps the last sealed data in memory.
use marblerun.Base.{Bytes, Error, Option, Result, Slice, ok, some}
use marblerun.Store.{Sealer, Unsealed}

pub record MockSealer : Type 0 where
  pub mock_data : Slice
  pub unencrypted_data : Slice
  pub unseal_error : Option Error

-- MockSealer.Unseal
abbrev pub mock_unseal : MockSealer → Result Unsealed × MockSealer
mock_unseal s = (
  ok (record { unencrypted = s.unencrypted_data; decrypted = s.mock_data; error = s.unseal_error }),
  s,
)

-- MockSealer.Seal
abbrev pub mock_seal : Slice → Bytes → MockSealer → Result (Unit {0}) × MockSealer
mock_seal unencrypted to_be_encrypted s =
    (ok tt, record s { unencrypted_data = unencrypted; mock_data = some to_be_encrypted })

-- MockSealer as a seal.Sealer; its SetEncryptionKey does nothing
abbrev pub mock_sealer : Sealer
mock_sealer = record {
  State = MockSealer;
  seal = mock_seal;
  unseal = mock_unseal;
  set_encryption_key = λ key s. (ok tt, s);
}
