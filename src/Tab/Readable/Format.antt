-- ===== src/Tab/Readable/Format.antt =====
-- What borsh documents of the derived codec: fixed-size fields side by side, words in little-endian
-- order, a vector behind its length, an enum behind its variant's index (program/readable/src/lib.rs).
use xete_programs.Base.{◌+◌, ◌≡◌, [], ◌∷◌, some, Bytes, length, slice, get_or}
use xete_programs.Base.Words.{from_le, i64_from_le, u64_le, i64_le}
use xete_programs.Chain.Writes.{concat}
use xete_programs.Tab.Checks.{state_len}
use xete_programs.Tab.Spec.{salt_of}
use xete_programs.Tab.Readable.State.{Borsh, Settlement, SettlementInstruction}

-- The state in 81 bytes.
abbrev pub settlement_of : Bytes → Settlement
settlement_of s = record {
  depositor = slice s 0 32;
  amount = from_le (slice s 32 40);
  beneficiary_commitment = slice s 40 72;
  unlock_time = i64_from_le (slice s 72 80);
  bump = get_or s 80 0;
}

pub record IsBorsh (codec : Borsh) : Type 0 where
  pub claim_decoded :
      (d : Bytes)
      → length d ≡ 36 + from_le (slice d 32 36)
      → codec.instruction_from_slice (1 ∷ d)
        ≡ some (SettlementInstruction.claim (slice d 0 32) (salt_of d))
  pub reclaim_decoded :
      (d : Bytes)
      → length d ≡ 32
      → codec.instruction_from_slice (2 ∷ d) ≡ some (SettlementInstruction.reclaim (slice d 0 32))
  pub settlement_decoded :
      (s : Bytes) → length s ≡ state_len → codec.settlement_from_slice s ≡ some (settlement_of s)
  pub deposit_decoded :
      (d : Bytes)
      → length d ≡ 80
      → codec.instruction_from_slice (0 ∷ d)
        ≡ some (
            SettlementInstruction.deposit
              (slice d 0 32)
              (from_le (slice d 32 40))
              (slice d 40 72)
              (i64_from_le (slice d 72 80)))
  pub settlement_encoded :
      (x : Settlement)
      → codec.settlement_to_vec x
        ≡ concat (
            x.depositor
            ∷ u64_le x.amount
            ∷ x.beneficiary_commitment
            ∷ i64_le x.unlock_time
            ∷ (x.bump ∷ [])
            ∷ [])
