-- ===== src/Swap/Pnft/Asset.antt =====
-- The accounts of a programmable NFT, and its moves (swap/src/pnft.rs).
use xete_programs.Base.{◌||◌, differs, List, Option, some, [], ◌∷◌, Bytes, ℕ}
use xete_programs.Chain.Result.{Result, invalid_argument, incorrect_program_id, fail_if}
use xete_programs.Chain.Types.{Pubkey, AccountInfo, Runtime}
use xete_programs.Chain.Action.{Action}
use xete_programs.Swap.Ids.{token_metadata_id, sysvar_instructions_id}
use xete_programs.Swap.Checks.{ata_for}
use xete_programs.Swap.Cpi.{mpl_transfer}
use xete_programs.Swap.Spl.Checks.{swap_seed}

-- The accounts that a Token-Metadata transfer takes whatever its direction.
pub record PnftAsset : Type 0 where
  pub mint : AccountInfo
  pub metadata : AccountInfo
  pub edition : AccountInfo
  pub owner_record : AccountInfo
  pub dest_record : AccountInfo
  pub token_metadata : AccountInfo
  pub spl_tok : AccountInfo
  pub ata_prog : AccountInfo
  pub sysvar_ix : AccountInfo
  pub system : AccountInfo
  pub rules_prog : AccountInfo
  pub rules : AccountInfo

-- `mpl_transfer(.., 1, seeds)`
unfoldable pub move_pnft :
    Runtime
    → PnftAsset
    → (src_ta token_owner dst_ta dst_owner authority payer : AccountInfo) → Option (List Bytes)
    → Action (Unit {0})
move_pnft rt n src_ta token_owner dst_ta dst_owner authority payer seeds =
    mpl_transfer rt
      (record {
        tm = n.token_metadata;
        src_ta = src_ta;
        token_owner = token_owner;
        dst_ta = dst_ta;
        dst_owner = dst_owner;
        mint = n.mint;
        metadata = n.metadata;
        edition = n.edition;
        owner_record = n.owner_record;
        dst_record = n.dest_record;
        authority = authority;
        payer = payer;
        system = n.system;
        sysvar_ix = n.sysvar_ix;
        spl_tok = n.spl_tok;
        ata_prog = n.ata_prog;
        rules_prog = n.rules_prog;
        rules = n.rules;
      })
      1 seeds

-- Out of the swap's vault, signed by the swap's address.
unfoldable pub release_pnft :
    Runtime
    → PnftAsset
    → (vault swap dst_ta dst_owner payer : AccountInfo) → (state_maker nonce : Bytes) → ℕ
    → Action (Unit {0})
unfolding move_pnft
release_pnft rt n vault swap dst_ta dst_owner payer state_maker nonce bump =
    move_pnft rt n vault swap dst_ta dst_owner swap payer
      (some (swap_seed ∷ state_maker ∷ nonce ∷ (bump ∷ []) ∷ []))

unfoldable pub check_pnft_programs : (token_metadata sysvar_ix : AccountInfo) → Result (Unit {0})
check_pnft_programs token_metadata sysvar_ix =
    fail_if
      (differs token_metadata.key token_metadata_id || differs sysvar_ix.key sysvar_instructions_id)
      incorrect_program_id

-- Two token accounts must be the associated ones of their owners.
unfoldable pub check_atas :
    Runtime
    → (mint : AccountInfo) → (first : AccountInfo) → Pubkey
    → (second : AccountInfo) → Pubkey
    → Result (Unit {0})
check_atas rt mint first first_owner second second_owner =
    fail_if
      (differs first.key (ata_for rt first_owner mint.key)
        || differs second.key (ata_for rt second_owner mint.key))
      invalid_argument
