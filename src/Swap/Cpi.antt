-- ===== src/Swap/Cpi.antt =====
-- The calls into other programs (swap/src/cpi.rs).
pub mod Calls
use xete_programs.Base.{
  ℕ, [], ◌∷◌, ◌++◌, List, Option, some, none, Bytes, if◌then◌else◌, bytes_eq, Bool, true, false,
}
use xete_programs.Base.Words.{u64_le}
use xete_programs.Chain.Types.{
  Pubkey, AccountInfo, AccountMeta, Runtime, Call, create_account, transfer_lamports, approve,
  revoke, initialize_account3, transfer_checked, close_account, raw,
}
use xete_programs.Chain.Action.{Action, lift, perform, ◌>>=◌}
use xete_programs.Chain.Sweep.{sweep}

-- `AccountMeta::new` and `AccountMeta::new_readonly`
abbrev pub writable : Pubkey → Bool → AccountMeta
writable k signer = record { pubkey = k; is_signer = signer; is_writable = true }

abbrev pub readonly : Pubkey → Bool → AccountMeta
readonly k signer = record { pubkey = k; is_signer = signer; is_writable = false }

unfoldable pub create_pda :
    Runtime → AccountInfo → AccountInfo → AccountInfo → ℕ → Pubkey → List Bytes → Action (Unit {0})
create_pda rt payer acct system space owner seeds = do
  lamports ← lift (rt.minimum_balance space)
  perform rt (record {
    instruction = create_account payer.key acct.key lamports space owner;
    infos = payer ∷ acct ∷ system ∷ [];
    seeds = some seeds;
  })

-- The accounts of a Token-Metadata transfer, in the source's order.
pub record MplTransfer : Type 0 where
  pub tm : AccountInfo
  pub src_ta : AccountInfo
  pub token_owner : AccountInfo
  pub dst_ta : AccountInfo
  pub dst_owner : AccountInfo
  pub mint : AccountInfo
  pub metadata : AccountInfo
  pub edition : AccountInfo
  pub owner_record : AccountInfo
  pub dst_record : AccountInfo
  pub authority : AccountInfo
  pub payer : AccountInfo
  pub system : AccountInfo
  pub sysvar_ix : AccountInfo
  pub spl_tok : AccountInfo
  pub ata_prog : AccountInfo
  pub rules_prog : AccountInfo
  pub rules : AccountInfo

unfoldable pub mpl_transfer : Runtime → MplTransfer → ℕ → Option (List Bytes) → Action (Unit {0})
mpl_transfer rt a amount signer_seeds = perform rt (record {
  instruction = raw (record {
    program_id = a.tm.key;
    accounts =
        writable a.src_ta.key false
        ∷ readonly a.token_owner.key false
        ∷ writable a.dst_ta.key false
        ∷ readonly a.dst_owner.key false
        ∷ readonly a.mint.key false
        ∷ writable a.metadata.key false
        ∷ readonly a.edition.key false
        ∷ writable a.owner_record.key false
        ∷ writable a.dst_record.key false
        ∷ readonly a.authority.key true
        ∷ writable a.payer.key true
        ∷ readonly a.system.key false
        ∷ readonly a.sysvar_ix.key false
        ∷ readonly a.spl_tok.key false
        ∷ readonly a.ata_prog.key false
        ∷ readonly a.rules_prog.key false
        ∷ readonly a.rules.key false
        ∷ [];
    bytes = 0x31 ∷ (0x00 ∷ (u64_le amount ++ (0x00 ∷ [])));
  });
  infos =
      a.src_ta ∷ a.token_owner ∷ a.dst_ta ∷ a.dst_owner ∷ a.mint ∷ a.metadata ∷ a.edition
      ∷ a.owner_record ∷ a.dst_record ∷ a.authority ∷ a.payer ∷ a.system ∷ a.sysvar_ix ∷ a.spl_tok
      ∷ a.ata_prog ∷ a.rules_prog ∷ a.rules ∷ a.tm ∷ [];
  seeds = signer_seeds;
})

unfoldable pub mpl_core_transfer :
    Runtime
    → (core asset collection payer authority new_owner : AccountInfo) → Bool
    → Option (List Bytes)
    → Action (Unit {0})
mpl_core_transfer rt core asset collection payer authority new_owner authority_is_signer
      signer_seeds =
    perform rt (record {
      instruction = raw (record {
        program_id = core.key;
        accounts =
            writable asset.key false
            ∷ readonly collection.key false
            ∷ writable payer.key true
            ∷ readonly authority.key authority_is_signer
            ∷ readonly new_owner.key false
            ∷ readonly core.key false
            ∷ readonly core.key false
            ∷ [];
        bytes = 0x0e ∷ 0x00 ∷ [];
      });
      infos = asset ∷ collection ∷ payer ∷ authority ∷ new_owner ∷ core ∷ [];
      seeds = signer_seeds;
    })

-- The accounts of a Token-Metadata delegation, in the source's order.
pub record MplDelegate : Type 0 where
  pub tm : AccountInfo
  pub token_record : AccountInfo
  pub delegate : AccountInfo
  pub metadata : AccountInfo
  pub edition : AccountInfo
  pub mint : AccountInfo
  pub owner_ata : AccountInfo
  pub authority : AccountInfo
  pub payer : AccountInfo
  pub system : AccountInfo
  pub sysvar_ix : AccountInfo
  pub spl_tok : AccountInfo
  pub rules_prog : AccountInfo
  pub rules : AccountInfo

unfoldable pub mpl_delegate_or_revoke : Runtime → MplDelegate → ℕ → Bool → Action (Unit {0})
mpl_delegate_or_revoke rt a amount revoked = perform rt (record {
  instruction = raw (record {
    program_id = a.tm.key;
    accounts =
        writable a.token_record.key false
        ∷ readonly a.delegate.key false
        ∷ writable a.metadata.key false
        ∷ readonly a.edition.key false
        ∷ writable a.token_record.key false
        ∷ readonly a.mint.key false
        ∷ writable a.owner_ata.key false
        ∷ readonly a.authority.key true
        ∷ writable a.payer.key true
        ∷ readonly a.system.key false
        ∷ readonly a.sysvar_ix.key false
        ∷ readonly a.spl_tok.key false
        ∷ readonly a.rules_prog.key false
        ∷ readonly a.rules.key false
        ∷ [];
    bytes = if revoked then 0x2d ∷ 0x02 ∷ [] else 0x2c ∷ (0x02 ∷ (u64_le amount ++ (0x00 ∷ [])));
  });
  infos =
      a.token_record ∷ a.delegate ∷ a.metadata ∷ a.edition ∷ a.mint ∷ a.owner_ata ∷ a.authority
      ∷ a.payer ∷ a.system ∷ a.sysvar_ix ∷ a.spl_tok ∷ a.rules_prog ∷ a.rules ∷ a.tm ∷ [];
  seeds = none;
})

unfoldable pub mpl_core_plugin :
    Runtime
    → (core asset collection signer system : AccountInfo) → Bytes
    → Option (List Bytes)
    → Action (Unit {0})
mpl_core_plugin rt core asset collection signer system payload signer_seeds = perform rt (record {
  instruction = raw (record {
    program_id = core.key;
    accounts =
        writable asset.key false
        ∷ (if bytes_eq collection.key core.key
            then readonly core.key false
            else writable collection.key false)
        ∷ writable signer.key true
        ∷ readonly core.key false
        ∷ readonly system.key false
        ∷ readonly core.key false
        ∷ [];
    bytes = payload;
  });
  infos = asset ∷ collection ∷ signer ∷ system ∷ core ∷ [];
  seeds = signer_seeds;
})

unfoldable pub token_approve :
    Runtime → (token_prog source delegate authority : AccountInfo) → ℕ → Action (Unit {0})
token_approve rt token_prog source delegate authority amount = perform rt (record {
  instruction = approve token_prog.key source.key delegate.key authority.key amount;
  infos = source ∷ delegate ∷ authority ∷ token_prog ∷ [];
  seeds = none;
})

unfoldable pub token_revoke :
    Runtime → (token_prog source authority : AccountInfo) → Action (Unit {0})
token_revoke rt token_prog source authority = perform rt (record {
  instruction = revoke token_prog.key source.key authority.key;
  infos = source ∷ authority ∷ token_prog ∷ [];
  seeds = none;
})

unfoldable pub token_init :
    Runtime → (token_prog acct mint : AccountInfo) → Pubkey → Action (Unit {0})
token_init rt token_prog acct mint authority = perform rt (record {
  instruction = initialize_account3 token_prog.key acct.key mint.key authority;
  infos = acct ∷ mint ∷ token_prog ∷ [];
  seeds = none;
})

-- The call of `transfer_checked` on its way to the token program.
unfoldable pub transfer_call :
    (token_prog source mint dest authority : AccountInfo) (amount decimals : ℕ)
    → Option (List Bytes)
    → Call
transfer_call token_prog source mint dest authority amount decimals signer_seeds = record {
  instruction = transfer_checked (record {
    program_id = token_prog.key;
    source = source.key;
    mint = mint.key;
    dest = dest.key;
    authority = authority.key;
    amount = amount;
    decimals = decimals;
  });
  infos = source ∷ mint ∷ dest ∷ authority ∷ token_prog ∷ [];
  seeds = signer_seeds;
}

unfoldable pub token_transfer :
    Runtime
    → (token_prog source mint dest authority : AccountInfo) (amount decimals : ℕ)
    → Option (List Bytes)
    → Action (Unit {0})
token_transfer rt token_prog source mint dest authority amount decimals signer_seeds =
    perform rt (transfer_call token_prog source mint dest authority amount decimals signer_seeds)

unfoldable pub close_call : (token_prog acct dest authority : AccountInfo) → List Bytes → Call
close_call token_prog acct dest authority seeds = record {
  instruction = close_account token_prog.key acct.key dest.key authority.key;
  infos = acct ∷ dest ∷ authority ∷ token_prog ∷ [];
  seeds = some seeds;
}

unfoldable pub token_close :
    Runtime → (token_prog acct dest authority : AccountInfo) → List Bytes → Action (Unit {0})
token_close rt token_prog acct dest authority seeds =
    perform rt (close_call token_prog acct dest authority seeds)

-- `invoke(&system_instruction::transfer(..))`, as the handlers write it in place.
unfoldable pub pay_lamports : Runtime → (from to system : AccountInfo) → ℕ → Action (Unit {0})
pay_lamports rt from to system lamports = perform rt (record {
  instruction = transfer_lamports from.key to.key lamports;
  infos = from ∷ to ∷ system ∷ [];
  seeds = none;
})

unfoldable pub close : AccountInfo → AccountInfo → Action (Unit {0})
unfolding sweep
close account dest = sweep account dest
