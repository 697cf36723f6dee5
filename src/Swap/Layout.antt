-- ===== src/Swap/Layout.antt =====
-- The byte layouts of the swap program's accounts (swap/src/state.rs): swap, offer, config, basket.
use xete_programs.Base.{ℕ}

abbrev pub s_maker : ℕ
s_maker = 0

abbrev pub s_give_mint : ℕ
s_give_mint = 32

abbrev pub s_give_amt : ℕ
s_give_amt = 64

abbrev pub s_want_mint : ℕ
s_want_mint = 72

abbrev pub s_want_amt : ℕ
s_want_amt = 104

abbrev pub s_taker : ℕ
s_taker = 112

abbrev pub s_terms : ℕ
s_terms = 144

abbrev pub s_expiry : ℕ
s_expiry = 176

abbrev pub s_status : ℕ
s_status = 184

abbrev pub s_bump : ℕ
s_bump = 185

abbrev pub s_nonce : ℕ
s_nonce = 186

abbrev pub s_royalty_mode : ℕ
s_royalty_mode = 218

abbrev pub s_maker_pct : ℕ
s_maker_pct = 219

abbrev pub swap_len : ℕ
swap_len = 220

abbrev pub royalty_none : ℕ
royalty_none = 0

abbrev pub royalty_maker : ℕ
royalty_maker = 1

abbrev pub royalty_taker : ℕ
royalty_taker = 2

abbrev pub royalty_split : ℕ
royalty_split = 3

abbrev pub token_acct_len : ℕ
token_acct_len = 165

abbrev pub status_open : ℕ
status_open = 0

abbrev pub o_offerer : ℕ
o_offerer = 0

abbrev pub o_swap : ℕ
o_swap = 32

abbrev pub o_want_mint : ℕ
o_want_mint = 64

abbrev pub o_want_amt : ℕ
o_want_amt = 96

abbrev pub o_give_mint : ℕ
o_give_mint = 104

abbrev pub o_give_amt : ℕ
o_give_amt = 136

abbrev pub o_expiry : ℕ
o_expiry = 144

abbrev pub o_status : ℕ
o_status = 152

abbrev pub o_bump : ℕ
o_bump = 153

abbrev pub o_nonce : ℕ
o_nonce = 154

abbrev pub offer_len : ℕ
offer_len = 186

abbrev pub c_admin : ℕ
c_admin = 0

abbrev pub c_fee_wallet : ℕ
c_fee_wallet = 32

abbrev pub c_fee_bps : ℕ
c_fee_bps = 64

abbrev pub c_delist_fee : ℕ
c_delist_fee = 66

abbrev pub c_alias_program : ℕ
c_alias_program = 74

abbrev pub c_fee_shards : ℕ
c_fee_shards = 106

abbrev pub c_bump : ℕ
c_bump = 107

abbrev pub config_len : ℕ
config_len = 108

abbrev pub bps_denom : ℕ
bps_denom = 10_000

abbrev pub alias_len : ℕ
alias_len = 106

abbrev pub max_leg : ℕ
max_leg = 5

abbrev pub entry : ℕ
entry = 40

abbrev pub b_maker : ℕ
b_maker = 0

abbrev pub b_give_count : ℕ
b_give_count = 32

abbrev pub b_want_count : ℕ
b_want_count = 33

abbrev pub b_give : ℕ
b_give = 34

abbrev pub b_want : ℕ
b_want = 234

abbrev pub b_taker : ℕ
b_taker = 434

abbrev pub b_auth_mode : ℕ
b_auth_mode = 466

abbrev pub b_claim_auth : ℕ
b_claim_auth = 467

abbrev pub b_expiry : ℕ
b_expiry = 499

abbrev pub b_status : ℕ
b_status = 507

abbrev pub b_bump : ℕ
b_bump = 508

abbrev pub b_nonce : ℕ
b_nonce = 509

abbrev pub basket_len : ℕ
basket_len = 541

abbrev pub auth_normal : ℕ
auth_normal = 0

abbrev pub auth_bearer : ℕ
auth_bearer = 1
