-- ===== src/Swap/Ids.antt =====
-- The addresses of the programs that the swap program calls (swap/src/cpi.rs, swap/src/order.rs).
use xete_programs.Base.{[], ◌∷◌}
use xete_programs.Chain.Types.{Pubkey}

-- TokenzQdBNbLqP5VEhdkAS6EPFLC1PHnBqCXEpPxuEb
unfoldable pub token_2022_id : Pubkey
token_2022_id =
    6 ∷ 221 ∷ 246 ∷ 225 ∷ 238 ∷ 117 ∷ 143 ∷ 222 ∷ 24 ∷ 66 ∷ 93 ∷ 188 ∷ 228 ∷ 108 ∷ 205 ∷ 218 ∷ 182
    ∷ 26 ∷ 252 ∷ 77 ∷ 131 ∷ 185 ∷ 13 ∷ 39 ∷ 254 ∷ 189 ∷ 249 ∷ 40 ∷ 216 ∷ 161 ∷ 139 ∷ 252 ∷ []

-- metaqbxxUerdq28cj1RbAWkYQm3ybzjb6a8bt518x1s
unfoldable pub token_metadata_id : Pubkey
token_metadata_id =
    11 ∷ 112 ∷ 101 ∷ 177 ∷ 227 ∷ 209 ∷ 124 ∷ 69 ∷ 56 ∷ 157 ∷ 82 ∷ 127 ∷ 107 ∷ 4 ∷ 195 ∷ 205 ∷ 88
    ∷ 184 ∷ 108 ∷ 115 ∷ 26 ∷ 160 ∷ 253 ∷ 181 ∷ 73 ∷ 182 ∷ 209 ∷ 188 ∷ 3 ∷ 248 ∷ 41 ∷ 70 ∷ []

-- Sysvar1nstructions1111111111111111111111111
unfoldable pub sysvar_instructions_id : Pubkey
sysvar_instructions_id =
    6 ∷ 167 ∷ 213 ∷ 23 ∷ 24 ∷ 123 ∷ 209 ∷ 102 ∷ 53 ∷ 218 ∷ 212 ∷ 4 ∷ 85 ∷ 253 ∷ 194 ∷ 192 ∷ 193 ∷ 36
    ∷ 198 ∷ 143 ∷ 33 ∷ 86 ∷ 117 ∷ 165 ∷ 219 ∷ 186 ∷ 203 ∷ 95 ∷ 8 ∷ 0 ∷ 0 ∷ 0 ∷ []

-- ATokenGPvbdGVxr1b2hvZbsiqW5xWH25efTNsLJA8knL
unfoldable pub ata_program_id : Pubkey
ata_program_id =
    140 ∷ 151 ∷ 37 ∷ 143 ∷ 78 ∷ 36 ∷ 137 ∷ 241 ∷ 187 ∷ 61 ∷ 16 ∷ 41 ∷ 20 ∷ 142 ∷ 13 ∷ 131 ∷ 11 ∷ 90
    ∷ 19 ∷ 153 ∷ 218 ∷ 255 ∷ 16 ∷ 132 ∷ 4 ∷ 142 ∷ 123 ∷ 216 ∷ 219 ∷ 233 ∷ 248 ∷ 89 ∷ []

-- CoREENxT6tW1HoK8ypY1SxRMZTcVPm7R94rH4PZNhX7d
unfoldable pub mpl_core_id : Pubkey
mpl_core_id =
    175 ∷ 84 ∷ 171 ∷ 16 ∷ 189 ∷ 151 ∷ 165 ∷ 66 ∷ 160 ∷ 158 ∷ 247 ∷ 179 ∷ 152 ∷ 137 ∷ 221 ∷ 12 ∷ 211
    ∷ 148 ∷ 164 ∷ 204 ∷ 233 ∷ 223 ∷ 166 ∷ 205 ∷ 201 ∷ 126 ∷ 190 ∷ 45 ∷ 35 ∷ 91 ∷ 167 ∷ 72 ∷ []

-- Ed25519SigVerify111111111111111111111111111
unfoldable pub ed25519_program : Pubkey
ed25519_program =
    3 ∷ 125 ∷ 70 ∷ 214 ∷ 124 ∷ 147 ∷ 251 ∷ 190 ∷ 18 ∷ 249 ∷ 66 ∷ 143 ∷ 131 ∷ 141 ∷ 64 ∷ 255 ∷ 5
    ∷ 112 ∷ 116 ∷ 73 ∷ 39 ∷ 244 ∷ 138 ∷ 100 ∷ 252 ∷ 202 ∷ 112 ∷ 68 ∷ 128 ∷ 0 ∷ 0 ∷ 0 ∷ []
