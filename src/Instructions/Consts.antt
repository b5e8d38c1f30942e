-- ===== src/Instructions/Consts.antt =====
-- lib/src/consts.ts: the addresses of programs, as the codes of their Base58 texts.
use swig_protocol_sdk.Common.{[], ◌∷◌, Bytes, replicate}

-- '11111111111111111111111111111111'
abbrev pub system_program_address_string : Bytes
system_program_address_string = replicate 32 49

-- 'TokenkegQfeZyiNwAJbNbGKPFXCWuBvf9Ss623VQ5DA'
abbrev pub token_program_address_string : Bytes
token_program_address_string =
    84 ∷ 111 ∷ 107 ∷ 101 ∷ 110 ∷ 107 ∷ 101 ∷ 103 ∷ 81 ∷ 102 ∷ 101 ∷ 90 ∷ 121 ∷ 105 ∷ 78 ∷ 119 ∷ 65
    ∷ 74 ∷ 98 ∷ 78 ∷ 98 ∷ 71 ∷ 75 ∷ 80 ∷ 70 ∷ 88 ∷ 67 ∷ 87 ∷ 117 ∷ 66 ∷ 118 ∷ 102 ∷ 57 ∷ 83 ∷ 115
    ∷ 54 ∷ 50 ∷ 51 ∷ 86 ∷ 81 ∷ 53 ∷ 68 ∷ 65 ∷ []

-- 'SysvarRent111111111111111111111111111111111'
abbrev pub sysvar_rent_address_string : Bytes
sysvar_rent_address_string =
    83 ∷ 121 ∷ 115 ∷ 118 ∷ 97 ∷ 114 ∷ 82 ∷ 101 ∷ 110 ∷ 116 ∷ 49 ∷ 49 ∷ 49 ∷ 49 ∷ 49 ∷ 49 ∷ 49 ∷ 49
    ∷ 49 ∷ 49 ∷ 49 ∷ 49 ∷ 49 ∷ 49 ∷ 49 ∷ 49 ∷ 49 ∷ 49 ∷ 49 ∷ 49 ∷ 49 ∷ 49 ∷ 49 ∷ 49 ∷ 49 ∷ 49 ∷ 49
    ∷ 49 ∷ 49 ∷ 49 ∷ 49 ∷ 49 ∷ 49 ∷ []

-- 'swigypWHEksbC64pWKwah1WTeh9JXwx8H1rJHLdbQMB'
abbrev pub swig_program_address_string : Bytes
swig_program_address_string =
    115 ∷ 119 ∷ 105 ∷ 103 ∷ 121 ∷ 112 ∷ 87 ∷ 72 ∷ 69 ∷ 107 ∷ 115 ∷ 98 ∷ 67 ∷ 54 ∷ 52 ∷ 112 ∷ 87 ∷ 75
    ∷ 119 ∷ 97 ∷ 104 ∷ 49 ∷ 87 ∷ 84 ∷ 101 ∷ 104 ∷ 57 ∷ 74 ∷ 88 ∷ 119 ∷ 120 ∷ 56 ∷ 72 ∷ 49 ∷ 114 ∷ 74
    ∷ 72 ∷ 76 ∷ 100 ∷ 98 ∷ 81 ∷ 77 ∷ 66 ∷ []

-- 'Sysvar1nstructions1111111111111111111111111'
abbrev pub instructions_sysvar_string : Bytes
instructions_sysvar_string =
    83 ∷ 121 ∷ 115 ∷ 118 ∷ 97 ∷ 114 ∷ 49 ∷ 110 ∷ 115 ∷ 116 ∷ 114 ∷ 117 ∷ 99 ∷ 116 ∷ 105 ∷ 111 ∷ 110
    ∷ 115 ∷ 49 ∷ 49 ∷ 49 ∷ 49 ∷ 49 ∷ 49 ∷ 49 ∷ 49 ∷ 49 ∷ 49 ∷ 49 ∷ 49 ∷ 49 ∷ 49 ∷ 49 ∷ 49 ∷ 49 ∷ 49
    ∷ 49 ∷ 49 ∷ 49 ∷ 49 ∷ 49 ∷ 49 ∷ 49 ∷ []

-- 'Secp256r1SigVerify1111111111111111111111111'
abbrev pub secp256r1_program_string : Bytes
secp256r1_program_string =
    83 ∷ 101 ∷ 99 ∷ 112 ∷ 50 ∷ 53 ∷ 54 ∷ 114 ∷ 49 ∷ 83 ∷ 105 ∷ 103 ∷ 86 ∷ 101 ∷ 114 ∷ 105 ∷ 102
    ∷ 121 ∷ 49 ∷ 49 ∷ 49 ∷ 49 ∷ 49 ∷ 49 ∷ 49 ∷ 49 ∷ 49 ∷ 49 ∷ 49 ∷ 49 ∷ 49 ∷ 49 ∷ 49 ∷ 49 ∷ 49 ∷ 49
    ∷ 49 ∷ 49 ∷ 49 ∷ 49 ∷ 49 ∷ 49 ∷ 49 ∷ []
