-- ===== src/Coder/AuthorityTypes.antt =====
-- The enum of coder/src/types/authorityType.ts, by the numbers of its members.
use swig_protocol_sdk.Common.{ℕ, ◌<◌, ◌≡◌, refl, Option, some, List, [], ◌∷◌, arith, get_elem?}

-- How an authority signs. `None` is `no_authority`.
pub data AuthorityType : Type 0 where
  no_authority : AuthorityType
  ed25519 : AuthorityType
  ed25519_session : AuthorityType
  secp256k1 : AuthorityType
  secp256k1_session : AuthorityType
  secp256r1 : AuthorityType
  secp256r1_session : AuthorityType
  program_exec : AuthorityType
  program_exec_session : AuthorityType

unfoldable pub authority_type_code : AuthorityType → ℕ
authority_type_code no_authority = 0
authority_type_code ed25519 = 1
authority_type_code ed25519_session = 2
authority_type_code secp256k1 = 3
authority_type_code secp256k1_session = 4
authority_type_code secp256r1 = 5
authority_type_code secp256r1_session = 6
authority_type_code program_exec = 7
authority_type_code program_exec_session = 8

abbrev pub authority_type_all : List AuthorityType
authority_type_all =
    no_authority ∷ ed25519 ∷ ed25519_session ∷ secp256k1 ∷ secp256k1_session ∷ secp256r1
    ∷ secp256r1_session ∷ program_exec ∷ program_exec_session ∷ []

-- The variant at a number.
unfoldable pub authority_type_variant : ℕ → Option AuthorityType
authority_type_variant = get_elem? authority_type_all

-- The number of a variant leads back to it.
pub authority_type_variant-code :
    (e : AuthorityType) → authority_type_variant (authority_type_code e) ≡ some e
unfolding authority_type_code authority_type_variant
authority_type_variant-code no_authority = refl
authority_type_variant-code ed25519 = refl
authority_type_variant-code ed25519_session = refl
authority_type_variant-code secp256k1 = refl
authority_type_variant-code secp256k1_session = refl
authority_type_variant-code secp256r1 = refl
authority_type_variant-code secp256r1_session = refl
authority_type_variant-code program_exec = refl
authority_type_variant-code program_exec_session = refl

pub authority_type_code-lt : (e : AuthorityType) → authority_type_code e < 9
unfolding authority_type_code
authority_type_code-lt no_authority = omega arith
authority_type_code-lt _ = omega arith
