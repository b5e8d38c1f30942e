-- ===== src/Coder/ScopeTypes.antt =====
-- The enums of coder/src/types/programScope.ts.
use swig_protocol_sdk.Common.{ℕ, ◌<◌, ◌≡◌, refl, Option, some, List, [], ◌∷◌, arith, get_elem?}

-- The kind of a program scope.
pub data ProgramScopeType : Type 0 where
  basic : ProgramScopeType
  limit : ProgramScopeType
  recurring_limit : ProgramScopeType

unfoldable pub program_scope_type_code : ProgramScopeType → ℕ
program_scope_type_code basic = 0
program_scope_type_code limit = 1
program_scope_type_code recurring_limit = 2

abbrev pub program_scope_type_all : List ProgramScopeType
program_scope_type_all = basic ∷ limit ∷ recurring_limit ∷ []

-- The variant at a number.
unfoldable pub program_scope_type_variant : ℕ → Option ProgramScopeType
program_scope_type_variant = get_elem? program_scope_type_all

-- The number of a variant leads back to it.
pub program_scope_type_variant-code :
    (e : ProgramScopeType) → program_scope_type_variant (program_scope_type_code e) ≡ some e
unfolding program_scope_type_code program_scope_type_variant
program_scope_type_variant-code basic = refl
program_scope_type_variant-code limit = refl
program_scope_type_variant-code recurring_limit = refl

pub program_scope_type_code-lt : (e : ProgramScopeType) → program_scope_type_code e < 3
unfolding program_scope_type_code
program_scope_type_code-lt basic = omega arith
program_scope_type_code-lt _ = omega arith

-- The type of the balance in a scoped account.
pub data NumericType : Type 0 where
  u8 : NumericType
  u32 : NumericType
  u64 : NumericType
  u128 : NumericType

unfoldable pub numeric_type_code : NumericType → ℕ
numeric_type_code u8 = 0
numeric_type_code u32 = 1
numeric_type_code u64 = 2
numeric_type_code u128 = 3

abbrev pub numeric_type_all : List NumericType
numeric_type_all = u8 ∷ u32 ∷ u64 ∷ u128 ∷ []

-- The variant at a number.
unfoldable pub numeric_type_variant : ℕ → Option NumericType
numeric_type_variant = get_elem? numeric_type_all

-- The number of a variant leads back to it.
pub numeric_type_variant-code :
    (e : NumericType) → numeric_type_variant (numeric_type_code e) ≡ some e
unfolding numeric_type_code numeric_type_variant
numeric_type_variant-code u8 = refl
numeric_type_variant-code u32 = refl
numeric_type_variant-code u64 = refl
numeric_type_variant-code u128 = refl

pub numeric_type_code-lt : (e : NumericType) → numeric_type_code e < 4
unfolding numeric_type_code
numeric_type_code-lt u8 = omega arith
numeric_type_code-lt _ = omega arith
