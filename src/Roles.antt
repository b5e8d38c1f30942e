-- ===== src/Roles.antt =====
-- lib/src/role/index.ts, and getAuthority of lib/src/authority/getAuthority.ts: the roles of an
-- account, decoded from its roles buffer. An authority keeps the raw bytes that it was made from.
pub mod Layout
use swig_protocol_sdk.Common.{
  ℕ, zero, suc, ◌+◌, Bool, true, false, not, Option, none, some, List, [], ◌∷◌, Bytes, slice, take,
  drop, ◌>>=◌,
}
use swig_protocol_sdk.Kit.{Kit, decode}
use swig_protocol_sdk.Coder.AuthorityTypes.{AuthorityType}
use swig_protocol_sdk.Coder.Headers.{Position, read_position}
use swig_protocol_sdk.Actions.Collection.{Actions, from}

-- An object of one of the eight classes of authorities.
pub data Authority : Type 0 where
  ed25519_authority : Bytes → Authority
  ed25519_session_authority : Bytes → Authority
  secp256k1_authority : Bytes → Authority
  secp256k1_session_authority : Bytes → Authority
  secp256r1_authority : Bytes → Authority
  secp256r1_session_authority : Bytes → Authority
  program_exec_authority : Bytes → Authority
  program_exec_session_authority : Bytes → Authority

-- `getAuthority`; `getRoleAuthority` calls it as it is.
unfoldable pub get_authority : AuthorityType → Bytes → Option Authority
get_authority AuthorityType.ed25519 bs = some (ed25519_authority bs)
get_authority AuthorityType.ed25519_session bs = some (ed25519_session_authority bs)
get_authority AuthorityType.secp256k1 bs = some (secp256k1_authority bs)
get_authority AuthorityType.secp256k1_session bs = some (secp256k1_session_authority bs)
get_authority AuthorityType.secp256r1 bs = some (secp256r1_authority bs)
get_authority AuthorityType.secp256r1_session bs = some (secp256r1_session_authority bs)
get_authority AuthorityType.program_exec bs = some (program_exec_authority bs)
get_authority AuthorityType.program_exec_session bs = some (program_exec_session_authority bs)
get_authority AuthorityType.no_authority bs = none

-- `authority instanceof SessionBasedAuthority`.
unfoldable pub is_session_based_authority : Authority → Bool
is_session_based_authority (ed25519_session_authority _) = true
is_session_based_authority (secp256k1_session_authority _) = true
is_session_based_authority (secp256r1_session_authority _) = true
is_session_based_authority (program_exec_session_authority _) = true
is_session_based_authority _ = false

-- `authority instanceof TokenBasedAuthority`.
unfoldable pub is_token_based_authority : Authority → Bool
is_token_based_authority (ed25519_authority _) = true
is_token_based_authority (secp256k1_authority _) = true
is_token_based_authority (secp256r1_authority _) = true
is_token_based_authority (program_exec_authority _) = true
is_token_based_authority _ = false

pub record Role : Type 0 where
  pub swig_address : Bytes
  pub position : Position
  pub authority : Authority
  pub actions : Actions
  pub swig_id : Bytes

unfoldable pub id : Role → ℕ
id role = role.position.id

unfoldable pub authority_type : Role → AuthorityType
authority_type role = role.position.authority_type

unfoldable pub is_session_based : Role → Bool
unfolding is_session_based_authority
is_session_based role = is_session_based_authority role.authority

unfoldable pub is_token_based : Role → Bool
unfolding is_token_based_authority
is_token_based role = is_token_based_authority role.authority

module _ ⦃kit : Kit⦄ where
  -- `Role.from`, with `deserializeRoleData` in it: the authority's bytes, and the actions behind.
  unfoldable pub role_from : Bytes → Position → Bytes → Bytes → Option Role
  unfolding get_authority
  role_from swig_address position role_data swig_id = do
    authority ← get_authority position.authority_type (take position.authority_len role_data)
    actions ← from (drop position.authority_len role_data) position.num_actions
    some (record {
      swig_address = swig_address;
      position = position;
      authority = authority;
      actions = actions;
      swig_id = swig_id;
    })

  -- The loop of `deserializeRoles`, from `cursor` on.
  unfoldable pub deserialize_roles_from : Bytes → Bytes → Bytes → ℕ → ℕ → Option (List Role)
  unfolding role_from
  deserialize_roles_from swig_address swig_id roles_buffer cursor zero = some []
  deserialize_roles_from swig_address swig_id roles_buffer cursor (suc count) = do
    position ← decode read_position (slice roles_buffer cursor (cursor + 16))
    role ←
        role_from swig_address position (slice roles_buffer (cursor + 16) position.boundary) swig_id
    rest ← deserialize_roles_from swig_address swig_id roles_buffer position.boundary count
    some (role ∷ rest)

  unfoldable pub deserialize_roles : Bytes → Bytes → ℕ → Bytes → Option (List Role)
  unfolding deserialize_roles_from
  deserialize_roles swig_address roles_buffer count swig_id =
      deserialize_roles_from swig_address swig_id roles_buffer 0 count
