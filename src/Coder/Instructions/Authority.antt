-- ===== src/Coder/Instructions/Authority.antt =====
-- The instructions of coder/src/instructions on roles: addAuthorityV1.ts, removeAuthorityV1.ts and
-- updateAuthorityV1.ts. `write_…` is the encoder, `write_…_payload` the encoder of what an authority
-- signs. The decoder of removeAuthorityV1.ts, which reads a role's id as a float, is left out.
use swig_protocol_sdk.Common.{ℕ, Option, some, [], ◌∷◌, Bytes, length, zeros, get_elem?}
use swig_protocol_sdk.Kit.{Kit, Reader, ◌then_write◌, write_enum, read_enum}
use swig_protocol_sdk.Coder.AuthorityTypes.{AuthorityType, authority_type_code}
use swig_protocol_sdk.Coder.Instructions.Discriminator.{
  SwigInstructionDiscriminator, write_discriminator,
}

pub record AddAuthorityInstructionDataArgs : Type 0 where
  pub acting_role_id : ℕ
  pub new_authority_type : AuthorityType
  pub no_of_actions : ℕ
  pub new_authority_data : Bytes
  pub actions : Bytes
  pub authority_payload : Bytes

pub record RemoveAuthorityInstructionDataArgs : Type 0 where
  pub acting_role_id : ℕ
  pub authority_to_remove_id : ℕ
  pub authority_payload : Bytes

pub record UpdateAuthorityInstructionDataArgs : Type 0 where
  pub acting_role_id : ℕ
  pub authority_to_update_id : ℕ
  pub update_actions_payload : Bytes
  pub authority_payload : Bytes

-- How an update changes the actions of a role.
pub data UpdateAuthorityKind : Type 0 where
  replace_all : UpdateAuthorityKind
  add_actions : UpdateAuthorityKind
  remove_actions_by_type : UpdateAuthorityKind
  remove_actions_by_index : UpdateAuthorityKind

unfoldable pub update_authority_kind_code : UpdateAuthorityKind → ℕ
update_authority_kind_code replace_all = 0
update_authority_kind_code add_actions = 1
update_authority_kind_code remove_actions_by_type = 2
update_authority_kind_code remove_actions_by_index = 3

unfoldable pub update_authority_kind_variant : ℕ → Option UpdateAuthorityKind
update_authority_kind_variant =
    get_elem? (replace_all ∷ add_actions ∷ remove_actions_by_type ∷ remove_actions_by_index ∷ [])

module _ ⦃kit : Kit⦄ where
  unfoldable pub write_update_authority_kind : UpdateAuthorityKind → Option Bytes
  unfolding update_authority_kind_code
  write_update_authority_kind = write_enum update_authority_kind_code 1

  unfoldable pub read_update_authority_kind : Reader UpdateAuthorityKind
  unfolding update_authority_kind_variant
  read_update_authority_kind = read_enum update_authority_kind_variant 1

  -- The sizes of the two payloads are the codec's arguments.
  unfoldable pub write_add_authority : ℕ → ℕ → AddAuthorityInstructionDataArgs → Option Bytes
  unfolding write_discriminator
  write_add_authority payload_size new_authority_data_size x =
      write_discriminator SwigInstructionDiscriminator.add_authority_v1
      then_write kit.write_uint 2 new_authority_data_size
      then_write kit.write_uint 2 (length x.actions)
      then_write write_enum authority_type_code 2 x.new_authority_type
      then_write kit.write_uint 1 x.no_of_actions
      then_write some (kit.write_fixed 3 (zeros 3))
      then_write kit.write_uint 4 x.acting_role_id
      then_write some (kit.write_fixed new_authority_data_size x.new_authority_data)
      then_write some x.actions
      then_write some (kit.write_fixed payload_size x.authority_payload)

  unfoldable pub write_add_authority_payload : AddAuthorityInstructionDataArgs → Option Bytes
  unfolding write_discriminator
  write_add_authority_payload x =
      write_discriminator SwigInstructionDiscriminator.add_authority_v1
      then_write kit.write_uint 2 (length x.new_authority_data)
      then_write kit.write_uint 2 (length x.actions)
      then_write write_enum authority_type_code 2 x.new_authority_type
      then_write kit.write_uint 1 x.no_of_actions
      then_write some (kit.write_fixed 3 (zeros 3))
      then_write kit.write_uint 4 x.acting_role_id
      then_write some x.new_authority_data
      then_write some x.actions

  unfoldable pub write_remove_authority : ℕ → RemoveAuthorityInstructionDataArgs → Option Bytes
  unfolding write_discriminator
  write_remove_authority payload_size x =
      write_discriminator SwigInstructionDiscriminator.remove_authority_v1
      then_write kit.write_uint 2 payload_size
      then_write some (kit.write_fixed 4 (zeros 4))
      then_write kit.write_uint 4 x.acting_role_id
      then_write kit.write_uint 4 x.authority_to_remove_id
      then_write some (kit.write_fixed payload_size x.authority_payload)

  unfoldable pub write_remove_authority_payload :
      ℕ → RemoveAuthorityInstructionDataArgs → Option Bytes
  unfolding write_discriminator
  write_remove_authority_payload payload_size x =
      write_discriminator SwigInstructionDiscriminator.remove_authority_v1
      then_write kit.write_uint 2 payload_size
      then_write some (kit.write_fixed 4 (zeros 4))
      then_write kit.write_uint 4 x.acting_role_id
      then_write kit.write_uint 4 x.authority_to_remove_id

  unfoldable pub write_update_authority : UpdateAuthorityInstructionDataArgs → Option Bytes
  unfolding write_discriminator
  write_update_authority x =
      write_discriminator SwigInstructionDiscriminator.update_authority_v1
      then_write kit.write_uint 2 (length x.update_actions_payload)
      then_write kit.write_uint 1 0
      then_write some (kit.write_fixed 3 (zeros 3))
      then_write kit.write_uint 4 x.acting_role_id
      then_write kit.write_uint 4 x.authority_to_update_id
      then_write some x.update_actions_payload
      then_write some x.authority_payload

  unfoldable pub write_update_authority_payload : UpdateAuthorityInstructionDataArgs → Option Bytes
  unfolding write_discriminator
  write_update_authority_payload x =
      write_discriminator SwigInstructionDiscriminator.update_authority_v1
      then_write kit.write_uint 2 (length x.update_actions_payload)
      then_write kit.write_uint 1 0
      then_write some (kit.write_fixed 3 (zeros 3))
      then_write kit.write_uint 4 x.acting_role_id
      then_write kit.write_uint 4 x.authority_to_update_id
      then_write some x.update_actions_payload
