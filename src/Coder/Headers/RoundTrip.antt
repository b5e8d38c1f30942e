-- ===== src/Coder/Headers/RoundTrip.antt =====
-- Each layout has its fixed size, and reading takes back what was written.
use swig_protocol_sdk.Common.{arith}
use swig_protocol_sdk.Kit.{Kit, Encodes}
use swig_protocol_sdk.Kit.Laws.{
  Encodes-then, Encodes-last, Encodes-uint, Encodes-fixed, Encodes-enum,
}
use swig_protocol_sdk.Coder.AuthorityTypes.{
  authority_type_code, authority_type_variant, authority_type_variant-code, authority_type_code-lt,
}
use swig_protocol_sdk.Coder.Permissions.{
  permission_code, permission_variant, permission_variant-code, permission_code-lt,
}
use swig_protocol_sdk.Coder.Headers.{
  ActionHeader, write_action_header, read_action_header, IsActionHeader, Position, write_position,
  read_position, IsPosition, SwigTailHeader, write_swig_tail_header, read_swig_tail_header,
  IsSwigTailHeader, AuthorizationLock, write_authorization_lock, read_authorization_lock,
  IsAuthorizationLock,
}

module _ ⦃kit : Kit⦄ where
  pub Encodes-action_header :
      (x : ActionHeader) → IsActionHeader x → Encodes (write_action_header x) 8 read_action_header x
  unfolding write_action_header read_action_header
  Encodes-action_header x v =
      Encodes-then _
        (Encodes-enum permission_code permission_variant 2 x.permission
          (omega (arith, permission_code-lt x.permission)) (permission_variant-code x.permission))
        (Encodes-then _ (Encodes-uint 2 x.length v.length_fits)
          (Encodes-last _ (Encodes-uint 4 x.boundary v.boundary_fits)))

  pub Encodes-position :
      (x : Position) → IsPosition x → Encodes (write_position x) 16 read_position x
  unfolding write_position read_position
  Encodes-position x v =
      Encodes-then _
        (Encodes-enum authority_type_code authority_type_variant 2 x.authority_type
          (omega (arith, authority_type_code-lt x.authority_type))
          (authority_type_variant-code x.authority_type))
        (Encodes-then _ (Encodes-uint 2 x.authority_len v.authority_len_fits) (
          Encodes-then _ (Encodes-uint 2 x.num_actions v.num_actions_fits) (
            Encodes-then _ (Encodes-fixed 2 x.padding v.padding_fits) (
              Encodes-then _ (Encodes-uint 4 x.id v.id_fits)
                (Encodes-last _ (Encodes-uint 4 x.boundary v.boundary_fits))))))

  pub Encodes-swig_tail_header :
      (x : SwigTailHeader)
      → IsSwigTailHeader x
      → Encodes (write_swig_tail_header x) 8 read_swig_tail_header x
  unfolding write_swig_tail_header read_swig_tail_header
  Encodes-swig_tail_header x v = Encodes-then _ (Encodes-uint 1 x.kind v.kind_fits) (
      Encodes-then _ (Encodes-uint 1 x.version v.version_fits) (
        Encodes-then _ (Encodes-uint 2 x.value_len v.value_len_fits)
          (Encodes-last _ (Encodes-fixed 4 x.payload v.payload_fits))))

  pub Encodes-authorization_lock :
      (x : AuthorizationLock)
      → IsAuthorizationLock x
      → Encodes (write_authorization_lock x) 88 read_authorization_lock x
  unfolding write_authorization_lock read_authorization_lock
  Encodes-authorization_lock x v =
      Encodes-then _ (Encodes-fixed 32 x.asset_account v.asset_account_fits) (
        Encodes-then _ (Encodes-fixed 32 x.mint v.mint_fits) (
          Encodes-then _ (Encodes-uint 8 x.amount v.amount_fits) (
            Encodes-then _ (Encodes-uint 8 x.expiry_slot v.expiry_slot_fits) (
              Encodes-then _ (Encodes-uint 4 x.role_id v.role_id_fits)
                (Encodes-last _ (Encodes-uint 4 x.lock_id v.lock_id_fits))))))
