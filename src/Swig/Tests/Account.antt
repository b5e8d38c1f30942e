-- ===== src/Swig/Tests/Account.antt =====
-- lib/src/swig/index.ts and lib/src/role/index.ts: an account with one role and a short tail, run
-- with little-endian codecs.
use swig_protocol_sdk.Common.{
  ◌+◌, ◌*◌, ◌≤◌, ◌<◌, ◌≡◌, ◌↔◌, refl, none, some, List, [], ◌∷◌, ◌++◌, ltb, ◌&&◌, if◌then◌else◌,
  Bytes, length, replicate, zeros, arith,
}
use swig_protocol_sdk.Kit.LittleEndian.{little_endian, read_le, le_value}
use swig_protocol_sdk.Coder.Permissions.{Permission, permission_variant}
use swig_protocol_sdk.Coder.AuthorityTypes.{AuthorityType, authority_type_variant}
use swig_protocol_sdk.Coder.Headers.{Position, read_position, read_action_header}
use swig_protocol_sdk.Coder.Accounts.{SwigAccount, IsSwigAccount, write_swig_account}
use swig_protocol_sdk.Actions.Payload.{ActionPayload, decode_action_payload}
use swig_protocol_sdk.Actions.Action.{Action}
use swig_protocol_sdk.Actions.Layout
use swig_protocol_sdk.Roles.{Role, Authority, get_authority, deserialize_roles}
use swig_protocol_sdk.Roles.Layout.{RolesLayout, deserialize_roles-Layout}
use swig_protocol_sdk.Swig.Tail.{roles_end, get_swig_tail}
use swig_protocol_sdk.Swig.Tail.Suffix.{get_swig_tail-suffix}
use swig_protocol_sdk.Swig.Account.{
  Swig, AccountVersion, account_version, sub_account_v2_counter, from_raw_account_data, roles, tail,
}
use swig_protocol_sdk.Swig.Account.Version.{sub_account_v2_counter-account_version}
use swig_protocol_sdk.Swig.Account.Read.{from_raw_account_data-written}

abbrev address : Bytes
address = replicate 32 4

abbrev swig_id : Bytes
swig_id = replicate 32 5

abbrev position : Position
position = record {
  authority_type = AuthorityType.ed25519;
  authority_len = 2;
  num_actions = 1;
  padding = zeros 2;
  id = 7;
  boundary = 26;
}

abbrev position_bytes : Bytes
position_bytes = 1 ∷ 0 ∷ 2 ∷ 0 ∷ 1 ∷ 0 ∷ 0 ∷ 0 ∷ 7 ∷ 0 ∷ 0 ∷ 0 ∷ 26 ∷ 0 ∷ 0 ∷ 0 ∷ []

abbrev action_bytes : Bytes
action_bytes = 13 ∷ 0 ∷ 0 ∷ 0 ∷ 8 ∷ 0 ∷ 0 ∷ 0 ∷ []

abbrev actions : List Action
actions =
    record {
      header = record { permission = Permission.program_all; length = 0; boundary = 8 };
      payload = ActionPayload.program_all;
    }
    ∷ []

abbrev one_role : List Role
one_role =
    record {
      swig_address = address;
      position = position;
      authority = Authority.ed25519_authority (8 ∷ 9 ∷ []);
      actions = record { raw = action_bytes; actions = actions };
      swig_id = swig_id;
    }
    ∷ []

abbrev roles_bytes : Bytes
roles_bytes = position_bytes ++ (((8 ∷ 9 ∷ []) ++ action_bytes) ++ [])

actions-Layout : Layout.Layout 0 actions action_bytes
unfolding read_action_header permission_variant read_le le_value decode_action_payload
actions-Layout = Layout.action action_bytes [] refl refl refl refl (Layout.done 8)

one_role-RolesLayout : RolesLayout address swig_id 0 one_role roles_bytes
unfolding read_position authority_type_variant read_le le_value get_authority
one_role-RolesLayout =
    RolesLayout.role position_bytes (8 ∷ 9 ∷ []) action_bytes refl refl refl refl actions-Layout
      refl refl (RolesLayout.done 26)

abbrev some_tail : Bytes
some_tail = 1 ∷ 2 ∷ 3 ∷ []

deserialize_roles-Layout_example :
    (deserialize_roles address (roles_bytes ++ some_tail) 1 swig_id ≡ some one_role)
    × (get_swig_tail 1 (roles_bytes ++ some_tail) ≡ some some_tail)
deserialize_roles-Layout_example =
    deserialize_roles-Layout address swig_id one_role roles_bytes some_tail one_role-RolesLayout

tail_found : get_swig_tail 1 (roles_bytes ++ some_tail) ≡ some some_tail
unfolding get_swig_tail roles_end read_position authority_type_variant read_le le_value
tail_found = refl

get_swig_tail-suffix_example :
    (front : Bytes) × (front ++ some_tail ≡ roles_bytes ++ some_tail) × (16 * 1 ≤ length front)
get_swig_tail-suffix_example =
    get_swig_tail-suffix 1 (roles_bytes ++ some_tail) some_tail tail_found

-- A wallet with bump 255 that has made three sub-accounts.
abbrev account : SwigAccount
account = record {
  discriminator = 1;
  bump = 254;
  id = swig_id;
  roles = 1;
  role_counter = 8;
  reserved_lamports_or_bump = 255 + 4294967296 * 3;
  roles_buffer = roles_bytes ++ some_tail;
}

account-IsSwigAccount : IsSwigAccount account
account-IsSwigAccount = record {
  discriminator_fits = omega arith;
  bump_fits = omega arith;
  id_fits = refl;
  roles_fits = omega arith;
  role_counter_fits = omega arith;
  reserved_lamports_or_bump_fits = omega arith;
}

abbrev swig : Swig
swig = record { address = address; account = account }

from_raw_account_data-written_example :
    (written : Bytes) × (write_swig_account account ≡ some written)
    × (length written ≡ 48 + length account.roles_buffer)
    × (from_raw_account_data address written ≡ some swig)
    × (roles swig ≡ some one_role)
    × (tail swig ≡ some some_tail)
from_raw_account_data-written_example =
    from_raw_account_data-written address account one_role roles_bytes some_tail
      account-IsSwigAccount one_role-RolesLayout refl refl

sub_account_v2_counter-account_version_example :
    ((account_version swig ≡ AccountVersion.v2) ↔ ((0 < 255) × (255 < 256)))
    × (sub_account_v2_counter swig ≡ (if ltb 0 255 && ltb 255 256 then some 3 else none))
sub_account_v2_counter-account_version_example =
    sub_account_v2_counter-account_version swig 255 3 (omega arith) refl
