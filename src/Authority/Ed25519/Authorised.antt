-- ===== src/Authority/Ed25519/Authorised.antt =====
-- The payload of an Ed25519 authority leads to its account, which signs.
use swig_protocol_sdk.Common.{
  ℕ, ◌≡◌, refl, sym, ◌∙◌, true, Option, some, List, [], ◌∷◌, ◌++◌, Bytes, length, get_elem?,
  get_elem?-length, All, arith, ◌>>=◌,
}
use swig_protocol_sdk.Kit.{Kit}
use swig_protocol_sdk.Instructions.Keys.{sol_public_key}
use swig_protocol_sdk.Coder.CompactInstructions.{CompactInstruction}
use swig_protocol_sdk.Instructions.Compact.{SolAccountMeta, SolInstruction}
use swig_protocol_sdk.Instructions.Compact.Resolve.{Valid}
use swig_protocol_sdk.Instructions.Metas.{
  from_kit_account_meta, with_authority, add_authority_metas_with_authority,
  remove_authority_metas_with_authority, update_authority_metas_with_authority,
  sign_v1_metas_with_authority, sign_v2_metas_with_authority, create_session_metas_with_authority,
  sub_account_create_metas_with_authority, sub_account_sign_metas_with_authority,
  sub_account_toggle_metas_with_authority, transfer_assets_metas_with_authority,
  close_swig_metas_with_authority, close_token_account_metas_with_authority, add_authority_metas,
  remove_authority_metas, update_authority_metas, sign_v1_metas, sign_v2_metas,
  create_session_metas, sub_account_create_metas, sub_account_sign_metas, sub_account_toggle_metas,
  transfer_assets_metas, close_swig_metas, close_token_account_metas,
  sub_account_withdraw_sol_metas, sub_account_withdraw_token_metas, with_authority_context,
}
use swig_protocol_sdk.Instructions.Metas.Locks.{
  add_authorization_lock_metas, remove_authorization_lock_metas,
  add_authorization_lock_metas_with_authority, remove_authorization_lock_metas_with_authority,
}
use swig_protocol_sdk.Instructions.SwigInstruction.{
  BuiltInstruction, SwigInstructionArgs, SwigInstructionContext, build,
}
use swig_protocol_sdk.Instructions.SwigInstruction.Payload.{payload_of, build-payload}
use swig_protocol_sdk.Authority.Interface.{InstructionDataOptions, AuthorityInstruction}
use swig_protocol_sdk.Authority.Interface.Compacted.{OwnAt, compact-OwnAt}
use swig_protocol_sdk.Authority.Ed25519.{authority_meta, ed25519_method, ed25519_instruction}

-- The inner instructions of a request.
abbrev pub inner_of : AuthorityInstruction → List SolInstruction
inner_of (AuthorityInstruction.sign_v1 swig payer role_id inner) = inner
inner_of (AuthorityInstruction.sign_v2 swig system role_id inner) = inner
inner_of (AuthorityInstruction.sub_account_sign swig sub role_id inner) = inner
inner_of _ = []

module _ ⦃kit : Kit⦄ where
  -- What is asked of the encoder: an instruction whose payload is the index of an account with the
  -- authority's key, which signs.
  pub record Authorised (authority : Bytes) (result : Option SwigInstructionContext) : Type 0 where
    pub accounts : List SolAccountMeta
    pub args : SwigInstructionArgs
    pub pre : List BuiltInstruction
    pub post : List BuiltInstruction
    pub result_is : result ≡ build accounts args pre post
    pub index : ℕ
    pub payload_is : payload_of args ≡ index ∷ []
    pub found : SolAccountMeta
    pub at : get_elem? accounts index ≡ some found
    pub same_key : kit.base58 found.public_key ≡ kit.base58 authority
    pub signs : found.signer ≡ true

  -- An instruction whose data end in the index of an account with the authority's key, which signs.
  pub record LeadsToSigner (authority : Bytes) (ix : BuiltInstruction) : Type 0 where
    pub front : Bytes
    pub index : ℕ
    pub data_is : ix.ix_data ≡ front ++ index ∷ []
    pub found : SolAccountMeta
    pub at : get_elem? ix.accounts index ≡ some found
    pub same_key : kit.base58 found.public_key ≡ kit.base58 authority
    pub signs : found.signer ≡ true

  Authorised-LeadsToSigner :
      (authority : Bytes) (result : Option SwigInstructionContext)
      → Authorised authority result
      → (c : SwigInstructionContext) → result ≡ some c
      → LeadsToSigner authority c.swig_instruction
  Authorised-LeadsToSigner authority result h c e =
      let (front, ends, same, _, _) =
        build-payload h.accounts h.args h.pre h.post c (sym h.result_is ∙ e) in
      record {
        front = front;
        index = h.index;
        data_is = rw (← h.payload_is) ends;
        found = h.found;
        at = rw same h.at;
        same_key = h.same_key;
        signs = h.signs;
      }

  -- The authority's account is in the list already.
  Authorised-at :
      (authority : Bytes) (accounts : List SolAccountMeta) (args : SwigInstructionArgs)
      (pre post : List BuiltInstruction) (index : ℕ)
      → payload_of args ≡ index ∷ []
      → get_elem? accounts index ≡ some (authority_meta authority)
      → Authorised authority (build accounts args pre post)
  unfolding authority_meta
  Authorised-at authority accounts args pre post index h at = record {
    accounts = accounts;
    args = args;
    pre = pre;
    post = post;
    result_is = refl;
    index = index;
    payload_is = h;
    found = authority_meta authority;
    at = at;
    same_key = refl;
    signs = refl;
  }

  -- It is found among the combined accounts.
  Authorised-compact :
      (authority : Bytes) (i : ℕ) {result : Option (List SolAccountMeta × List CompactInstruction)}
      → OwnAt i (authority_meta authority) result
      → (args : List CompactInstruction → SwigInstructionArgs)
      → ((cs : List CompactInstruction) → payload_of (args cs) ≡ i ∷ [])
      → Authorised authority
          (result >>= λ (metas, compact_ixs). build metas (args compact_ixs) [] [])
  unfolding authority_meta
  Authorised-compact authority i own args h = record {
    accounts = own.accounts;
    args = args own.compact_ixs;
    pre = [];
    post = [];
    result_is = rw (own.result_is) refl;
    index = i;
    payload_is = h own.compact_ixs;
    found = own.found;
    at = own.at;
    same_key = own.same_key;
    signs = own.signs refl;
  }

  ed25519_method-Authorised :
      (store : List SolAccountMeta) (authority : Bytes) (options : InstructionDataOptions)
      (request : AuthorityInstruction)
      → All (λ ix. Valid store ix.accounts) (inner_of request)
      → Authorised authority (ed25519_method store authority options request)
  unfolding ed25519_method authority_meta from_kit_account_meta with_authority
      with_authority_context add_authority_metas_with_authority
      remove_authority_metas_with_authority update_authority_metas_with_authority
      sign_v1_metas_with_authority sign_v2_metas_with_authority create_session_metas_with_authority
      sub_account_create_metas_with_authority sub_account_sign_metas_with_authority
      sub_account_toggle_metas_with_authority transfer_assets_metas_with_authority
      close_swig_metas_with_authority close_token_account_metas_with_authority
      sub_account_withdraw_sol_metas sub_account_withdraw_token_metas
      add_authorization_lock_metas_with_authority remove_authorization_lock_metas_with_authority
      add_authority_metas remove_authority_metas update_authority_metas sign_v1_metas sign_v2_metas
      create_session_metas sub_account_create_metas sub_account_sign_metas sub_account_toggle_metas
      transfer_assets_metas close_swig_metas close_token_account_metas
  ed25519_method-Authorised store authority options
        (AuthorityInstruction.sign_v1 swig payer role_id inner) v =
      Authorised-compact authority 2
        (compact-OwnAt store swig _ inner [] 2 (authority_meta authority) (omega arith) refl v) _
        (λ cs. refl)
  ed25519_method-Authorised store authority options
        (AuthorityInstruction.sign_v2 swig system role_id inner) v =
      Authorised-compact authority 2
        (compact-OwnAt store swig _ inner (system ∷ []) 2 (authority_meta authority) (omega arith)
          refl v)
        _ (λ cs. refl)
  ed25519_method-Authorised store authority options
        (AuthorityInstruction.sub_account_sign swig sub role_id inner) v =
      Authorised-compact authority 3
        (compact-OwnAt store swig _ inner (sub ∷ []) 3 (authority_meta authority) (omega arith) refl
          v)
        _ (λ cs. refl)
  ed25519_method-Authorised store authority options
        (AuthorityInstruction.add_authorization_lock swig payer system asset mint x) v =
      Authorised-at authority _ _ _ _ _ refl (
        get_elem?-length (add_authorization_lock_metas swig payer system asset mint) []
          (authority_meta authority))
  ed25519_method-Authorised store authority options
        (AuthorityInstruction.remove_authorization_lock swig payer system rent x) v =
      Authorised-at authority _ _ _ _ _ refl (
        get_elem?-length (remove_authorization_lock_metas swig payer system rent) []
          (authority_meta authority))
  ed25519_method-Authorised store authority options
        (AuthorityInstruction.add_authority swig payer x) v =
      Authorised-at authority _ _ _ _ _ refl refl
  ed25519_method-Authorised store authority options
        (AuthorityInstruction.remove_authority swig payer x) v =
      Authorised-at authority _ _ _ _ _ refl refl
  ed25519_method-Authorised store authority options
        (AuthorityInstruction.update_authority swig payer x) v =
      Authorised-at authority _ _ _ _ _ refl refl
  ed25519_method-Authorised store authority options
        (AuthorityInstruction.create_session swig payer x) v =
      Authorised-at authority _ _ _ _ _ refl refl
  ed25519_method-Authorised store authority options
        (AuthorityInstruction.sub_account_create swig payer sub x) v =
      Authorised-at authority _ _ _ _ _ refl refl
  ed25519_method-Authorised store authority options
        (AuthorityInstruction.sub_account_withdraw_sol swig payer sub system x) v =
      Authorised-at authority _ _ _ _ _ refl refl
  ed25519_method-Authorised store authority options
        (AuthorityInstruction.sub_account_withdraw_token swig payer sub system sub_token swig_token
          program x)
        v =
      Authorised-at authority _ _ _ _ _ refl refl
  ed25519_method-Authorised store authority options
        (AuthorityInstruction.sub_account_toggle swig payer sub x) v =
      Authorised-at authority _ _ _ _ _ refl refl
  ed25519_method-Authorised store authority options
        (AuthorityInstruction.transfer_assets swig payer system x) v =
      Authorised-at authority _ _ _ _ _ refl refl
  ed25519_method-Authorised store authority options
        (AuthorityInstruction.close_swig swig system destination x) v =
      Authorised-at authority _ _ _ _ _ refl refl
  ed25519_method-Authorised store authority options
        (AuthorityInstruction.close_token_account swig system destination program tokens x) v =
      Authorised-at authority _ _ _ _ _ refl refl

  -- Let the authority's data be a key of 32 bytes, and the accounts of inner instructions places
  -- in the store. Then a method of Ed25519Instruction encodes an instruction whose payload is one
  -- number, the index of an account with that key, which signs; compaction of the inner
  -- instructions does not fail. Where the encoder gives an instruction, its data end in that
  -- index.
  pub ed25519_instruction-LeadsToSigner :
      (store : List SolAccountMeta) (authority_data : Bytes) (options : InstructionDataOptions)
      (request : AuthorityInstruction)
      → length authority_data ≡ 32
      → All (λ ix. Valid store ix.accounts) (inner_of request)
      → Authorised authority_data (ed25519_instruction store authority_data options request)
        × ((c : SwigInstructionContext)
            → ed25519_instruction store authority_data options request ≡ some c
            → LeadsToSigner authority_data c.swig_instruction)
  unfolding ed25519_instruction sol_public_key
  ed25519_instruction-LeadsToSigner store authority_data options request h v =
      let a = ed25519_method-Authorised store authority_data options request v in
      rw h (a, Authorised-LeadsToSigner authority_data _ a)
