-- ===== src/Instructions/Compact/Unbalanced/Kinds.antt =====
-- Transfers and SyncNatives described by their program and data, and that the code's tests find them.
use swig_protocol_sdk.Common.{
  ◌≡◌, sym, ◌∙◌, ap, ◌↔◌, Bool, true, ◌&&◌, ◌∷◌, [], ◌++◌, Bytes, take, drop, take-append-drop,
  bytes_equal_iff, arith,
}
use swig_protocol_sdk.Kit.{Kit}
use swig_protocol_sdk.Instructions.Consts.{
  system_program_address_string, token_program_address_string,
}
use swig_protocol_sdk.Instructions.Compact.{SolInstruction, is_transfer, is_sync_native}

module _ ⦃kit : Kit⦄ where
  -- An instruction of the system program with the tag 2 in four little-endian bytes.
  abbrev pub IsTransfer : SolInstruction → Type 0
  IsTransfer ix =
      (kit.base58 ix.program ≡ system_program_address_string)
      × ((rest : Bytes) × (ix.ix_data ≡ 2 ∷ 0 ∷ 0 ∷ 0 ∷ rest))

  -- An instruction of the token program whose only byte is 17.
  abbrev pub IsSyncNative : SolInstruction → Type 0
  IsSyncNative ix = (kit.base58 ix.program ≡ token_program_address_string) × (ix.ix_data ≡ 17 ∷ [])

  pub is_transfer_iff : (ix : SolInstruction) → (is_transfer ix ≡ true) ↔ IsTransfer ix
  unfolding is_transfer
  is_transfer_iff ix =
      let p = bytes_equal_iff (kit.base58 ix.program) system_program_address_string in
      let d = bytes_equal_iff (take 4 ix.ix_data) (2 ∷ 0 ∷ 0 ∷ 0 ∷ []) in
      (
        λ e.
            let both = both _ _ e in
            (
              p.0 both.0,
              (
                drop 4 ix.ix_data,
                sym (take-append-drop 4 ix.ix_data) ∙ ap (λ b. b ++ drop 4 ix.ix_data) (d.0 both.1),
              ),
            ),
        λ (program, (rest, e)).
            let t = d.1 (ap (take 4) e) in let q = p.1 program in ground (arith, t, q),
      )
    where
      both : (a b : Bool) → (a && b) ≡ true → (a ≡ true) × (b ≡ true)
      both a b e = ground (arith, e)

  pub is_sync_native_iff : (ix : SolInstruction) → (is_sync_native ix ≡ true) ↔ IsSyncNative ix
  unfolding is_sync_native
  is_sync_native_iff ix =
      let p = bytes_equal_iff (kit.base58 ix.program) token_program_address_string in
      let d = bytes_equal_iff ix.ix_data (17 ∷ []) in (ground (arith, p, d), ground (arith, p, d))
