-- ===== src/Coder/KeySessions/RoundTrip.antt =====
-- What is written of these data is read back.
use swig_protocol_sdk.Common.{◌≡◌, refl, zeros}
use swig_protocol_sdk.Kit.{Kit, Encodes}
use swig_protocol_sdk.Kit.Laws.{Encodes-then, Encodes-last, Encodes-uint, Encodes-fixed}
use swig_protocol_sdk.Coder.KeySessions.{
  Ed25519SessionData, IsEd25519Session, write_ed25519_session, read_ed25519_session,
  CreateSecp256k1SessionData, IsCreateSecp256k1Session, write_create_secp256k1_session,
  read_create_secp256k1_session, Secp256k1SessionArgs, IsSecp256k1Session, write_secp256k1_session,
  read_secp256k1_session, CreateSecp256r1SessionArgs, IsCreateSecp256r1Session,
  write_create_secp256r1_session, read_create_secp256r1_session, Secp256r1SessionArgs,
  IsSecp256r1Session, write_secp256r1_session, read_secp256r1_session,
}

module _ ⦃kit : Kit⦄ where
  pub Encodes-ed25519_session :
      (x : Ed25519SessionData)
      → IsEd25519Session x
      → Encodes (write_ed25519_session x) 80 read_ed25519_session x
  unfolding write_ed25519_session read_ed25519_session
  Encodes-ed25519_session x v = Encodes-then _ (Encodes-fixed 32 x.public_key v.public_key_fits) (
      Encodes-then _ (Encodes-fixed 32 x.session_key v.session_key_fits) (
        Encodes-then _ (Encodes-uint 8 x.max_session_length v.max_session_length_fits) (
          Encodes-last _
            (Encodes-uint 8 x.current_session_expiration v.current_session_expiration_fits))))

  pub Encodes-create_secp256k1_session :
      (x : CreateSecp256k1SessionData)
      → IsCreateSecp256k1Session x
      → Encodes (write_create_secp256k1_session x) 104 read_create_secp256k1_session x
  unfolding write_create_secp256k1_session read_create_secp256k1_session
  Encodes-create_secp256k1_session x v =
      Encodes-then _ (Encodes-fixed 64 x.public_key v.public_key_fits) (
        Encodes-then _ (Encodes-fixed 32 x.session_key v.session_key_fits)
          (Encodes-last _ (Encodes-uint 8 x.max_session_length v.max_session_length_fits)))

  pub Encodes-secp256k1_session :
      (x : Secp256k1SessionArgs)
      → IsSecp256k1Session x
      → Encodes (write_secp256k1_session x) 88 read_secp256k1_session (record {
        public_key = x.public_key;
        padding = zeros 3;
        odometer = x.odometer;
        session_key = x.session_key;
        max_session_length = x.max_session_length;
        current_session_expiration = x.current_session_expiration;
      })
  unfolding write_secp256k1_session read_secp256k1_session
  Encodes-secp256k1_session x v = Encodes-then _ (Encodes-fixed 33 x.public_key v.public_key_fits) (
      Encodes-then _ (Encodes-fixed 3 (zeros 3) refl) (
        Encodes-then _ (Encodes-uint 4 x.odometer v.odometer_fits) (
          Encodes-then _ (Encodes-fixed 32 x.session_key v.session_key_fits) (
            Encodes-then _ (Encodes-uint 8 x.max_session_length v.max_session_length_fits) (
              Encodes-last _
                (Encodes-uint 8 x.current_session_expiration v.current_session_expiration_fits))))))

  pub Encodes-create_secp256r1_session :
      (x : CreateSecp256r1SessionArgs)
      → IsCreateSecp256r1Session x
      → Encodes (write_create_secp256r1_session x) 80 read_create_secp256r1_session (record {
        public_key = x.public_key;
        padding = zeros 7;
        session_key = x.session_key;
        max_session_length = x.max_session_length;
      })
  unfolding write_create_secp256r1_session read_create_secp256r1_session
  Encodes-create_secp256r1_session x v =
      let pad : kit.write_fixed 7 (zeros 3) ≡ kit.write_fixed 7 (zeros 7) =
        rw (kit.write_fixed_lem 7 (zeros 3), kit.write_fixed_lem 7 (zeros 7)) refl in
      rw (pad) (
        Encodes-then _ (Encodes-fixed 33 x.public_key v.public_key_fits) (
          Encodes-then _ (Encodes-fixed 7 (zeros 7) refl) (
            Encodes-then _ (Encodes-fixed 32 x.session_key v.session_key_fits)
              (Encodes-last _ (Encodes-uint 8 x.max_session_length v.max_session_length_fits)))))

  pub Encodes-secp256r1_session :
      (x : Secp256r1SessionArgs)
      → IsSecp256r1Session x
      → Encodes (write_secp256r1_session x) 88 read_secp256r1_session (record {
        public_key = x.public_key;
        padding = zeros 3;
        odometer = x.odometer;
        session_key = x.session_key;
        max_session_length = x.max_session_length;
        current_session_expiration = x.current_session_expiration;
      })
  unfolding write_secp256r1_session read_secp256r1_session
  Encodes-secp256r1_session x v = Encodes-then _ (Encodes-fixed 33 x.public_key v.public_key_fits) (
      Encodes-then _ (Encodes-fixed 3 (zeros 3) refl) (
        Encodes-then _ (Encodes-uint 4 x.odometer v.odometer_fits) (
          Encodes-then _ (Encodes-fixed 32 x.session_key v.session_key_fits) (
            Encodes-then _ (Encodes-uint 8 x.max_session_length v.max_session_length_fits) (
              Encodes-last _
                (Encodes-uint 8 x.current_session_expiration v.current_session_expiration_fits))))))
