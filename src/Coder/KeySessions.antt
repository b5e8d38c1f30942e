-- ===== src/Coder/KeySessions.antt =====
-- The data of authorities with sessions whose authority is a key: coder/src/types/ed25519Session.ts,
-- secp256k1Session.ts and secp256r1Session.ts. `write_…` is the encoder, `read_…` the decoder.
pub mod RoundTrip
use swig_protocol_sdk.Common.{ℕ, ◌^◌, ◌<◌, ◌≡◌, Option, some, Bytes, length, zeros}
use swig_protocol_sdk.Kit.{Kit, Reader, ◌>>=◌, pure, ◌then_write◌}

pub record Ed25519SessionData : Type 0 where
  pub public_key : Bytes
  pub session_key : Bytes
  pub max_session_length : ℕ
  pub current_session_expiration : ℕ

module _ ⦃kit : Kit⦄ where
  unfoldable pub write_ed25519_session : Ed25519SessionData → Option Bytes
  write_ed25519_session x =
      some (kit.write_fixed 32 x.public_key)
      then_write some (kit.write_fixed 32 x.session_key)
      then_write kit.write_uint 8 x.max_session_length
      then_write kit.write_uint 8 x.current_session_expiration

  unfoldable pub read_ed25519_session : Reader Ed25519SessionData
  read_ed25519_session = do
    public_key ← kit.read_fixed 32
    session_key ← kit.read_fixed 32
    max_session_length ← kit.read_uint 8
    current_session_expiration ← kit.read_uint 8
    pure (record {
      public_key = public_key;
      session_key = session_key;
      max_session_length = max_session_length;
      current_session_expiration = current_session_expiration;
    })

-- What a value must meet to be written and read back.
pub record IsEd25519Session (x : Ed25519SessionData) : Type 0 where
  pub public_key_fits : length x.public_key ≡ 32
  pub session_key_fits : length x.session_key ≡ 32
  pub max_session_length_fits : x.max_session_length < 256 ^ 8
  pub current_session_expiration_fits : x.current_session_expiration < 256 ^ 8

pub record CreateSecp256k1SessionData : Type 0 where
  pub public_key : Bytes
  pub session_key : Bytes
  pub max_session_length : ℕ

module _ ⦃kit : Kit⦄ where
  unfoldable pub write_create_secp256k1_session : CreateSecp256k1SessionData → Option Bytes
  write_create_secp256k1_session x =
      some (kit.write_fixed 64 x.public_key)
      then_write some (kit.write_fixed 32 x.session_key)
      then_write kit.write_uint 8 x.max_session_length

  unfoldable pub read_create_secp256k1_session : Reader CreateSecp256k1SessionData
  read_create_secp256k1_session = do
    public_key ← kit.read_fixed 64
    session_key ← kit.read_fixed 32
    max_session_length ← kit.read_uint 8
    pure (record {
      public_key = public_key;
      session_key = session_key;
      max_session_length = max_session_length;
    })

-- What a value must meet to be written and read back.
pub record IsCreateSecp256k1Session (x : CreateSecp256k1SessionData) : Type 0 where
  pub public_key_fits : length x.public_key ≡ 64
  pub session_key_fits : length x.session_key ≡ 32
  pub max_session_length_fits : x.max_session_length < 256 ^ 8

pub record Secp256k1SessionArgs : Type 0 where
  pub public_key : Bytes
  pub odometer : ℕ
  pub session_key : Bytes
  pub max_session_length : ℕ
  pub current_session_expiration : ℕ

pub record Secp256k1SessionData : Type 0 where
  pub public_key : Bytes
  pub padding : Bytes
  pub odometer : ℕ
  pub session_key : Bytes
  pub max_session_length : ℕ
  pub current_session_expiration : ℕ

module _ ⦃kit : Kit⦄ where
  unfoldable pub write_secp256k1_session : Secp256k1SessionArgs → Option Bytes
  write_secp256k1_session x =
      some (kit.write_fixed 33 x.public_key)
      then_write some (kit.write_fixed 3 (zeros 3))
      then_write kit.write_uint 4 x.odometer
      then_write some (kit.write_fixed 32 x.session_key)
      then_write kit.write_uint 8 x.max_session_length
      then_write kit.write_uint 8 x.current_session_expiration

  unfoldable pub read_secp256k1_session : Reader Secp256k1SessionData
  read_secp256k1_session = do
    public_key ← kit.read_fixed 33
    padding ← kit.read_fixed 3
    odometer ← kit.read_uint 4
    session_key ← kit.read_fixed 32
    max_session_length ← kit.read_uint 8
    current_session_expiration ← kit.read_uint 8
    pure (record {
      public_key = public_key;
      padding = padding;
      odometer = odometer;
      session_key = session_key;
      max_session_length = max_session_length;
      current_session_expiration = current_session_expiration;
    })

-- What a value must meet to be written and read back.
pub record IsSecp256k1Session (x : Secp256k1SessionArgs) : Type 0 where
  pub public_key_fits : length x.public_key ≡ 33
  pub odometer_fits : x.odometer < 256 ^ 4
  pub session_key_fits : length x.session_key ≡ 32
  pub max_session_length_fits : x.max_session_length < 256 ^ 8
  pub current_session_expiration_fits : x.current_session_expiration < 256 ^ 8

pub record CreateSecp256r1SessionArgs : Type 0 where
  pub public_key : Bytes
  pub session_key : Bytes
  pub max_session_length : ℕ

pub record CreateSecp256r1SessionData : Type 0 where
  pub public_key : Bytes
  pub padding : Bytes
  pub session_key : Bytes
  pub max_session_length : ℕ

module _ ⦃kit : Kit⦄ where
  unfoldable pub write_create_secp256r1_session : CreateSecp256r1SessionArgs → Option Bytes
  write_create_secp256r1_session x =
      some (kit.write_fixed 33 x.public_key)
      then_write some (kit.write_fixed 7 (zeros 3))
      then_write some (kit.write_fixed 32 x.session_key)
      then_write kit.write_uint 8 x.max_session_length

  unfoldable pub read_create_secp256r1_session : Reader CreateSecp256r1SessionData
  read_create_secp256r1_session = do
    public_key ← kit.read_fixed 33
    padding ← kit.read_fixed 7
    session_key ← kit.read_fixed 32
    max_session_length ← kit.read_uint 8
    pure (record {
      public_key = public_key;
      padding = padding;
      session_key = session_key;
      max_session_length = max_session_length;
    })

-- What a value must meet to be written and read back.
pub record IsCreateSecp256r1Session (x : CreateSecp256r1SessionArgs) : Type 0 where
  pub public_key_fits : length x.public_key ≡ 33
  pub session_key_fits : length x.session_key ≡ 32
  pub max_session_length_fits : x.max_session_length < 256 ^ 8

pub record Secp256r1SessionArgs : Type 0 where
  pub public_key : Bytes
  pub odometer : ℕ
  pub session_key : Bytes
  pub max_session_length : ℕ
  pub current_session_expiration : ℕ

pub record Secp256r1SessionData : Type 0 where
  pub public_key : Bytes
  pub padding : Bytes
  pub odometer : ℕ
  pub session_key : Bytes
  pub max_session_length : ℕ
  pub current_session_expiration : ℕ

module _ ⦃kit : Kit⦄ where
  unfoldable pub write_secp256r1_session : Secp256r1SessionArgs → Option Bytes
  write_secp256r1_session x =
      some (kit.write_fixed 33 x.public_key)
      then_write some (kit.write_fixed 3 (zeros 3))
      then_write kit.write_uint 4 x.odometer
      then_write some (kit.write_fixed 32 x.session_key)
      then_write kit.write_uint 8 x.max_session_length
      then_write kit.write_uint 8 x.current_session_expiration

  unfoldable pub read_secp256r1_session : Reader Secp256r1SessionData
  read_secp256r1_session = do
    public_key ← kit.read_fixed 33
    padding ← kit.read_fixed 3
    odometer ← kit.read_uint 4
    session_key ← kit.read_fixed 32
    max_session_length ← kit.read_uint 8
    current_session_expiration ← kit.read_uint 8
    pure (record {
      public_key = public_key;
      padding = padding;
      odometer = odometer;
      session_key = session_key;
      max_session_length = max_session_length;
      current_session_expiration = current_session_expiration;
    })

-- What a value must meet to be written and read back.
pub record IsSecp256r1Session (x : Secp256r1SessionArgs) : Type 0 where
  pub public_key_fits : length x.public_key ≡ 33
  pub odometer_fits : x.odometer < 256 ^ 4
  pub session_key_fits : length x.session_key ≡ 32
  pub max_session_length_fits : x.max_session_length < 256 ^ 8
  pub current_session_expiration_fits : x.current_session_expiration < 256 ^ 8
