-- ===== src/Coder/ProgramExec/RoundTrip.antt =====
-- What is written of these data is read back.
use swig_protocol_sdk.Common.{refl, zeros}
use swig_protocol_sdk.Kit.{Kit, Encodes}
use swig_protocol_sdk.Kit.Laws.{Encodes-then, Encodes-last, Encodes-uint, Encodes-fixed}
use swig_protocol_sdk.Coder.ProgramExec.{
  ProgramExecArgs, IsProgramExec, write_program_exec, read_program_exec,
  CreateProgramExecSessionArgs, IsCreateProgramExecSession, write_create_program_exec_session,
  read_create_program_exec_session, ProgramExecSessionArgs, IsProgramExecSession,
  write_program_exec_session, read_program_exec_session,
}

module _ ⦃kit : Kit⦄ where
  pub Encodes-program_exec :
      (x : ProgramExecArgs)
      → IsProgramExec x
      → Encodes (write_program_exec x) 80 read_program_exec (record {
        program_id = x.program_id;
        instruction_prefix_len = x.instruction_prefix_len;
        padding = zeros 7;
        instruction_prefix = x.instruction_prefix;
      })
  unfolding write_program_exec read_program_exec
  Encodes-program_exec x v = Encodes-then _ (Encodes-fixed 32 x.program_id v.program_id_fits) (
      Encodes-then _ (Encodes-uint 1 x.instruction_prefix_len v.instruction_prefix_len_fits) (
        Encodes-then _ (Encodes-fixed 7 (zeros 7) refl)
          (Encodes-last _ (Encodes-fixed 40 x.instruction_prefix v.instruction_prefix_fits))))

  pub Encodes-create_program_exec_session :
      (x : CreateProgramExecSessionArgs)
      → IsCreateProgramExecSession x
      → Encodes (write_create_program_exec_session x) 120 read_create_program_exec_session (record {
        program_id = x.program_id;
        instruction_prefix_len = x.instruction_prefix_len;
        padding = zeros 7;
        instruction_prefix = x.instruction_prefix;
        session_key = x.session_key;
        max_session_length = x.max_session_length;
      })
  unfolding write_create_program_exec_session read_create_program_exec_session
  Encodes-create_program_exec_session x v =
      Encodes-then _ (Encodes-fixed 32 x.program_id v.program_id_fits) (
        Encodes-then _ (Encodes-uint 1 x.instruction_prefix_len v.instruction_prefix_len_fits) (
          Encodes-then _ (Encodes-fixed 7 (zeros 7) refl) (
            Encodes-then _ (Encodes-fixed 40 x.instruction_prefix v.instruction_prefix_fits) (
              Encodes-then _ (Encodes-fixed 32 x.session_key v.session_key_fits)
                (Encodes-last _ (Encodes-uint 8 x.max_session_length v.max_session_length_fits))))))

  -- Let the program id and the session key have 32 bytes and the prefix 40, let the length of the
  -- prefix be below 256, and the other numbers below 2^64. Then the data of a ProgramExec session
  -- are written in 128 bytes, and the decoder reads them back, with seven zeros as padding,
  -- whatever follows them.
  pub Encodes-program_exec_session :
      (x : ProgramExecSessionArgs)
      → IsProgramExecSession x
      → Encodes (write_program_exec_session x) 128 read_program_exec_session (record {
        program_id = x.program_id;
        instruction_prefix_len = x.instruction_prefix_len;
        padding = zeros 7;
        instruction_prefix = x.instruction_prefix;
        session_key = x.session_key;
        max_session_length = x.max_session_length;
        current_session_expiration = x.current_session_expiration;
      })
  unfolding write_program_exec_session read_program_exec_session
  Encodes-program_exec_session x v =
      Encodes-then _ (Encodes-fixed 32 x.program_id v.program_id_fits) (
        Encodes-then _ (Encodes-uint 1 x.instruction_prefix_len v.instruction_prefix_len_fits) (
          Encodes-then _ (Encodes-fixed 7 (zeros 7) refl) (
            Encodes-then _ (Encodes-fixed 40 x.instruction_prefix v.instruction_prefix_fits) (
              Encodes-then _ (Encodes-fixed 32 x.session_key v.session_key_fits) (
                Encodes-then _ (Encodes-uint 8 x.max_session_length v.max_session_length_fits) (
                  Encodes-last _ (
                    Encodes-uint 8 x.current_session_expiration
                      v.current_session_expiration_fits)))))))
