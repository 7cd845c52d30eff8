-- ===== src/Tpm/Tests.antt =====
-- A response code with a name.
use tpm2_autoenroll.Base.{◌≡◌, some, arith}
use tpm2_autoenroll.Tpm.Describe.{describe_rc, read_hex32, read_hex32-describe_rc}

read_hex32-describe_rc_example : read_hex32 (describe_rc 0x921) ≡ some 0x921
read_hex32-describe_rc_example = read_hex32-describe_rc 0x921 (omega arith)
