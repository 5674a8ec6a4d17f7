-- ===== src/Errors.antt =====
-- Go's errors as the driver makes and reads them: a gRPC status (google.golang.org/grpc/status), a
-- formatted text (`fmt.Errorf`), an error of `strconv`, or an error value of a library, of which
-- nothing is known here. A call ends with a value, with an error, or in a panic.
use nexentastor_csi_driver.Common.{NumFailure, String}

-- google.golang.org/grpc/codes.
pub data Code : Type 0 where
  ok_code canceled unknown invalid_argument deadline_exceeded not_found already_exists : Code
  permission_denied resource_exhausted failed_precondition aborted out_of_range : Code
  unimplemented internal unavailable data_loss unauthenticated : Code

pub data Error (F : Type 0) : Type 0 where
  status : Code → String → Error F
  plain : String → Error F
  number : String → String → NumFailure → Error F
  foreign : F → Error F

pub data Outcome (F A : Type 0) : Type 0 where
  ok : A → Outcome F A
  err : Error F → Outcome F A
  panic : Outcome F A

-- What a library call gives back where Go returns a value and an error, and the value is read only
-- if the error is nil.
pub data Reply (F A : Type 0) : Type 0 where
  value : A → Reply F A
  failure : F → Reply F A
