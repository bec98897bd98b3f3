-- ===== src/Rpc/Status.antt =====
-- Errors of a call (datacake-rpc/src/net/status.rs).
use datacake.Base.Text.{Text, codes}

pub data ErrorCode : Type 0 where
  service_unavailable internal_error invalid_payload connection_error timeout_error : ErrorCode

pub record Status : Type 0 where
  pub code : ErrorCode
  pub message : Text

unfoldable pub unavailable : Text → Status
unavailable msg = record { code = service_unavailable; message = msg }

unfoldable pub internal : Text → Status
internal msg = record { code = internal_error; message = msg }

unfoldable pub connection : Text → Status
connection msg = record { code = connection_error; message = msg }

unfoldable pub invalid : Status
invalid = record {
  code = invalid_payload;
  message = codes "Invalid message payload was provided to be deserialized.";
}

unfoldable pub timeout : Status
timeout = record {
  code = timeout_error;
  message = codes "The operation took to long to be completed.";
}
