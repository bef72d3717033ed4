-- ===== src/Proto.antt =====
-- src/proto/RemSvc.proto: the messages of the service, as the values that the C++ handlers read and
-- write, and the part of `grpc::Status` that the program uses. `int32` fields are integers.
use rem_svc.Base.{ℕ, Bytes, [], Bool, true, false}
use rem_svc.Base.Int.{ℤ, pos}

pub record PingMsg : Type 0 where
  pub seq : ℤ
  pub time : ℤ
  pub payload : Bytes

pub record PongMsg : Type 0 where
  pub seq : ℤ
  pub time : ℤ
  pub payload : Bytes

pub record StatusMsg : Type 0 where
  pub rc : ℤ
  pub msg : Bytes

pub record RemCmdMsg : Type 0 where
  pub cmd : Bytes
  pub cmdtyp : ℤ
  pub cmdusr : Bytes
  pub tid : ℤ
  pub src : Bytes
  pub hsh : Bytes

pub record RemResMsg : Type 0 where
  pub rc : ℤ
  pub tid : ℤ
  pub out : Bytes
  pub err : Bytes
  pub hsh : Bytes

-- A message whose fields have not been set.
abbrev pub empty_cmd : RemCmdMsg
empty_cmd = record { cmd = []; cmdtyp = pos 0; cmdusr = []; tid = pos 0; src = []; hsh = [] }

abbrev pub empty_res : RemResMsg
empty_res = record { rc = pos 0; tid = pos 0; out = []; err = []; hsh = [] }

-- `other` stands for the codes that the program never makes and only reads from the transport.
pub data StatusCode : Type 0 where
  ok permission_denied invalid_argument unauthenticated : StatusCode
  other : ℕ → StatusCode

pub record Status : Type 0 where
  pub code : StatusCode
  pub message : Bytes

-- `grpc::Status::OK`
abbrev pub status_ok : Status
status_ok = record { code = ok; message = [] }

-- `status.ok()`
abbrev pub is_ok_code : StatusCode → Bool
is_ok_code ok = true
is_ok_code permission_denied = false
is_ok_code invalid_argument = false
is_ok_code unauthenticated = false
is_ok_code (other n) = false

abbrev pub is_ok : Status → Bool
is_ok s = is_ok_code s.code
