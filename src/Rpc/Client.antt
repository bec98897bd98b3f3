-- ===== src/Rpc/Client.antt =====
-- What the client does with an answer (datacake-rpc/src/client.rs).
use datacake.Base.{ℕ, Option, none, some, ltb, if◌then◌else◌}
use datacake.Base.Result.{Result, ok, err}
use datacake.Base.Text.{Text}
use datacake.Timestamp.Fields.{Duration}
use datacake.Rpc.Status.{Status, internal, invalid, connection, timeout}
use datacake.Rpc.View.{Bytes, Codec, DataView, using, to_owned}
use datacake.Rpc.Body.{Body, to_aligned, from_body}
use datacake.Rpc.Server.{StatusCode, status_ok, bad_request, internal_server_error}

-- The HTTP library's answer to `send_parts`: the head and the body of the response, or an error.
abbrev pub Answer : Type 0
Answer = Result Text (StatusCode × Body)

-- The answer, if it comes within the timeout of the client; `took` is the time until it comes.
unfoldable pub await_answer :
    Option Duration → Duration → Answer → Result Status (StatusCode × Body)
await_answer none took answer = elim answer [
  | ok response ↦ ok response
  | err e ↦ err (connection e)
]
await_answer (some limit) took answer =
    if ltb limit took
    then err timeout
    else elim answer [ ok response ↦ ok response | err e ↦ err (connection e) ]

module _ (crc : Bytes → ℕ) (status_codec : Codec Status) where
  -- The status in the body of an answer that is not OK.
  unfoldable pub read_status : Body → Status
  read_status body = elim (to_aligned body) [
    | err e ↦ internal e
    | ok buffer ↦ elim (using crc buffer) [
      | err e ↦ invalid
      | ok status ↦ elim (to_owned status_codec status) [ ok s ↦ s | err e ↦ invalid ]
    ]
  ]

  unfoldable pub receive : StatusCode → Body → Result Status DataView
  unfolding read_status
  receive status_ok body = from_body crc body
  receive bad_request body = err (read_status body)
  receive internal_server_error body = err (read_status body)

  unfoldable pub send_inner : Option Duration → Duration → Answer → Result Status DataView
  unfolding await_answer receive
  send_inner limit took answer = elim (await_answer limit took answer) [
    | err status ↦ err status
    | ok (status, body) ↦ receive status body
  ]
