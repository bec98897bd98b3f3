-- ===== src/Rpc/Server.antt =====
-- What the server does with a request (datacake-rpc/src/handler.rs, request.rs and net/server.rs).
-- `St` is the state that the handlers share, `Headers` the HTTP library's header map.
use datacake.Base.{ℕ, none, some, [], ◌++◌}
use datacake.Base.Result.{Result, ok, err}
use datacake.Base.Text.{Text, codes}
use datacake.Selector.Cycler.{SocketAddr}
use datacake.Rpc.Status.{Status, unavailable}
use datacake.Rpc.View.{Bytes, Codec, DataView, to_view_bytes}
use datacake.Rpc.Body.{Body, from_body, try_as_body}
use datacake.Rpc.Registry.{HandlerKey, ServerState, get_handler}

pub data StatusCode : Type 0 where
  status_ok bad_request internal_server_error : StatusCode

pub record Response : Type 0 where
  pub status : StatusCode
  pub body : Bytes

pub record Request (Headers : Type 0) : Type 0 where
  pub remote_addr : SocketAddr
  pub headers : Headers
  pub view : DataView

-- `OpaqueMessageHandler::try_handle`.
abbrev pub OpaqueHandler : Type 0 → Type 0 → Type 0
OpaqueHandler Headers St = SocketAddr → Headers → Body → St → St × Result Status Bytes

module _ (crc : Bytes → ℕ) where
  unfoldable pub create_bad_request : Codec Status → Status → Response
  create_bad_request status_codec status = record {
    status = bad_request;
    body = elim (to_view_bytes crc status_codec status) [ ok buffer ↦ buffer | err e ↦ [] ];
  }

  -- The response to what a handler has answered.
  unfoldable pub respond : Codec Status → Result Status Bytes → Response
  unfolding create_bad_request
  respond status_codec (ok bytes) = record { status = status_ok; body = bytes }
  respond status_codec (err status) = create_bad_request status_codec status

module _ (crc : Bytes → ℕ) {Headers St : Type 0} where
  -- `PhantomHandler`: the handler of one message of a service.
  unfoldable pub try_handle :
      {Reply : Type 0}
      → Codec Reply
      → (Request Headers → St → St × Result Status Reply)
      → OpaqueHandler Headers St
  try_handle reply_codec on_message remote_addr headers body st = elim (from_body crc body) [
    | err status ↦ (st, err status)
    | ok view ↦
        let msg : Request Headers = record {
          remote_addr = remote_addr;
          headers = headers;
          view = view;
        } in
        let (st', res) = on_message msg st in
        (st', elim res [ err status ↦ err status | ok reply ↦ try_as_body crc reply_codec reply ])
  ]

  unfoldable pub try_handle_request :
      (Text → HandlerKey)
      → ServerState (OpaqueHandler Headers St)
      → Text
      → Headers
      → SocketAddr
      → Body
      → St
      → St × Result Status Bytes
  try_handle_request hash state uri headers remote_addr body st =
      elim (get_handler hash uri state) [
        | none ↦ (st, err (unavailable (codes "Unknown service " ++ uri)))
        | some handler ↦ handler remote_addr headers body st
      ]

  unfoldable pub handle_message :
      (Text → HandlerKey)
      → Codec Status
      → ServerState (OpaqueHandler Headers St)
      → Text
      → Headers
      → SocketAddr
      → Body
      → St
      → St × Result Text Response
  unfolding try_handle_request respond
  handle_message hash status_codec state uri headers remote_addr body st =
      let (st', reply) = try_handle_request hash state uri headers remote_addr body st in
      (st', ok (respond crc status_codec reply))

  unfoldable pub handle_connection :
      (Text → HandlerKey)
      → Codec Status
      → ServerState (OpaqueHandler Headers St)
      → Text
      → Headers
      → SocketAddr
      → Body
      → St
      → St × Response
  unfolding handle_message
  handle_connection hash status_codec state uri headers remote_addr body st =
      let (st', res) = handle_message hash status_codec state uri headers remote_addr body st in
      (
        st',
        elim res [
          | ok response ↦ response
          | err e ↦ record { status = internal_server_error; body = e }
        ],
      )
