-- ===== src/Rpc/Exchange.antt =====
-- A call over a network that delivers (datacake-rpc/src/client.rs and net/server.rs together).
use datacake.Base.{ℕ, ◌^◌, ◌<◌, ◌≡◌, refl, ap, ◌∙◌, Option, none, some, ◌++◌, inl, inr}
use datacake.Base.Result.{Result, ok, err, Result-cases}
use datacake.Base.Text.{Text, codes}
use datacake.Timestamp.Fields.{Duration}
use datacake.Selector.Cycler.{SocketAddr}
use datacake.Rpc.Status.{Status, unavailable, internal}
use datacake.Rpc.View.{Bytes, Codec, DataView, to_view_bytes, to_owned, sealed, using-sealed}
use datacake.Rpc.Body.{Body, joined, to_aligned, to_aligned_lem, from_body, try_as_body}
use datacake.Rpc.Registry.{HandlerKey, ServerState, to_uri_path, get_handler}
use datacake.Rpc.Server.{
  respond, Request, OpaqueHandler, try_handle, try_handle_request, create_bad_request,
  handle_message, handle_connection,
}
use datacake.Rpc.Client.{send_inner, receive, read_status, await_answer}

-- The parties: the hash, the codec of statuses, and the way the network cuts a body into chunks.
pub record Network : Type 0 where
  pub hash : Text → HandlerKey
  pub crc : Bytes → ℕ
  pub status_codec : Codec Status
  pub chunks : Bytes → Body

-- Bodies arrive whole, checksums are words, and every status is archived and read back.
abbrev pub Delivers : Network → Type 0
Delivers net =
    ((bs : Bytes) → joined (net.chunks bs) ≡ ok bs)
    × ((bs : Bytes) → net.crc bs < 2 ^ 32)
    × ((s : Status)
        → (b : Bytes) × (net.status_codec.serialize_value s ≡ ok b)
          × (net.status_codec.deserialize b ≡ some s))

module _ (net : Network) {Headers St : Type 0} where
  -- `RpcContext::send`: the state of the server after the call, and the client's result.
  unfoldable pub send :
      {Msg : Type 0}
      → Codec Msg
      → Option Duration
      → Duration
      → Text
      → Text
      → Msg
      → Headers
      → SocketAddr
      → ServerState (OpaqueHandler Headers St)
      → St
      → St × Result Status DataView
  unfolding send_inner to_uri_path handle_connection
  send codec limit took service path msg headers addr server st =
      elim (try_as_body net.crc codec msg) [
        | err status ↦ (st, err status)
        | ok bytes ↦
            let (st', response) =
              handle_connection net.crc net.hash net.status_codec server (to_uri_path service path)
                headers addr (net.chunks bytes) st in
            (
              st',
              send_inner net.crc net.status_codec limit took
                  (ok (response.status, net.chunks response.body)),
            )
      ]

module _ (net : Network) (delivers : Delivers net) where
  to_aligned-chunks : (bs : Bytes) → to_aligned (net.chunks bs) ≡ ok bs
  to_aligned-chunks bs = to_aligned_lem (net.chunks bs) ∙ delivers.0 bs

  from_body-chunks :
      (b : Bytes)
      → from_body net.crc (net.chunks (sealed net.crc delivers.1 b))
        ≡ ok record { data_bytes = sealed net.crc delivers.1 b; view = b }
  unfolding from_body
  from_body-chunks b =
      rw
        (
          from_body,
          to_aligned-chunks (sealed net.crc delivers.1 b),
          using-sealed net.crc delivers.1 b,
        )
        refl

  read_status-chunks :
      (s : Status)
      → read_status net.crc net.status_codec
          (net.chunks (create_bad_request net.crc net.status_codec s).body)
        ≡ s
  unfolding read_status create_bad_request to_view_bytes to_owned
  read_status-chunks s =
      let (b, e, d) = delivers.2 s in
      rw
        (
          read_status,
          create_bad_request,
          to_view_bytes,
          to_owned,
          e,
          to_aligned-chunks (sealed net.crc delivers.1 b),
          using-sealed net.crc delivers.1 b,
          d,
        )
        refl

  -- What the client makes of the answer to a request.
  receive-respond :
      (reply : Result Status Bytes)
      → let response = respond net.crc net.status_codec reply in
        send_inner net.crc net.status_codec none 0 (ok (response.status, net.chunks response.body))
        ≡ elim reply [ ok b ↦ from_body net.crc (net.chunks b) | err s ↦ err s ]
  unfolding respond send_inner await_answer receive create_bad_request
  receive-respond (ok b) = refl
  receive-respond (err s) = ap err (read_status-chunks s)

  -- The bytes of a handler's answer, and what the client reads of them.
  abbrev answer_of : {Reply : Type 0} → Codec Reply → Result Status Reply → Result Status Bytes
  answer_of reply_codec (ok reply) = try_as_body net.crc reply_codec reply
  answer_of reply_codec (err s) = err s

  receive-answer :
      {Reply : Type 0} (reply_codec : Codec Reply) (res : Result Status Reply)
      → elim (answer_of reply_codec res) [ ok b ↦ from_body net.crc (net.chunks b) | err s ↦ err s ]
        ≡ elim res [
          | err s ↦ err s
          | ok reply ↦ elim (reply_codec.serialize_value reply) [
            | ok r ↦ ok record { data_bytes = sealed net.crc delivers.1 r; view = r }
            | err e ↦ err (internal e)
          ]
        ]
  unfolding try_as_body to_view_bytes
  receive-answer reply_codec (err s) = refl
  receive-answer reply_codec (ok reply) = elim (Result-cases (reply_codec.serialize_value reply)) [
    | inl (r, e) ↦ rw e (from_body-chunks r)
    | inr (s, e) ↦ rw e refl
  ]

module _ (net : Network) (delivers : Delivers net) {Headers St Msg : Type 0} (codec : Codec Msg)
    (service path : Text) (msg : Msg) (headers : Headers) (addr : SocketAddr)
    (server : ServerState (OpaqueHandler Headers St)) (st : St) (bytes : Bytes)
    (archived : codec.serialize_value msg ≡ ok bytes) where
  abbrev handled : St × Result Status Bytes
  handled =
      try_handle_request net.crc net.hash server (to_uri_path service path) headers addr
        (net.chunks (sealed net.crc delivers.1 bytes)) st

  try_as_body-archived : try_as_body net.crc codec msg ≡ ok (sealed net.crc delivers.1 bytes)
  unfolding try_as_body to_view_bytes
  try_as_body-archived = rw (try_as_body, to_view_bytes, archived) refl

  send_lem :
      send net codec none 0 service path msg headers addr server st
      ≡ (handled.0, elim handled.1 [ ok b ↦ from_body net.crc (net.chunks b) | err s ↦ err s ])
  unfolding send handle_connection handle_message
  send_lem =
      rw (send, try_as_body-archived)
        (ap (λ r. (handled.0, r)) (receive-respond net delivers handled.1))

  -- A call without a timeout of a message that no handler is registered for leaves the server's
  -- state as it is, and the client gets the status "unavailable" with the path.
  pub send-unknown :
      get_handler net.hash (to_uri_path service path) server ≡ none
      → send net codec none 0 service path msg headers addr server st
        ≡ (st, err (unavailable (codes "Unknown service " ++ to_uri_path service path)))
  unfolding try_handle_request
  send-unknown missing = send_lem ∙ rw (try_handle_request, missing) refl

  -- A call without a timeout of a registered message is answered as the handler answers the view of
  -- the same archive: the client gets the archive of the reply, or the status of the handler, and
  -- the state of the server is the handler's.
  pub send-served :
      {Reply : Type 0} (reply_codec : Codec Reply)
      (on_message : Request Headers → St → St × Result Status Reply)
      → get_handler net.hash (to_uri_path service path) server
        ≡ some (try_handle net.crc reply_codec on_message)
      → let request : Request Headers = record {
        remote_addr = addr;
        headers = headers;
        view = record { data_bytes = sealed net.crc delivers.1 bytes; view = bytes };
      } in
        send net codec none 0 service path msg headers addr server st ≡ (
          (on_message request st).0,
          elim (on_message request st).1 [
            | err s ↦ err s
            | ok reply ↦ elim (reply_codec.serialize_value reply) [
              | ok r ↦ ok record { data_bytes = sealed net.crc delivers.1 r; view = r }
              | err e ↦ err (internal e)
            ]
          ],
        )
  unfolding try_handle_request try_handle try_as_body to_view_bytes
  send-served reply_codec on_message known =
      let request : Request Headers = record {
        remote_addr = addr;
        headers = headers;
        view = record { data_bytes = sealed net.crc delivers.1 bytes; view = bytes };
      } in
      let (st', res) = on_message request st in
      let served : handled ≡ (st', answer_of net delivers reply_codec res) =
        rw (try_handle_request, known, try_handle, from_body-chunks net delivers bytes) refl in
      send_lem
      ∙ ap
          (λ (x : St × Result Status Bytes).
            (x.0, elim x.1 [ ok b ↦ from_body net.crc (net.chunks b) | err s ↦ err s ]))
          served
      ∙ ap (λ r. (st', r)) (receive-answer net delivers reply_codec res)
