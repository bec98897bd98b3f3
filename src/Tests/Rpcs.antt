-- ===== src/Tests/Rpcs.antt =====
-- Calls over a network and the table of a server on concrete inputs.
use datacake.Base.{
  ℕ, ◌+◌, ◌++◌, ◌%◌, ◌^◌, ◌<◌, ◌≡◌, refl, Option, none, some, List, [], ◌∷◌, arith, ◌==◌,
  if◌then◌else◌,
}
use datacake.Base.Result.{Result, ok, err}
use datacake.Base.Ord.{nat_ord}
use datacake.Base.TextOrd.{text_ord}
use datacake.Base.Assoc.{get, remove}
use datacake.Base.BTreeMap
use datacake.Base.BTreeSet
use datacake.Base.Text.{Text, codes}
use datacake.Rpc.Status.{
  Status, ErrorCode, service_unavailable, internal_error, invalid_payload, connection_error,
  timeout_error, internal, unavailable,
}
use datacake.Rpc.View
use datacake.Rpc.View.{
  Bytes, AllBytes, Codec, DataView, InvalidView, invalid_view, to_le_bytes, from_le_bytes, using,
  sealed,
}
use datacake.Rpc.Body.{Body, joined}
use datacake.Rpc.Registry.{
  sanitise, ServerState, to_uri_path, add_handler, register_handlers, add_keys, extend_handlers,
  add_handlers, retain, remove_handlers, get_handler, add_service,
}
use datacake.Rpc.Removal
use datacake.Rpc.Removal.{registered}
use datacake.Rpc.Server.{Request, OpaqueHandler, try_handle}
use datacake.Rpc.Exchange
use datacake.Rpc.Exchange.{Network, Delivers}

program : Unit {0}
unfolding to_le_bytes from_le_bytes using sanitise to_uri_path add_handler register_handlers
    add_keys extend_handlers add_handlers retain remove_handlers get_handler add_service get remove
    BTreeMap.insert BTreeSet.insert BTreeSet.contains
program = tt

abbrev sum : Bytes → ℕ
sum [] = 0
sum (b ∷ bs) = b + sum bs

abbrev crc : Bytes → ℕ
crc bs = sum bs % 2 ^ 32

crc_word : (bs : Bytes) → crc bs < 2 ^ 32
crc_word bs = omega arith

abbrev code_number : ErrorCode → ℕ
code_number service_unavailable = 0
code_number internal_error = 1
code_number invalid_payload = 2
code_number connection_error = 3
code_number timeout_error = 4

abbrev code_of : ℕ → Option ErrorCode
code_of n =
    if n == 0
    then some service_unavailable
    else if n == 1
    then some internal_error
    else if n == 2
    then some invalid_payload
    else if n == 3
    then some connection_error
    else if n == 4
    then some timeout_error
    else none

abbrev read_status : Bytes → Option Status
read_status [] = none
read_status (n ∷ message) = elim (code_of n) [
  | none ↦ none
  | some code ↦ some record { code = code; message = message }
]

abbrev status_codec : Codec Status
status_codec = record {
  serialize_value = λ s. ok (code_number s.code ∷ s.message);
  deserialize = read_status;
}

-- Every byte comes in a chunk of its own.
abbrev single : Bytes → Body
single [] = []
single (b ∷ bs) = ok (b ∷ []) ∷ single bs

single-joined : (bs : Bytes) → joined (single bs) ≡ ok bs
single-joined [] = refl
single-joined (b ∷ bs) = rw (single-joined bs) refl

code-number : (code : ErrorCode) → code_of (code_number code) ≡ some code
code-number service_unavailable = refl
code-number internal_error = refl
code-number invalid_payload = refl
code-number connection_error = refl
code-number timeout_error = refl

abbrev net : Network
net = record { hash = sum; crc = crc; status_codec = status_codec; chunks = single }

status-read : (s : Status) → read_status (code_number s.code ∷ s.message) ≡ some s
status-read s = rw (read_status, code-number s.code) refl

net-Delivers : Delivers net
net-Delivers = (single-joined, crc_word, λ s. (code_number s.code ∷ s.message, refl, status-read s))

abbrev read_number : Bytes → Option ℕ
read_number (n ∷ []) = some n
read_number _ = none

abbrev codec : Codec ℕ
codec = record { serialize_value = λ n. ok (n ∷ []); deserialize = read_number }

-- The handler adds one to the message and counts its calls; it refuses what it cannot read.
abbrev on_message : Request ℕ → ℕ → ℕ × Result Status ℕ
on_message request st = (
  st + 1,
  elim (read_number request.view.view) [
    | none ↦ err (internal (codes "unreadable"))
    | some n ↦ ok (n + 1)
  ],
)

abbrev service : Text
service = codes "Counter<u8>"

abbrev path : Text
path = codes "Next"

abbrev none_yet : ServerState (OpaqueHandler ℕ ℕ)
none_yet = record { services = []; handlers = [] }

abbrev server : ServerState (OpaqueHandler ℕ ℕ)
server = add_service sum service ((path, try_handle crc codec on_message) ∷ []) none_yet

server_knows :
    get_handler sum (to_uri_path service path) server ≡ some (try_handle crc codec on_message)
unfolding program
server_knows = refl

none_yet_knows : get_handler sum (to_uri_path service path) none_yet ≡ none
unfolding program
none_yet_knows = refl

send-served_example :
    let request : Request ℕ = record {
      remote_addr = 80;
      headers = 0;
      view = record { data_bytes = sealed crc crc_word (6 ∷ []); view = 6 ∷ [] };
    } in
    Exchange.send net codec none 0 service path 6 0 80 server 2 ≡ (
      (on_message request 2).0,
      elim (on_message request 2).1 [
        | err s ↦ err s
        | ok reply ↦ elim (codec.serialize_value reply) [
          | ok r ↦ ok record { data_bytes = sealed crc crc_word r; view = r }
          | err e ↦ err (internal e)
        ]
      ],
    )
send-served_example =
    Exchange.send-served net net-Delivers codec service path 6 0 80 server 2 (6 ∷ []) refl codec
      on_message server_knows

send-unknown_example :
    Exchange.send net codec none 0 service path 6 0 80 none_yet 2
    ≡ (2, err (unavailable (codes "Unknown service " ++ to_uri_path service path)))
send-unknown_example =
    Exchange.send-unknown net net-Delivers codec service path 6 0 80 none_yet 2 (6 ∷ []) refl
      none_yet_knows

abbrev a_server : ServerState ℕ
a_server = add_service sum (codes "a") ((codes "y", 5) ∷ []) record { services = []; handlers = [] }

abbrev b_messages : List (Text × ℕ)
b_messages = (codes "x", 7) ∷ []

b_fresh : get (codes "b") a_server.services ≡ none
unfolding program
b_fresh = refl

get_handler-remove_handlers_example :
    let added = add_service sum (codes "b") b_messages a_server in
    get_handler sum (to_uri_path (codes "a") (codes "y")) (remove_handlers (codes "b") added)
    ≡ registered sum (codes "b") b_messages (sum (to_uri_path (codes "a") (codes "y")))
get_handler-remove_handlers_example =
    Removal.get_handler-remove_handlers sum (codes "b") (codes "x") 7 []
      (to_uri_path (codes "a") (codes "y")) a_server b_fresh

abbrev buffer : Bytes
buffer = 6 ∷ 6 ∷ 0 ∷ 0 ∷ 0 ∷ []

abbrev buffer_view : DataView
buffer_view = record { data_bytes = buffer; view = 6 ∷ [] }

buffer-using : using crc buffer ≡ ok buffer_view
unfolding program
buffer-using = refl

corrupted_test : using crc (7 ∷ 6 ∷ 0 ∷ 0 ∷ 0 ∷ []) ≡ err invalid_view
unfolding program
corrupted_test = refl

using_sound_example :
    (buffer_view.data_bytes ≡ buffer) × (sealed crc crc_word buffer_view.view ≡ buffer)
using_sound_example =
    View.using_sound crc crc_word buffer {view = buffer_view}
      (omega arith, (omega arith, (omega arith, (omega arith, (omega arith, tt))))) buffer-using
