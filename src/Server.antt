-- ===== src/Server.antt =====
-- `class Server`: include/mosaicdb/server.h and src/network/server.cpp, and the messages of
-- client/mosaic_client.py. One client's connection is modelled: the catalog it starts from holds what
-- the others have done. A result `none` is one that the components do not give.
pub mod Sockets
pub mod Messages
pub mod Client
pub mod Received
pub mod Requests
pub mod Loop
pub mod Replies
mod Tests
use nexus_db_main.Common.{
  ℕ, zero, suc, ◌+◌, ◌*◌, List, [], ◌∷◌, ◌++◌, Bytes, Bool, true, false, not, ◌||◌, Option, none,
  some, length, ltb, u32, is_empty, ◌==◌, if◌then◌else◌, ◌>>=◌,
}
use nexus_db_main.Encoding.{Status, ok, not_found, is_ok, encode_u32_le, decode_u32_le}
use nexus_db_main.Types.Floats.{Floats}
use nexus_db_main.Engine.{Engine, Answers}
use nexus_db_main.Engine as Store
use nexus_db_main.Catalog.{Catalog}
use nexus_db_main.Executor.{execute_sql}
use nexus_db_main.Executor.Insert.{QueryResult, is_error}
use nexus_db_main.Executor.Rows.{SortRows}
use nexus_db_main.Server.Sockets.{Socket, recv_all, send_all}
use nexus_db_main.Server.Messages.{Request, Reply, scan_bytes, result_bytes, reply_header}

abbrev pub proto_put : ℕ
proto_put = 0x01

abbrev pub proto_get : ℕ
proto_get = 0x02

abbrev pub proto_delete : ℕ
proto_delete = 0x03

abbrev pub proto_scan : ℕ
proto_scan = 0x04

abbrev pub proto_sql : ℕ
proto_sql = 0x05

abbrev pub resp_ok : ℕ
resp_ok = 0x00

abbrev pub resp_not_found : ℕ
resp_not_found = 0x01

abbrev pub resp_error : ℕ
resp_error = 0x02

abbrev pub ok_or_error : Bool → ℕ
ok_or_error b = if b then resp_ok else resp_error

-- The answer to PROTO_GET.
abbrev pub get_reply : Status → Bytes → Reply
get_reply ok v = record { status = resp_ok; value = v }
get_reply not_found v = record { status = resp_not_found; value = [] }
get_reply s v = record { status = resp_error; value = [] }

-- What a server has beside its catalog: the floating point library, the sort, and the answers of the
-- operating system to the calls that one request makes.
pub record Setting : Type 0 where
  pub floats : Floats
  pub sort : SortRows
  pub answers : ℕ → Answers

-- The switch on the type of a request.
unfoldable pub dispatch : Setting → Request → Catalog → Option (Reply × Catalog)
dispatch at r c =
    if r.type == proto_put
    then (do
      (s, engine) ← Store.put (at.answers 0) r.key r.value c.engine
      some (record { status = ok_or_error (is_ok s); value = [] }, record c { engine = engine }))
    else if r.type == proto_get
    then (do (s, v) ← Store.get r.key c.engine; some (get_reply s v, c))
    else if r.type == proto_delete
    then (do
      (s, engine) ← Store.remove (at.answers 0) r.key c.engine
      some (record { status = ok_or_error (is_ok s); value = [] }, record c { engine = engine }))
    else if r.type == proto_scan
    then (do
      entries ← Store.scan r.key r.value c.engine
      some (record { status = resp_ok; value = scan_bytes entries }, c))
    else if r.type == proto_sql
    then (do
      (result, c₁) ← execute_sql at.floats at.sort at.answers r.key c
      some (
        record {
          status = ok_or_error (not (is_error result));
          value = result_bytes at.floats result;
        },
        c₁,
      ))
    else some (record { status = resp_error; value = [] }, c)

abbrev pub max_key_size : ℕ
max_key_size = 10 * 1024 * 1024

abbrev pub max_value_size : ℕ
max_value_size = 100 * 1024 * 1024

-- A body of `size` bytes: nothing is received for an empty one.
unfoldable pub recv_body : ℕ → Socket → Option (Bytes × Socket)
recv_body zero s = some ([], s)
recv_body (suc n) s = recv_all (suc n) s

abbrev pub key_size : Bytes → ℕ
key_size header = elim header [ [] ↦ 0 | ◌∷◌ b rest ↦ decode_u32_le rest ]

unfoldable pub value_size : Bytes → ℕ
value_size (b ∷ b₁ ∷ b₂ ∷ b₃ ∷ b₄ ∷ rest) = decode_u32_le rest
value_size _ = 0

abbrev pub type_byte : Bytes → ℕ
type_byte header = elim header [ [] ↦ 0 | ◌∷◌ b rest ↦ b ]

unfoldable pub too_large : ℕ → ℕ → Bool
too_large k v = ltb max_key_size k || ltb max_value_size v

-- The first part of a round of `handle_client`: `none` leaves the loop.
unfoldable pub recv_request : Socket → Option (Request × Socket)
recv_request s = do
  (header, s₁) ← recv_all 9 s
  if too_large (key_size header) (value_size header) then none else (do
    (key, s₂) ← recv_body (key_size header) s₁
    (value, s₃) ← recv_body (value_size header) s₂
    some (record { type = type_byte header; key = key; value = value }, s₃))

-- The last part: `false` leaves the loop.
unfoldable pub send_reply : Reply → Socket → Bool × Socket
send_reply r s =
    let (sent, s₁) = send_all (reply_header r) s in
    if not sent then (false, s₁) else if is_empty r.value then (true, s₁) else send_all r.value s₁

-- How the loop for a client ends. `undefined` is a result that the components do not give, and
-- `out_of_fuel` has no counterpart in the program.
pub data Served : Type 0 where
  closed : Catalog → Socket → Served
  undefined out_of_fuel : Served

abbrev pub after_reply : (Socket → Served) → Catalog → Bool × Socket → Served
after_reply again c (sent, s) = elim sent [ true ↦ again s | false ↦ closed c s ]

-- `running` is what the flag of the server says at the start of each round; one unit of fuel for each.
unfoldable pub handle_client : (ℕ → Bool) → (ℕ → Setting) → ℕ → ℕ → Catalog → Socket → Served
handle_client running at zero i c s = out_of_fuel
handle_client running at (suc f) i c s = elim (running i) [
  | false ↦ closed c s
  | true ↦ elim (recv_request s) [
    | none ↦ closed c s
    | some (r, s₁) ↦ elim (dispatch (at i) r c) [
      | none ↦ undefined
      | some (reply, c₁) ↦
          after_reply (λ s₂. handle_client running at f (suc i) c₁ s₂) c₁ (send_reply reply s₁)
    ]
  ]
]
