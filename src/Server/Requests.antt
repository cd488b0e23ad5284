-- ===== src/Server/Requests.antt =====
-- A request that the client of client/mosaic_client.py wrote is the one that the server receives.
use nexus_db_main.Common.{
  ℕ, suc, ◌≤◌, ◌<◌, ◌^◌, [], ◌∷◌, ◌++◌, Bytes, false, Option, none, some, length, ◌≡◌, refl, ◌∙◌,
  ap, arith, append_assoc, ltb-false,
}
use nexus_db_main.Common.Reads.{read_exactly, read_exactly-append}
use nexus_db_main.Encoding.{encode_u32_le, decode_u32_le}
use nexus_db_main.Encoding.RoundTrip.{decode_u32_le-encode_self}
use nexus_db_main.Server.Sockets.{Socket, recv_all}
use nexus_db_main.Server.Messages.{Request}
use nexus_db_main.Server.Client.{request_bytes}
use nexus_db_main.Server.Received.{taken, recv_all-read_exactly}
use nexus_db_main.Server.{
  recv_body, recv_request, key_size, value_size, too_large, max_key_size, max_value_size,
}

-- What a read gives, and the bytes behind it.
abbrev pub Gets : {A : Type 0} → Option (A × Socket) → A → Bytes → Type 0
Gets {A} o a rest = (s : Socket) × (o ≡ some (a, s)) × (s.incoming ≡ rest)

taken-Gets :
    (o : Option (Bytes × Socket)) {bytes rest : Bytes}
    → taken o ≡ some (bytes, rest)
    → Gets o bytes rest
taken-Gets none h = absurd (cc)
taken-Gets (some (xs, s)) h = (s, cc, cc)

pub recv_all-Gets :
    (n : ℕ) (front rest : Bytes) (s : Socket)
    → length front ≡ n
    → s.incoming ≡ front ++ rest
    → Gets (recv_all n s) front rest
recv_all-Gets n front rest s h e =
    taken-Gets (recv_all n s)
      (recv_all-read_exactly n s ∙ (ap (read_exactly n) e ∙ read_exactly-append n front rest h))

recv_body-Gets :
    (body rest : Bytes) (s : Socket)
    → s.incoming ≡ body ++ rest
    → Gets (recv_body (length body) s) body rest
unfolding recv_body
recv_body-Gets [] rest s e = (s, refl, e)
recv_body-Gets (b ∷ body) rest s e = recv_all-Gets (suc (length body)) (b ∷ body) rest s refl e

abbrev header_bytes : Request → Bytes
header_bytes r = r.type ∷ (encode_u32_le (length r.key) ++ encode_u32_le (length r.value))

length-header_bytes : (r : Request) → length (header_bytes r) ≡ 9
unfolding encode_u32_le
length-header_bytes r = refl

key_size-header_bytes :
    (r : Request) → length r.key < 2 ^ 32 → key_size (header_bytes r) ≡ length r.key
unfolding encode_u32_le decode_u32_le
key_size-header_bytes r h = decode_u32_le-encode_self (length r.key) h

value_size-header_bytes :
    (r : Request) → length r.value < 2 ^ 32 → value_size (header_bytes r) ≡ length r.value
unfolding encode_u32_le decode_u32_le value_size
value_size-header_bytes r h = decode_u32_le-encode_self (length r.value) h

too_large-false : (k v : ℕ) → k ≤ max_key_size → v ≤ max_value_size → too_large k v ≡ false
unfolding too_large
too_large-false k v h l = rw (ltb-false max_key_size k h, ltb-false max_value_size v l) refl

request_bytes-append :
    (r : Request) (rest : Bytes)
    → request_bytes r ++ rest ≡ header_bytes r ++ (r.key ++ (r.value ++ rest))
unfolding request_bytes encode_u32_le
request_bytes-append r rest =
    ap
      (λ (t : Bytes).
        r.type ∷ (encode_u32_le (length r.key) ++ (encode_u32_le (length r.value) ++ t)))
      (append_assoc r.key r.value rest)

-- Within the limits of the server, it receives the request that the client wrote and leaves the bytes
-- behind it, however the connection cuts them up.
pub recv_request-request_bytes :
    (r : Request) (rest : Bytes) (s : Socket)
    → length r.key ≤ max_key_size
    → length r.value ≤ max_value_size
    → s.incoming ≡ request_bytes r ++ rest
    → (s₁ : Socket) × (recv_request s ≡ some (r, s₁)) × (s₁.incoming ≡ rest)
unfolding recv_request
recv_request-request_bytes r rest s h l e =
    let (s₁, e₁, i₁) =
      recv_all-Gets 9 (header_bytes r) _ s (length-header_bytes r)
        (e ∙ request_bytes-append r rest) in
    let (s₂, e₂, i₂) = recv_body-Gets r.key _ s₁ i₁ in
    let (s₃, e₃, i₃) = recv_body-Gets r.value rest s₂ i₂ in
    let k = key_size-header_bytes r (omega arith) in
    let v = value_size-header_bytes r (omega arith) in
    (s₃, rw (e₁, k, v, too_large-false _ _ h l, e₂, e₃) refl, i₃)
