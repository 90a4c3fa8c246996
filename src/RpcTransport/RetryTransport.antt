-- ===== src/RpcTransport/RetryTransport.antt =====
-- src/rpc_transport/retry_transport.rs: requests that are sent again until a reply comes, and the loop
-- that receives for them. Also src/rpc_transport/stream_framing.rs, the same over a connection.
use kademlia_packet_manager.Prelude.{
  ℕ, zero, suc, ◌^◌, ◌<◌, ◌≡◌, ◌∙◌, refl, sym, ap, subst, Bool, true, false, not, Option, none,
  some, List, [], ◌∷◌, ◌++◌, ltb, ◌==◌, if◌then◌else◌, length, take, drop, arith, length-append,
  take-length-append, drop-length-append,
}
use kademlia_packet_manager.DashMap.{DashMap}
use kademlia_packet_manager.CloseNodes.{SocketAddr}
use kademlia_packet_manager.Pending.{PendingSlot, Pending, deliver, register, PendingResponse}
use kademlia_packet_manager.RpcTransport.{
  id_len, reply_tag, request_id, reply_id, is_reply, to_be_bytes, from_be_bytes, length-be_bytes,
  from_be_bytes-to_be_bytes, ids-IsTagged,
}
use kademlia_packet_manager.Rpc.{IoResult, done, failed, ErrorKind}
use kademlia_packet_manager.HandleRpc.{Request, from_datagram, frame_reply}
use kademlia_packet_manager.HandleRpc.Answers.{from_datagram-to_be_bytes}

-- How many times a request is sent.
abbrev pub max_attempts : ℕ
max_attempts = 5

-- The channel of requests, where something serves them: `capacity` requests wait in it at most.
pub record Requests : Type 0 where
  pub capacity : ℕ
  pub queue : List Request

-- `try_send`: a full channel sheds the request.
unfoldable pub try_send : Requests → Request → Requests
try_send requests request =
    if ltb (length requests.queue) requests.capacity
    then record { capacity = requests.capacity; queue = requests.queue ++ request ∷ [] }
    else requests

module _ (map : DashMap ℕ PendingSlot) where
  -- What the receive loop changes.
  pub record Inbox : Type 0 where
    pub pending : Pending map
    pub requests : Option Requests

  unfoldable pub take_request : Inbox → SocketAddr → List ℕ → Inbox
  unfolding from_datagram try_send
  take_request inbox from datagram = elim inbox.requests [
    | none ↦ inbox
    | some requests ↦ elim (from_datagram from datagram) [
      | none ↦ inbox
      | some request ↦ record {
        pending = inbox.pending;
        requests = some (try_send requests request);
      }
    ]
  ]

  -- One turn of the loop, for the bytes that were received.
  unfoldable pub receive : (ℕ → Bool) → Inbox → SocketAddr → List ℕ → Inbox
  unfolding is_reply request_id from_be_bytes take_request deliver
  receive receives inbox from datagram =
      let id = from_be_bytes (take id_len datagram) in
      if ltb (length datagram) id_len
      then inbox
      else if not (is_reply id)
      then take_request inbox from datagram
      else record {
        pending =
            (deliver map receives inbox.pending (request_id id) from (drop id_len datagram)).0;
        requests = inbox.requests;
      }

  -- The ids that are drawn, until one is free.
  unfoldable pub register_new :
      Pending map → List ℕ → SocketAddr → Pending map × Option (ℕ × PendingResponse)
  unfolding request_id register
  register_new s [] address = (s, none)
  register_new s (random ∷ draws) address =
      let id = request_id random in
      let (s', made) = register map s id address in
      let later = register_new s draws address in
      elim made [ none ↦ later | some response ↦ (s', some (id, response)) ]

-- The sends of one request: the socket, and the wait for the reply until the next one.
module _ {W : Type 0} (send_packet : W → List ℕ → SocketAddr → W × IoResult (List ℕ))
    (wait : W → W × Option (List ℕ)) where
  unfoldable pub attempt : ℕ → W → List ℕ → SocketAddr → W × IoResult (List ℕ)
  attempt zero w datagram address = (w, failed ErrorKind.timed_out)
  attempt (suc attempts) w datagram address =
      let (w', sent) = send_packet w datagram address in
      elim sent [
        | failed e ↦ (w', failed e)
        | done written ↦
            let (w'', res) = wait w' in
            elim res [
              | some reply ↦ (w'', done reply)
              | none ↦ attempt attempts w'' datagram address
            ]
      ]

  -- Behind the registration of the id.
  unfoldable pub send_receive : W → ℕ → List ℕ → SocketAddr → W × IoResult (List ℕ)
  unfolding attempt to_be_bytes
  send_receive w id payload address = attempt max_attempts w (to_be_bytes id ++ payload) address

-- What `stream_send_receive` makes of all the bytes that come back on its connection.
unfoldable pub read_reply : ℕ → List ℕ → IoResult (List ℕ)
unfolding request_id from_be_bytes
read_reply id bytes =
    let echoed = from_be_bytes (take id_len bytes) in
    if ltb (length bytes) id_len
    then failed ErrorKind.other
    else if not (request_id echoed == id)
    then failed ErrorKind.invalid_data
    else done (drop id_len bytes)

-- A datagram begins with the eight bytes of its id.
record StartsWith (id : ℕ) (body datagram : List ℕ) : Type 0 where
  long : ltb (length datagram) id_len ≡ false
  read : from_be_bytes (take id_len datagram) ≡ id
  rest : drop id_len datagram ≡ body

to_be_bytes-StartsWith :
    (id : ℕ) (body : List ℕ) → id < 2 ^ 64 → StartsWith id body (to_be_bytes id ++ body)
to_be_bytes-StartsWith id body h =
    let eight : length (to_be_bytes id) ≡ id_len =
      unfold to_be_bytes in length-be_bytes id_len id in
    let front : take id_len (to_be_bytes id ++ body) ≡ to_be_bytes id =
      subst (λ n. take n (to_be_bytes id ++ body) ≡ to_be_bytes id) eight
        (take-length-append (to_be_bytes id) body) in
    record {
      long = ground (arith, length-append (to_be_bytes id) body, eight);
      read = ap from_be_bytes front ∙ from_be_bytes-to_be_bytes id h;
      rest =
          subst (λ n. drop n (to_be_bytes id ++ body) ≡ body) eight
            (drop-length-append (to_be_bytes id) body);
    }

-- What the id of a reply tells: the number of its request.
reply_back : (id : ℕ) → id < reply_tag → request_id (reply_id id) ≡ id
reply_back id h =
    let tags = ids-IsTagged id (omega arith) in tags.back ∙ omega (arith, tags.kept, h)

-- A reply that `frame_reply` made, read off a connection, is its body for the request of that id, and
-- an error for every other.
pub read_reply-frame_reply :
    (id asked : ℕ) (body : List ℕ)
    → id < reply_tag
    → read_reply asked (frame_reply id body)
      ≡ (if id == asked then done body else failed ErrorKind.invalid_data)
unfolding read_reply frame_reply
read_reply-frame_reply id asked body h =
    let tags = ids-IsTagged id (omega arith) in
    let starts = to_be_bytes-StartsWith (reply_id id) body tags.reply_small in
    let back = ap request_id starts.read ∙ reply_back id h in
    rw (starts.long, back, starts.rest) (ground arith)

module _ (map : DashMap ℕ PendingSlot) (receives : ℕ → Bool) where
  receive-reply :
      (inbox : Inbox map) (from : SocketAddr) (id : ℕ) (body : List ℕ)
      → id < reply_tag
      → receive map receives inbox from (frame_reply id body) ≡ record {
        pending = (deliver map receives inbox.pending id from body).0;
        requests = inbox.requests;
      }
  unfolding receive frame_reply
  receive-reply inbox from id body h =
      let tags = ids-IsTagged id (omega arith) in
      let starts = to_be_bytes-StartsWith (reply_id id) body tags.reply_small in
      let tagged : is_reply (from_be_bytes (take id_len (to_be_bytes (reply_id id) ++ body)))
          ≡ true =
        ap is_reply starts.read ∙ tags.reply in
      let back = ap request_id starts.read ∙ reply_back id h in
      rw (starts.long, tagged, back, starts.rest) refl

  receive-request :
      (s : Pending map) (requests : Requests) (from : SocketAddr) (id : ℕ) (body : List ℕ)
      → id < reply_tag
      → receive map receives
          (record { pending = s; requests = some requests })
          from
          (to_be_bytes id ++ body)
        ≡ record {
          pending = s;
          requests = some (
              try_send requests
                (record { id = id; from = from; from_is_reachable = true; payload = body }));
        }
  unfolding receive take_request
  receive-request s requests from id body h =
      let tags = ids-IsTagged id (omega arith) in
      let starts = to_be_bytes-StartsWith id body (omega arith) in
      let plain : request_id id ≡ id = omega (arith, tags.kept, h) in
      let untagged : is_reply (from_be_bytes (take id_len (to_be_bytes id ++ body))) ≡ false =
        ap is_reply (starts.read ∙ sym plain) ∙ tags.request in
      let parsed = from_datagram-to_be_bytes from id body (omega arith) in
      rw (starts.long, untagged, take_request, parsed) refl

  -- On the one socket of a node, for ids below the tag, what `frame_reply` made goes to the request that
  -- waits under its id, and never to the queue of requests; what was sent as a request goes to the queue
  -- with its id, its sender and its payload, and never to a request that waits.
  pub receive-apart :
      (s : Pending map) (requests : Requests) (from : SocketAddr) (id : ℕ) (body : List ℕ)
      → id < reply_tag
      → (receive map receives
            (record { pending = s; requests = some requests })
            from
            (frame_reply id body)
          ≡ record { pending = (deliver map receives s id from body).0; requests = some requests })
        × (receive map receives
              (record { pending = s; requests = some requests })
              from
              (to_be_bytes id ++ body)
            ≡ record {
              pending = s;
              requests = some (
                  try_send requests
                    (record { id = id; from = from; from_is_reachable = true; payload = body }));
            })
  receive-apart s requests from id body h = (
    receive-reply (record { pending = s; requests = some requests }) from id body h,
    receive-request s requests from id body h,
  )
