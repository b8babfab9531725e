-- ===== src/Broker/Requests/Sent.antt =====
-- The broker reads the requests that the client sends.
use aero_mq.Prelude.{
  ℕ, ◌+◌, ◌*◌, ◌/◌, ◌%◌, ◌^◌, ◌<◌, ◌≡◌, refl, sym, ap, ◌∙◌, true, some, [], ◌∷◌, ◌++◌, length,
  length-append, Text, arith, nat_key,
}
use aero_mq.Client.Frames.{
  byte, be16, be32, be64, get_be16, get_be32, frame_header, produce_header, produce_body,
  fetch_header, fetch_body, max_bytes,
}
use aero_mq.Client.Exchange.{split_at}
use aero_mq.Broker.Utf8.{is_utf8}
use aero_mq.Broker.Requests.{
  produce_request, fetch_request, take_be16, take_be32, take_be64, take_topic, read_produce,
  read_fetch_body, read_body, request, or_refused, read_request,
}

split_at-length : (s t : Text) → split_at (length s) (s ++ t) ≡ some (s, t)
unfolding split_at
split_at-length [] t = refl
split_at-length (c ∷ s) t = rw (split_at-length s t) refl

split_at-whole : (s : Text) → split_at (length s) s ≡ some (s, [])
unfolding split_at
split_at-whole [] = refl
split_at-whole (c ∷ s) = rw (split_at-whole s) refl

get_be16-be16 : (n : ℕ) → n < 2 ^ 16 → get_be16 (byte (n / 256)) (byte n) ≡ n
get_be16-be16 n h = omega (arith, h)

get_be32-be32 :
    (n : ℕ)
    → n < 2 ^ 32
    → get_be32 (byte (n / 2 ^ 24)) (byte (n / 2 ^ 16)) (byte (n / 256)) (byte n) ≡ n
get_be32-be32 n h = omega (arith, h)

take_be16-be16 : (n : ℕ) (s : Text) → n < 2 ^ 16 → take_be16 (be16 n ++ s) ≡ some (n, s)
unfolding take_be16
take_be16-be16 n s h = ap (λ v. some (v, s)) (get_be16-be16 n h)

take_be32-be32 : (n : ℕ) (s : Text) → n < 2 ^ 32 → take_be32 (be32 n ++ s) ≡ some (n, s)
unfolding take_be32
take_be32-be32 n s h = ap (λ v. some (v, s)) (get_be32-be32 n h)

get_be32-be32_mod :
    (n : ℕ)
    → get_be32 (byte (n / 2 ^ 24)) (byte (n / 2 ^ 16)) (byte (n / 256)) (byte n) ≡ n % 2 ^ 32
get_be32-be32_mod n = omega arith

pub get_be64-be64 :
    (n : ℕ)
    → n < 2 ^ 64
    → let m = n / 2 ^ 32 in
      get_be32 (byte (m / 2 ^ 24)) (byte (m / 2 ^ 16)) (byte (m / 256)) (byte m) * 2 ^ 32
        + get_be32 (byte (n / 2 ^ 24)) (byte (n / 2 ^ 16)) (byte (n / 256)) (byte n)
      ≡ n
get_be64-be64 n h =
    omega (arith, h, get_be32-be32 (n / 2 ^ 32) (omega (arith, h)), get_be32-be32_mod n)

take_be64-be64 : (n : ℕ) (s : Text) → n < 2 ^ 64 → take_be64 (be64 n ++ s) ≡ some (n, s)
unfolding take_be64
take_be64-be64 n s h = ap (λ v. some (v, s)) (get_be64-be64 n h)

take_topic-fields :
    (body t u topic : Text) (n : ℕ)
    → take_be16 body ≡ some (n, t)
    → split_at n t ≡ some (topic, u)
    → is_utf8 topic ≡ true
    → take_topic body ≡ some (topic, u)
unfolding take_topic
take_topic-fields body t u topic n e f h = rw (e, f, h, take_topic) refl

take_topic-be16 :
    (topic s : Text)
    → length topic < 2 ^ 16
    → is_utf8 topic ≡ true
    → take_topic (be16 (length topic) ++ (topic ++ s)) ≡ some (topic, s)
take_topic-be16 topic s h =
    take_topic-fields _ (topic ++ s) s topic (length topic)
      (take_be16-be16 (length topic) (topic ++ s) h) (split_at-length topic s)

read_produce-fields :
    (body t u v w topic message : Text) (p size : ℕ)
    → take_topic body ≡ some (topic, t)
    → take_be32 t ≡ some (p, u)
    → take_be32 u ≡ some (size, v)
    → split_at size v ≡ some (message, w)
    → read_produce body ≡ some (produce_request topic p message)
unfolding read_produce
read_produce-fields body t u v w topic message p size a b c d = rw (a, b, c, d, read_produce) refl

read_produce-produce_body :
    (topic message : Text) (p : ℕ)
    → length topic < 2 ^ 16
    → is_utf8 topic ≡ true
    → p < 2 ^ 32
    → length message < 2 ^ 32
    → read_produce (produce_body topic p message) ≡ some (produce_request topic p message)
unfolding produce_body
read_produce-produce_body topic message p ht u hp hm =
    let sized = be32 (length message) ++ message in
    read_produce-fields (produce_body topic p message) (be32 p ++ sized) sized message [] topic
      message p (length message) (take_topic-be16 topic (be32 p ++ sized) ht u)
      (take_be32-be32 p sized hp) (take_be32-be32 (length message) message hm)
      (split_at-whole message)

read_fetch_body-fields :
    (body t u v w topic : Text) (p offset size : ℕ)
    → take_topic body ≡ some (topic, t)
    → take_be32 t ≡ some (p, u)
    → take_be64 u ≡ some (offset, v)
    → take_be32 v ≡ some (size, w)
    → read_fetch_body body ≡ some (fetch_request topic p offset size)
unfolding read_fetch_body
read_fetch_body-fields body t u v w topic p offset size a b c d =
    rw (a, b, c, d, read_fetch_body) refl

read_fetch_body-fetch_body :
    (topic : Text) (p offset : ℕ)
    → length topic < 2 ^ 16
    → is_utf8 topic ≡ true
    → p < 2 ^ 32
    → offset < 2 ^ 64
    → read_fetch_body (fetch_body topic p offset) ≡ some (fetch_request topic p offset max_bytes)
unfolding fetch_body
read_fetch_body-fetch_body topic p offset ht u hp ho =
    let sized = be64 offset ++ be32 max_bytes in
    read_fetch_body-fields (fetch_body topic p offset) (be32 p ++ sized) sized (be32 max_bytes) []
      topic p offset max_bytes (take_topic-be16 topic (be32 p ++ sized) ht u)
      (take_be32-be32 p sized hp) (take_be64-be64 offset (be32 max_bytes) ho)
      (take_be32-be32 max_bytes [] (omega arith))

length-produce_body :
    (topic message : Text) (p : ℕ)
    → length (produce_body topic p message) ≡ 2 + length topic + 4 + 4 + length message
unfolding produce_body
length-produce_body topic message p =
    omega (arith, length-append topic (be32 p ++ (be32 (length message) ++ message)))

length-fetch_body :
    (topic : Text) (p offset : ℕ)
    → length (fetch_body topic p offset) ≡ 2 + length topic + 4 + 8 + 4
unfolding fetch_body
length-fetch_body topic p offset =
    omega (arith, length-append topic (be32 p ++ (be64 offset ++ be32 max_bytes)))

-- A header with a body of the length that it tells.
read_request-frame :
    (cmd : ℕ) (body rest : Text)
    → length body < 2 ^ 32
    → read_request (frame_header cmd (length body) ++ (body ++ rest))
      ≡ or_refused (read_body cmd body) rest
unfolding read_request frame_header
read_request-frame cmd body rest h =
    rw (get_be32-be32 (length body) h, split_at-length body rest) refl

read_body-produce : (body : Text) → read_body 1 body ≡ read_produce body
unfolding read_body
read_body-produce body = refl

read_body-fetch : (body : Text) → read_body 2 body ≡ read_fetch_body body
unfolding read_body
read_body-fetch body = refl

-- The two frames that the client sends in a request are read by the broker as the request that was
-- meant, whatever bytes follow: a produce request with its topic, partition and message, and a fetch
-- request with its topic, partition, offset and the size of 65536 bytes. The topic is UTF-8 text of
-- less than 2^16 bytes, the numbers are in range of their types, and the message is shorter than
-- 2^31 bytes.
pub read_request-sent :
    (topic message rest : Text) (p offset : ℕ)
    → length topic < 2 ^ 16
    → is_utf8 topic ≡ true
    → p < 2 ^ 32
    → offset < 2 ^ 64
    → length message < 2 ^ 31
    → (read_request (produce_header topic message ++ (produce_body topic p message ++ rest))
        ≡ request (produce_request topic p message) rest)
      × (read_request (fetch_header topic ++ (fetch_body topic p offset ++ rest))
          ≡ request (fetch_request topic p offset max_bytes) rest)
unfolding produce_header fetch_header
read_request-sent topic message rest p offset ht u hp ho hm =
    let n = length-produce_body topic message p in
    let m = length-fetch_body topic p offset in
    (
      ap (λ k. read_request (frame_header 1 k ++ (produce_body topic p message ++ rest))) (sym n)
          ∙ read_request-frame 1 (produce_body topic p message) rest (omega (arith, n, ht, hm))
          ∙ ap (λ r. or_refused r rest)
              (read_body-produce (produce_body topic p message)
                ∙ read_produce-produce_body topic message p ht u hp (omega (arith, hm))),
      ap (λ k. read_request (frame_header 2 k ++ (fetch_body topic p offset ++ rest))) (sym m)
          ∙ read_request-frame 2 (fetch_body topic p offset) rest (omega (arith, m, ht))
          ∙ ap (λ r. or_refused r rest)
              (read_body-fetch (fetch_body topic p offset)
                ∙ read_fetch_body-fetch_body topic p offset ht u hp ho),
    )
