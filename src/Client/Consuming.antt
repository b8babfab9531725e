-- ===== src/Client/Consuming.antt =====
-- The loop of `handleConsume` ends: each answer takes bytes of the connection.
use mathlib.Core.Path.{subst, sym}
use aero_mq.Prelude.{
  ℕ, zero, suc, ◌+◌, ◌≤◌, ◌<◌, ◌%◌, ◌^◌, ◌≡◌, ◌≢◌, refl, Bool, Option-cases, inl, inr, Option, none,
  some, [], ◌∷◌, length, Text, nat_key, arith,
}
use aero_mq.Client.Frames.{fetch_header, fetch_body}
use aero_mq.Script.{Result-cases, Result, value, failure}
use aero_mq.Client.Exchange.{
  Conn, split_at, read_full, read_payload, read_fetch, send_frame, write, send_fetch, stuck,
  consume, size_of, write_error,
}

split_at-le : (n : ℕ) (s : Text) (r : Text × Text) → split_at n s ≡ some r → length r.1 ≤ length s
unfolding split_at
split_at-le zero s r h = ground (arith, h)
split_at-le (suc n) [] r h = absurd (ground (arith, h))
split_at-le (suc n) (c ∷ s) r h = elim (Option-cases (split_at n s)) [
  | inl e ↦ absurd (ground (arith, e, h))
  | inr (q, e) ↦ ground (arith, e, h, split_at-le n s q e)
]

read_full-le :
    (n : ℕ) (s : Text) (r : Text × Text) → read_full n s ≡ value r → length r.1 ≤ length s
unfolding read_full
read_full-le zero [] r h = ground (arith, h)
read_full-le (suc n) [] r h = absurd (ground (arith, h))
read_full-le n (c ∷ s) r h = elim (Option-cases (split_at n (c ∷ s))) [
  | inl e ↦ absurd (ground (arith, e, h))
  | inr (q, e) ↦ ground (arith, e, h, split_at-le n (c ∷ s) q e)
]

read_payload-le : (s : Text) → length (read_payload s).1 ≤ length s
unfolding read_payload
read_payload-le s = elim (Result-cases (read_full 4 s)) [
  | inl (e, h) ↦ ground (arith, h)
  | inr (r, h) ↦ elim (Result-cases (read_full (size_of r.0) r.1)) [
    | inl (e, k) ↦ ground (arith, h, k)
    | inr (t, k) ↦ ground (arith, h, k, read_full-le 4 s r h, read_full-le (size_of r.0) r.1 t k)
  ]
]

-- An answer takes bytes.
read_fetch-lt :
    (s : Text) {v : Option Text} → (read_fetch s).0 ≡ value v → length (read_fetch s).1 < length s
unfolding read_fetch
read_fetch-lt [] h = absurd (ground (arith, h))
read_fetch-lt (m ∷ []) h = absurd (ground (arith, h))
read_fetch-lt (m ∷ n ∷ []) h = absurd (ground (arith, h))
read_fetch-lt (m ∷ n ∷ status ∷ s) h = ground (arith, h, read_payload-le s)

send_frame-incoming :
    (header body : Text) (c c' : Conn)
    → send_frame header body c ≡ some c'
    → c'.incoming ≡ c.incoming
unfolding send_frame write
send_frame-incoming header body c c' h = ground (arith, h)

-- `send_fetch` from its writes on.
abbrev sent_by : Option Conn → Conn → Result (Option Text) × Conn
sent_by none c = (failure write_error, c)
sent_by (some c') c =
    ((read_fetch c'.incoming).0, record c' { incoming = (read_fetch c'.incoming).1 })

sent_by-lt :
    (o : Option Conn) (c : Conn) {v : Option Text}
    → ((c' : Conn) → o ≡ some c' → c'.incoming ≡ c.incoming)
    → (sent_by o c).0 ≡ value v
    → length (sent_by o c).1.incoming < length c.incoming
sent_by-lt none c same h = absurd (ground (arith, h))
sent_by-lt (some c') c same h =
    subst (λ s. length (read_fetch c'.incoming).1 < length s) (same c' refl)
      (read_fetch-lt c'.incoming h)

send_fetch-sent_by :
    (topic : Text) (partition offset : ℕ) (c : Conn)
    → send_fetch topic partition offset c
      ≡ sent_by (send_frame (fetch_header topic) (fetch_body topic partition offset) c) c
unfolding send_fetch
send_fetch-sent_by topic partition offset c =
    elim (Option-cases (send_frame (fetch_header topic) (fetch_body topic partition offset) c)) [
      | inl e ↦ rw (e, send_fetch)
      | inr (c', e) ↦ rw (e, send_fetch)
    ]

send_fetch-lt :
    (topic : Text) (partition offset : ℕ) (c : Conn) {v : Option Text}
    → (send_fetch topic partition offset c).0 ≡ value v
    → length (send_fetch topic partition offset c).1.incoming < length c.incoming
send_fetch-lt topic partition offset c {v} h =
    let o = send_frame (fetch_header topic) (fetch_body topic partition offset) c in
    let e = send_fetch-sent_by topic partition offset c in
    subst (λ r. length r.1.incoming < length c.incoming) (sym e)
      (sent_by-lt o c
        (λ c' k.
          send_frame-incoming (fetch_header topic) (fetch_body topic partition offset) c c' k)
        (subst (λ r. r.0 ≡ value v) e h))

-- With more fuel than the bytes that the connection still brings, the loop that consumes comes to
-- an end, whether it follows or not: at the end of the data, or with a fatal error.
pub consume-ends :
    (fuel : ℕ) (topic : Text) (partition : ℕ) (follow : Bool) (offset : ℕ) (c : Conn)
    → length c.incoming < fuel
    → (consume fuel topic partition follow offset c).1 ≢ stuck
unfolding consume
consume-ends zero topic partition follow offset c h q = absurd (omega arith)
consume-ends (suc fuel) topic partition follow offset c h q =
    let c' = (send_fetch topic partition offset c).1 in
    elim (Result-cases (send_fetch topic partition offset c).0) [
      | inl (e, k) ↦ absurd (ground (arith, k, q))
      | inr (none, k) ↦
          let less = send_fetch-lt topic partition offset c k in
          absurd
            (ground (arith, k, q, consume-ends fuel topic partition follow offset c' (omega arith)))
      | inr (some bytes, k) ↦
          let less = send_fetch-lt topic partition offset c k in
          absurd (
            ground (
              arith,
              k,
              q,
              consume-ends fuel topic partition follow ((offset + 1) % 2 ^ 64) c' (omega arith),
            ))
    ]
