-- ===== src/Tests/Client.antt =====
-- Tests of Client.
use aero_mq.Prelude.{◌≡◌, ◌≢◌, refl, false, [], ◌∷◌, ◌++◌, codes, arith}
use aero_mq.Client.Frames.{be32, magic_0, magic_1, frame_header, produce_header, produce_body}
use aero_mq.Client.Exchange.{
  Conn, finished, stuck, consume, send_fetch, send_frame, write, read_fetch, read_payload,
  read_full, split_at,
}
use aero_mq.Client.Consuming.{consume-ends}

-- A broker that has one record, "hi", and then no data.
abbrev one_record : Conn
one_record = record {
  incoming = magic_0 ∷ magic_1 ∷ 2 ∷ be32 2 ++ (codes "hi" ++ (magic_0 ∷ magic_1 ∷ 1 ∷ []));
  written = [];
  room = 10;
}

consumed : consume 20 (codes "t") 0 false 5 one_record ≡ ((5, codes "hi") ∷ [], finished)
unfolding consume send_fetch send_frame write read_fetch read_payload read_full split_at
consumed = refl

consume-ends_example : (consume 20 (codes "t") 0 false 5 one_record).1 ≢ stuck
consume-ends_example = consume-ends 20 (codes "t") 0 false 5 one_record (omega arith)

produced :
    produce_body (codes "t") 1 (codes "hi")
    ≡ 0 ∷ 1 ∷ 116 ∷ 0 ∷ 0 ∷ 0 ∷ 1 ∷ 0 ∷ 0 ∷ 0 ∷ 2 ∷ codes "hi"
unfolding produce_body
produced = refl

headed : produce_header (codes "t") (codes "hi") ≡ 174 ∷ 1 ∷ 1 ∷ 0 ∷ 0 ∷ 0 ∷ 13 ∷ []
unfolding produce_header frame_header
headed = refl
