-- ===== src/Controller/Joining.antt =====
-- A node that asks to join, and the node that is asked.
use aero_mq.Prelude.{
  Bool-cases, Option-cases, true, none, some, [], Text, codes, text_key, nat_key, ◌==◌, ◌≡◌, ◌≢◌,
  ◌↔◌, inl, inr, refl, ap, ◌∙◌, arith, text_beq_iff, nat_beq_iff,
}
use aero_mq.Script.{value}
use aero_mq.Consensus.{Raft, join_node}
use aero_mq.Controller.{handle_join}
use aero_mq.Controller.Startup.{Flags, Network, joined_cluster, join_url, request_join}

module _ {World : Type 0} (raft : Raft World) where
  -- The node that is asked leads, and its library takes the voter.
  abbrev pub Accepts : Text → Text → World → Type 0
  Accepts id addr w =
      (id ≢ []) × (addr ≢ []) × (raft.is_leader w ≡ true) × ((raft.add_voter id addr w).0 ≡ none)

  handle_join-accepted :
      (id addr : Text) (w : World) → ((handle_join raft id addr w).0.code ≡ 200) ↔ Accepts id addr w
  unfolding handle_join join_node
  handle_join-accepted id addr w = elim (Bool-cases (id == [])) [
    | inl a ↦ ground (arith, a, text_beq_iff id [])
    | inr a ↦ elim (Bool-cases (addr == [])) [
      | inl b ↦ ground (arith, a, b, text_beq_iff addr [])
      | inr b ↦ elim (Bool-cases (raft.is_leader w)) [
        | inr c ↦ ground (arith, a, b, c)
        | inl c ↦ elim (Option-cases (raft.add_voter id addr w).0) [
          | inl d ↦ ground (arith, a, b, c, d, text_beq_iff id [], text_beq_iff addr [])
          | inr (e, d) ↦ ground (arith, a, b, c, d)
        ]
      ]
    ]
  ]

  -- A node with an address to join sends its request, which reaches the asked node's handler: what
  -- `query` reads as the parameters of its URL are its id and its Raft address. The node logs that it
  -- has joined exactly where neither of the two is empty, the asked node leads, and the asked node's
  -- library adds it as a voter.
  pub request_join-joined :
      (net : Network World) (query : Text → Text → Text) (flags : Flags) (w : World)
      → flags.join_addr ≢ []
      → (let url = join_url flags.join_addr flags.node_id flags.raft_addr in
          let v = net.sleep 1000 w in
          let asked = handle_join raft (query url (codes "id")) (query url (codes "addr")) v in
          net.get url v ≡ (value asked.0, asked.1))
      → query (join_url flags.join_addr flags.node_id flags.raft_addr) (codes "id") ≡ flags.node_id
      → query (join_url flags.join_addr flags.node_id flags.raft_addr) (codes "addr")
        ≡ flags.raft_addr
      → ((request_join net flags w).0 ≡ some joined_cluster)
        ↔ Accepts flags.node_id flags.raft_addr (net.sleep 1000 w)
  unfolding request_join
  request_join-joined net query flags w given routed id_read addr_read =
      let v = net.sleep 1000 w in
      let url = join_url flags.join_addr flags.node_id flags.raft_addr in
      let to_join = handle_join-accepted flags.node_id flags.raft_addr v in
      let reply = (handle_join raft flags.node_id flags.raft_addr v).0 in
      let answer : (net.get url v).0 ≡ value reply =
        ap (λ t. t.0) routed
        ∙ ap (λ x. value (handle_join raft x (query url (codes "addr")) v).0) id_read
        ∙ ap (λ x. value (handle_join raft flags.node_id x v).0) addr_read in
      elim (Bool-cases (flags.join_addr == [])) [
        | inl a ↦ absurd (given ((text_beq_iff flags.join_addr []).0 a))
        | inr a ↦ elim (Bool-cases (reply.code == 200)) [
          | inl b ↦ (
            λ h. to_join.0 ((nat_beq_iff reply.code 200).0 b),
            λ h. rw (a, answer, b, request_join) refl,
          )
          | inr b ↦ (
            λ h. absurd (ground (arith, a, answer, b, h)),
            λ h. absurd (ground (arith, b, nat_beq_iff reply.code 200, to_join.1 h)),
          )
        ]
      ]
