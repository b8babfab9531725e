-- ===== src/Tests/Offsets.antt =====
-- Tests of Fsm/Offsets.
use aero_mq.Prelude.{
  ◌≡◌, refl, true, codes, List, [], ◌∷◌, ◌++◌, Option, none, some, text_key, nat_key,
}
use aero_mq.Prelude.Int.{ℤ, pos}
use aero_mq.Fsm.Offsets.{is_rune, CommitOffsetPayload, commit_offset, get_offset}
use aero_mq.Fsm.Offsets.{offset_key, rune_text}
use aero_mq.Fsm.Offsets.Book.{ArePlain, commit_of, is_plain, last_committed}
use aero_mq.Fsm.Offsets.Refinement.{replay-last_committed}
use aero_mq.Fsm.Apply.{apply, op_of}
use aero_mq.Fsm.Replay.{replay}
use aero_mq.Fsm.State.{ClusterState, Env}
use aero_mq.Fsm.Commands.{cmd_commit_offset, read_command, read_commit_offset}
use aero_mq.Json.{
  Json, num, str, obj, field, end, read_struct, read_field, read_text, read_uint32, read_int64,
}
use aero_mq.Fsm.Offsets.Store.{get_offset-commit_offset}
use aero_mq.Fsm.Offsets.Collisions.{commit_offset_overwrites, commit_offset-slash}
use aero_mq.Tests.Samples.{cluster, at}

abbrev commit_7 : CommitOffsetPayload
commit_7 = record { group_id = codes "g"; topic = codes "t"; partition = 47; offset = pos 7 }

get_offset-commit_offset_example :
    get_offset (commit_offset commit_7 cluster) (codes "g") (codes "t") 47 ≡ pos 7
unfolding is_rune
get_offset-commit_offset_example =
    get_offset-commit_offset commit_7 cluster (codes "g") (codes "t") 47 refl refl refl refl refl
      refl

commit_offset_overwrites_example :
    get_offset
      (commit_offset
        (record { group_id = codes "g"; topic = codes "t"; partition = 55296; offset = pos 7 })
        cluster)
      (codes "g")
      (codes "t")
      2000000
    ≡ pos 7
unfolding is_rune
commit_offset_overwrites_example =
    commit_offset_overwrites cluster (codes "g") (codes "t") 55296 2000000 (pos 7) refl refl

commit_offset-slash_example :
    get_offset
      (commit_offset
        (record { group_id = codes "a/b"; topic = codes "c"; partition = 0; offset = pos 7 })
        cluster)
      (codes "a")
      (codes "b/c")
      0
    ≡ pos 7
commit_offset-slash_example =
    commit_offset-slash cluster (codes "a") (codes "b") (codes "c") 0 (pos 7)

-- {"op": "commit_offset", "payload": {"group_id": "g", "topic": "t", "partition": 0, "offset": …}}
abbrev commit_entry : ℤ → Json
commit_entry offset = obj (
    field (codes "op") (str cmd_commit_offset) (
      field (codes "payload")
        (obj (
          field (codes "group_id") (str (codes "g")) (
            field (codes "topic") (str (codes "t"))
              (field (codes "partition") (num (pos 0)) (field (codes "offset") (num offset) end)))))
        end))

abbrev commits : List (Env × Option Json)
commits =
    (at 0, some (commit_entry (pos 3))) ∷ (at 1, none) ∷ (at 2, some (commit_entry (pos 9))) ∷ []

abbrev committed : ClusterState
committed = record cluster { offsets = (codes "g/t/" ++ 0 ∷ [], pos 9) ∷ [] }

commits-ArePlain : ArePlain commits
unfolding commit_of is_plain is_rune op_of read_command read_struct read_field read_text
    read_commit_offset read_uint32 read_int64
commits-ArePlain = (refl, (refl, (refl, tt)))

replay-commits : replay commits cluster ≡ some committed
unfolding replay apply read_command read_struct read_field read_text read_commit_offset read_uint32
    read_int64 commit_offset offset_key rune_text
replay-commits = refl

g_t_0-is_plain : is_plain (codes "g") (codes "t") 0 ≡ true
unfolding is_plain is_rune
g_t_0-is_plain = refl

replay-last_committed_example :
    get_offset committed (codes "g") (codes "t") 0
    ≡ last_committed commits
        (codes "g")
        (codes "t")
        0
        (get_offset cluster (codes "g") (codes "t") 0)
replay-last_committed_example =
    replay-last_committed commits cluster committed (codes "g") (codes "t") 0 g_t_0-is_plain
      commits-ArePlain replay-commits

last_committed-commits : last_committed commits (codes "g") (codes "t") 0 (pos 0) ≡ pos 9
unfolding last_committed commit_of op_of read_command read_struct read_field read_text
    read_commit_offset read_uint32 read_int64
last_committed-commits = refl
