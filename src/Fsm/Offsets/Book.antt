-- ===== src/Fsm/Offsets/Book.antt =====
-- What the committed offsets promise: a book that holds, for each group, topic and partition, the
-- value that was committed last, and knows nothing of keys.
use aero_mq.Prelude.{
  ℕ, Bool, true, not, ◌&&◌, Option, none, some, List, [], ◌∷◌, All, Text, text_key, nat_key,
  contains, ◌==◌, if◌then◌else◌, ◌≡◌,
}
use aero_mq.Prelude.Int.{ℤ}
use aero_mq.Json.{Json, ◌>>=◌}
use aero_mq.Fsm.State.{Env}
use aero_mq.Fsm.Commands.{read_command}
use aero_mq.Fsm.Apply.{Op, commit, op_of}
use aero_mq.Fsm.Offsets.{CommitOffsetPayload, is_rune, slash}

abbrev pub commit_in : Op → Option CommitOffsetPayload
commit_in (commit payload) = some payload
commit_in _ = none

-- The commit that an entry of the log asks for, if it asks for one.
unfoldable pub commit_of : Option Json → Option CommitOffsetPayload
commit_of entry = elim (entry >>= read_command) [ none ↦ none | some cmd ↦ commit_in (op_of cmd) ]

-- A group and a topic with no slash, and a partition that is a code point.
unfoldable pub is_plain : Text → Text → ℕ → Bool
is_plain group topic partition =
    not (contains slash group) && (not (contains slash topic) && is_rune partition)

abbrev pub is_plain_commit : Option CommitOffsetPayload → Bool
is_plain_commit none = true
is_plain_commit (some c) = is_plain c.group_id c.topic c.partition

-- Every commit of the log is plain.
abbrev pub ArePlain : List (Env × Option Json) → Type 0
ArePlain log = All (λ e. is_plain_commit (commit_of e.1) ≡ true) log

-- The book's value after a commit.
unfoldable pub note_commit : Option CommitOffsetPayload → Text → Text → ℕ → ℤ → ℤ
note_commit none group topic partition v = v
note_commit (some c) group topic partition v =
    if group == c.group_id && (topic == c.topic && partition == c.partition) then c.offset else v

-- The book's value after a log.
unfoldable pub last_committed : List (Env × Option Json) → Text → Text → ℕ → ℤ → ℤ
unfolding note_commit
last_committed [] group topic partition v = v
last_committed ((_, entry) ∷ rest) group topic partition v =
    last_committed rest group topic partition
      (note_commit (commit_of entry) group topic partition v)
