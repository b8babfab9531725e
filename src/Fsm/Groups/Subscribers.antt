-- ===== src/Fsm/Groups/Subscribers.antt =====
-- What `rebalanceGroup` collects in `topicToMembers`.
use aero_mq.Prelude.{
  zero, suc, ℕ, ◌≡◌, refl, ◌∙◌, Bool, false, ◌&&◌, ◌||◌, List, [], ◌∷◌, ◌++◌, Text, text_key,
  text_beq_iff, contains, contains-append, Distinct, arith, ◌==◌, suc,
}
use aero_mq.Prelude.Map.{Map, keys, lookup-insert, insert-Distinct}
use aero_mq.Prelude.Range.{Order, place, arrange}
use aero_mq.Fsm.State.{GroupMember}
use aero_mq.Fsm.Groups.{slice, push, subscribe, subscribers, arrange}

contains-push :
    (t k a b : Text) (m : Map Text (List Text))
    → contains a (slice t (push k b m)) ≡ (contains a (slice t m) || (t == k && a == b))
contains-push t k a b m = ground (
  arith,
  lookup-insert k t (slice k m ++ b ∷ []) m,
  contains-append a (slice k m) (b ∷ []),
  text_beq_iff t k,
)

-- Some entry of `members` has the id `a` and lists the topic `t`.
abbrev pub subscribed : Map Text GroupMember → Text → Text → Bool
subscribed [] t a = false
subscribed ((id, member) ∷ rest) t a = (a == id && contains t member.topics) || subscribed rest t a

contains-subscribe :
    (t a id : Text) (topics : List Text) (m : Map Text (List Text))
    → contains a (slice t (subscribe id topics m))
      ≡ (contains a (slice t m) || (a == id && contains t topics))
unfolding subscribe
contains-subscribe t a id [] m = ground arith
contains-subscribe t a id (x ∷ xs) m =
    ground (arith, contains-subscribe t a id xs (push x id m), contains-push t x a id m)

contains-subscribers :
    (t a : Text) (members : Map Text GroupMember) (m : Map Text (List Text))
    → contains a (slice t (subscribers members m))
      ≡ (contains a (slice t m) || subscribed members t a)
unfolding subscribers
contains-subscribers t a [] m = ground arith
contains-subscribers t a ((id, member) ∷ rest) m = ground (
  arith,
  contains-subscribers t a rest (subscribe id member.topics m),
  contains-subscribe t a id member.topics m,
)

subscribed-place :
    (t a : Text) (n : ℕ) (e : Text × GroupMember) (m : Map Text GroupMember)
    → subscribed (place n e m) t a ≡ ((a == e.0 && contains t e.1.topics) || subscribed m t a)
unfolding place
subscribed-place t a zero e m = refl
subscribed-place t a (suc n) e [] = refl
subscribed-place t a (suc n) e (x ∷ m) = ground (arith, subscribed-place t a n e m)

subscribed-arrange :
    (t a : Text) (o : Order) (m : Map Text GroupMember)
    → subscribed (arrange o m) t a ≡ subscribed m t a
unfolding arrange
subscribed-arrange t a [] m = refl
subscribed-arrange t a (n ∷ ns) [] = refl
subscribed-arrange t a (n ∷ ns) (e ∷ m) =
    ground (arith, subscribed-place t a n e (arrange ns m), subscribed-arrange t a ns m)

-- The list of a topic holds exactly the members that subscribe to it, in whatever order the members
-- are visited.
pub contains-subscribers_arranged :
    (t a : Text) (o : Order) (members : Map Text GroupMember)
    → contains a (slice t (subscribers (arrange o members) [])) ≡ subscribed members t a
contains-subscribers_arranged t a o members =
    contains-subscribers t a (arrange o members) [] ∙ subscribed-arrange t a o members

subscribe-Distinct :
    (id : Text) (topics : List Text) (m : Map Text (List Text))
    → Distinct (keys m)
    → Distinct (keys (subscribe id topics m))
unfolding subscribe
subscribe-Distinct id [] m d = d
subscribe-Distinct id (x ∷ xs) m d =
    subscribe-Distinct id xs (push x id m) (insert-Distinct x (slice x m ++ id ∷ []) m d)

pub subscribers-Distinct :
    (members : Map Text GroupMember) (m : Map Text (List Text))
    → Distinct (keys m)
    → Distinct (keys (subscribers members m))
unfolding subscribers
subscribers-Distinct [] m d = d
subscribers-Distinct ((id, member) ∷ rest) m d =
    subscribers-Distinct rest (subscribe id member.topics m)
      (subscribe-Distinct id member.topics m d)
