-- ===== src/Queue/Lanes.antt =====
-- The search queues of src/native.rs as their callers may think of them: one or two lists of commands
-- under common limits, with no counter, no budget and no overflow.
use fulltext.Prelude.{ℕ, ◌+◌, Bool, true, false, List, [], ◌∷◌, ◌++◌, Option, none, some, length}
use fulltext.Error.{Result, ok, err, ◌>>◌}
use fulltext.Queue.{Queued, BoundedQueue, total_bytes}
use fulltext.Queue.Accounts.{admission}
use fulltext.Queue.Expiry.{SearchCommand}
use fulltext.Queue.Expired.{expired, kept}
use fulltext.Queue.Search.{
  SearchQueues, Operation, Outcome, push, take_one, take_all, close_all, shut_down, take_expired,
}

pub record Lane {ℓ} (C : Type ℓ) : Type ℓ where
  pub items : List (Queued (SearchCommand C))
  pub is_closed : Bool

pub record Lanes {ℓ} (C : Type ℓ) : Type ℓ where
  pub ordinary : Lane C
  pub expensive : Option (Lane C)

module _ {ℓ} {C : Type ℓ} where
  abbrev pub lane : BoundedQueue (SearchCommand C) → Lane C
  lane q = record { items = q.state.items; is_closed = q.state.is_closed }

  abbrev lane_of : Option (BoundedQueue (SearchCommand C)) → Option (Lane C)
  lane_of none = none
  lane_of (some q) = some (lane q)

  -- What is forgotten is the accounts.
  abbrev pub lanes : SearchQueues C → Lanes C
  lanes s = record { ordinary = lane s.ordinary; expensive = lane_of s.expensive }

  abbrev pub said : List (Queued (SearchCommand C)) → Result (Unit {0}) → Outcome C
  said items r = record { removed = items; accepted = r }

  unfoldable pub pushed : Queued (SearchCommand C) → Lane C → Result (Unit {0}) → Outcome C × Lane C
  pushed item l (err e) = (said [] (err e), l)
  pushed item l (ok _) = (said [] (ok tt), record l { items = l.items ++ (item ∷ []) })

  unfoldable pub first : List (Queued (SearchCommand C)) → Lane C → Outcome C × Lane C
  first [] l = (said [] (ok tt), l)
  first (item ∷ rest) l = (said (item ∷ []) (ok tt), record l { items = rest })

  -- An operation on a lane, beside another that holds `others` commands of `other_bytes` bytes.
  unfoldable pub lane_apply : ℕ → ℕ → ℕ → ℕ → Operation C → Lane C → Outcome C × Lane C
  unfolding pushed first
  lane_apply max_commands max_bytes others other_bytes (push value bytes admit accepted now) l =
      pushed (record { value = accepted value now; bytes = bytes; enqueued = now }) l
        (admit
          >> admission max_commands max_bytes l.is_closed (length l.items + others)
              (total_bytes l.items + other_bytes + bytes))
  lane_apply max_commands max_bytes others other_bytes take_one l = first l.items l
  lane_apply max_commands max_bytes others other_bytes take_all l =
      (said l.items (ok tt), record l { items = [] })
  lane_apply max_commands max_bytes others other_bytes close_all l =
      (said l.items (ok tt), record { items = []; is_closed = true })
  lane_apply max_commands max_bytes others other_bytes shut_down l =
      (said [] (ok tt), record l { is_closed = true })
  lane_apply max_commands max_bytes others other_bytes (take_expired clock) l =
      (said (expired clock l.items) (ok tt), record l { items = kept clock l.items })

  abbrev pub held : Option (Lane C) → ℕ × ℕ
  held none = (0, 0)
  held (some l) = (length l.items, total_bytes l.items)

  unfoldable pub act_ordinary : ℕ → ℕ → Operation C → Lanes C → Outcome C × Lanes C
  unfolding lane_apply
  act_ordinary max_commands max_bytes op s =
      let (others, other_bytes) = held s.expensive in
      let (outcome, l) = lane_apply max_commands max_bytes others other_bytes op s.ordinary in
      (outcome, record s { ordinary = l })

  unfoldable pub act_expensive :
      ℕ → ℕ → Operation C → Option (Lane C) → Lanes C → Outcome C × Lanes C
  unfolding act_ordinary lane_apply
  act_expensive max_commands max_bytes op none s = act_ordinary max_commands max_bytes op s
  act_expensive max_commands max_bytes op (some l) s =
      let o = s.ordinary in
      let (outcome, next) =
        lane_apply max_commands max_bytes (length o.items) (total_bytes o.items) op l in
      (outcome, record s { expensive = some next })

  -- The commands of either lane count against the limits, and expensive ones without a lane of their
  -- own join the ordinary ones.
  unfoldable pub lanes_act : ℕ → ℕ → Bool → Operation C → Lanes C → Outcome C × Lanes C
  unfolding act_ordinary act_expensive
  lanes_act max_commands max_bytes false op s = act_ordinary max_commands max_bytes op s
  lanes_act max_commands max_bytes true op s = act_expensive max_commands max_bytes op s.expensive s

  unfoldable pub lanes_run :
      ℕ → ℕ → List (Bool × Operation C) → Lanes C → List (Outcome C) × Lanes C
  unfolding lanes_act
  lanes_run max_commands max_bytes [] s = ([], s)
  lanes_run max_commands max_bytes ((is_expensive, op) ∷ ops) s =
      let (outcome, next) = lanes_act max_commands max_bytes is_expensive op s in
      let (outcomes, last) = lanes_run max_commands max_bytes ops next in (outcome ∷ outcomes, last)
