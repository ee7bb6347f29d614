-- ===== src/Queue/Refines.antt =====
-- Each operation on a search queue of src/native.rs does what the operation on its lane does, and
-- keeps the accounts.
use fulltext.Prelude.{
  ℕ, ◌+◌, ◌≤◌, ◌<◌, ◌≡◌, refl, sym, ap, subst, arith, Bool, List, [], ◌∷◌, ◌++◌, Option, none, some,
  length, usize_max,
}
use fulltext.Error.{Result, ok, err}
use fulltext.Queue.{
  Queued, QueueView, total_bytes, try_push_tracked, finish_push, push_back, try_pop, take_item,
  drain, close, mark_closed, shutdown_after_drain,
}
use fulltext.Queue.Accounts.{
  IsView, admission, reserved, reserve_shared-admission, push_back-Views, remove-IsView,
  drain-Views,
}
use fulltext.Queue.Expiry.{SearchCommand}
use fulltext.Queue.Expired.{
  expired, kept, inspect_and_take_expired_lem, length-expired, total_bytes-expired,
}
use fulltext.Queue.Search.{
  Operation, Outcome, push, take_one, take_all, close_all, shut_down, take_expired, removed_one,
  apply,
}
use fulltext.Queue.Lanes.{Lane, lane, lane_apply, pushed, first, said}

admission-Fits :
    (max_commands max_bytes : ℕ) (is_closed : Bool) (commands bytes : ℕ) {u : Unit {0}}
    → admission max_commands max_bytes is_closed commands bytes ≡ ok u
    → (commands < max_commands) × (bytes ≤ max_bytes)
admission-Fits max_commands max_bytes is_closed commands bytes e = ground arith

module _ {ℓ} {C : Type ℓ} (max_commands max_bytes : ℕ) (commands_fit : max_commands ≤ usize_max)
    (bytes_fit : max_bytes < usize_max) (is_shared : Bool) (others other_bytes : ℕ) where
  abbrev pub Kept : QueueView (SearchCommand C) → Type 0
  Kept v = IsView is_shared max_commands max_bytes others other_bytes v.queue v.shared_budget

  -- The same outcome, the same lane, and accounts that hold again.
  abbrev pub Agrees : Outcome C × QueueView (SearchCommand C) → Outcome C × Lane C → Type ℓ
  Agrees r s = (r.0 ≡ s.0) × (lane r.1.queue ≡ s.1) × Kept r.1

  mark_closed-Kept :
      (v : QueueView (SearchCommand C)) → Kept v → Kept (record v { queue = mark_closed v.queue })
  unfolding mark_closed
  mark_closed-Kept v h =
      let kept_counts = h.counted in
      record {
        counted = record {
          commands = kept_counts.commands;
          bytes = kept_counts.bytes;
          state_bytes = kept_counts.state_bytes;
          max_commands_kept = kept_counts.max_commands_kept;
          max_bytes_kept = kept_counts.max_bytes_kept;
        };
        shared = h.shared;
        few = h.few;
        small = h.small;
      }

  first-Agrees :
      (v : QueueView (SearchCommand C)) (items : List (Queued (SearchCommand C)))
      → v.queue.state.items ≡ items
      → Kept v
      → Agrees (removed_one (try_pop v).0, (try_pop v).1) (first items (lane v.queue))
  unfolding removed_one first take_item
  first-Agrees v [] e h =
      let p : try_pop v ≡ (none, v) = unfold try_pop in rw e refl in
      subst
        (λ (r : Option (Queued (SearchCommand C)) × QueueView (SearchCommand C)).
          Agrees (removed_one r.0, r.1) (first [] (lane v.queue)))
        (sym p) (refl, refl, h)
  first-Agrees v (item ∷ items) e h =
      let p : try_pop v ≡ (some item, take_item item items v) = unfold try_pop in rw e refl in
      let e₁ = ap (λ (l : List (Queued (SearchCommand C))). length l) e in
      let e₂ = ap (λ (l : List (Queued (SearchCommand C))). total_bytes l) e in
      subst
        (λ (r : Option (Queued (SearchCommand C)) × QueueView (SearchCommand C)).
          Agrees (removed_one r.0, r.1) (first (item ∷ items) (lane v.queue)))
        (sym p)
        (
          refl,
          refl,
          remove-IsView max_commands max_bytes commands_fit bytes_fit is_shared others other_bytes 1
              item.bytes items v.queue v.shared_budget h (omega arith)
              (unfold total_bytes in omega arith),
        )

  pushed-Agrees :
      (value : SearchCommand C) (bytes : ℕ) (accepted : SearchCommand C → ℕ → SearchCommand C)
      (now : ℕ) (v : QueueView (SearchCommand C)) (r : Result (Unit {0}))
      → admission max_commands max_bytes v.queue.state.is_closed
          (length v.queue.state.items + others)
          (total_bytes v.queue.state.items + other_bytes + bytes)
        ≡ r
      → Kept v
      → Agrees
          (
            said [] (try_push_tracked value bytes (ok tt) accepted now v).0,
            (try_push_tracked value bytes (ok tt) accepted now v).1,
          )
          (pushed
            (record { value = accepted value now; bytes = bytes; enqueued = now })
            (lane v.queue)
            r)
  unfolding pushed
  pushed-Agrees value bytes accepted now v (err f) e h =
      let q =
        reserve_shared-admission max_commands max_bytes commands_fit bytes_fit is_shared others
          other_bytes v.queue v.shared_budget bytes h.counted h.shared in
      let p : try_push_tracked value bytes (ok tt) accepted now v ≡ (err f, v) =
        unfold try_push_tracked finish_push in rw (q, e) refl in
      subst
        (λ (s : Result (Unit {0}) × QueueView (SearchCommand C)).
          Agrees (said [] s.0, s.1) (said [] (err f), lane v.queue))
        (sym p) (refl, refl, h)
  pushed-Agrees value bytes accepted now v (ok u) e h =
      let q =
        reserve_shared-admission max_commands max_bytes commands_fit bytes_fit is_shared others
          other_bytes v.queue v.shared_budget bytes h.counted h.shared in
      let after =
        push_back (accepted value now) bytes now
          (record v { shared_budget = reserved v.shared_budget bytes }) in
      let p : try_push_tracked value bytes (ok tt) accepted now v ≡ (ok tt, after) =
        unfold try_push_tracked finish_push in rw (q, e) refl in
      let f =
        admission-Fits max_commands max_bytes v.queue.state.is_closed
          (length v.queue.state.items + others)
          (total_bytes v.queue.state.items + other_bytes + bytes) e in
      subst
        (λ (s : Result (Unit {0}) × QueueView (SearchCommand C)).
          Agrees (said [] s.0, s.1)
            (
              said [] (ok tt),
              record {
                items =
                    v.queue.state.items
                    ++ (record { value = accepted value now; bytes = bytes; enqueued = now } ∷ []);
                is_closed = v.queue.state.is_closed;
              },
            ))
        (sym p)
        (
          refl,
          unfold push_back in refl,
          push_back-Views max_commands max_bytes commands_fit bytes_fit is_shared others other_bytes
              (accepted value now) bytes now v h f.0 f.1,
        )

  push-Agrees :
      (value : SearchCommand C) (bytes : ℕ) (admit : Result (Unit {0}))
      (accepted : SearchCommand C → ℕ → SearchCommand C) (now : ℕ) (v : QueueView (SearchCommand C))
      → Kept v
      → Agrees (apply (push value bytes admit accepted now) v) (
          lane_apply max_commands max_bytes others other_bytes
            (push value bytes admit accepted now)
            (lane v.queue))
  unfolding apply lane_apply try_push_tracked finish_push pushed
  push-Agrees value bytes (err e) accepted now v h = (refl, refl, h)
  push-Agrees value bytes (ok tt) accepted now v h =
      pushed-Agrees value bytes accepted now v
        (admission max_commands max_bytes v.queue.state.is_closed
          (length v.queue.state.items + others)
          (total_bytes v.queue.state.items + other_bytes + bytes))
        refl h

  pub apply-lane_apply :
      (op : Operation C) (v : QueueView (SearchCommand C))
      → Kept v
      → Agrees (apply op v) (lane_apply max_commands max_bytes others other_bytes op (lane v.queue))
  unfolding apply lane_apply close shutdown_after_drain drain
  apply-lane_apply (push value bytes admit accepted now) v h =
      push-Agrees value bytes admit accepted now v h
  apply-lane_apply take_one v h = first-Agrees v v.queue.state.items refl h
  apply-lane_apply take_all v h = (
    refl,
    refl,
    drain-Views max_commands max_bytes commands_fit bytes_fit is_shared others other_bytes v h,
  )
  apply-lane_apply close_all v h = (
    refl,
    refl,
    drain-Views max_commands max_bytes commands_fit bytes_fit is_shared others other_bytes
        (record v { queue = mark_closed v.queue }) (mark_closed-Kept v h),
  )
  apply-lane_apply shut_down v h = (refl, refl, mark_closed-Kept v h)
  apply-lane_apply (take_expired clock) v h =
      let items = v.queue.state.items in
      let gone = expired clock items in
      let s = h.small in
      let e = inspect_and_take_expired_lem clock v (omega arith) in
      subst
        (λ (r : List (Queued (SearchCommand C)) × Option ℕ × QueueView (SearchCommand C)).
          Agrees (said r.0 (ok tt), r.2)
            (
              said gone (ok tt),
              record { items = kept clock items; is_closed = v.queue.state.is_closed },
            ))
        (sym e)
        (
          refl,
          refl,
          remove-IsView max_commands max_bytes commands_fit bytes_fit is_shared others other_bytes
              (length gone) (total_bytes gone) (kept clock items) v.queue v.shared_budget h
              (length-expired clock items) (total_bytes-expired clock items),
        )
