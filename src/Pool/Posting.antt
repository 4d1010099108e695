-- ===== src/Pool/Posting.antt =====
-- The count of tasks through the steps of `Post`.
use cpp_mpmc_thread_pool.Base.{
  ℕ, true, false, List, suc, ◌+◌, ◌<◌, ◌^◌, ◌≡◌, refl, ap, ◌∙◌, inl, inr, some, [], ◌∷◌, arith,
  length, Bool-cases, length-append,
}
use cpp_mpmc_thread_pool.Ring.Fifo.{length_of_no_room}
use cpp_mpmc_thread_pool.Adapter.{Adapter, capacity}
use cpp_mpmc_thread_pool.Adapter.Spec.{
  View, Becomes, has_room, view_push, view_overwrite, view_overwrite_first,
}
use cpp_mpmc_thread_pool.Adapter.Refine.{try_push_refines, overwrite_push_refines}
use cpp_mpmc_thread_pool.Adapter.Waiting.{
  attempt_push-closed, attempt_push-room, attempt_push-full, List-cases,
}
use cpp_mpmc_thread_pool.Task.{SimpleTask}
use cpp_mpmc_thread_pool.Pool.{
  Item, posted, exit_task, Rest, counts, rejects, discards, displaced, overwriting, Pool, PoolState,
  created, running, paused, shutting_down, force_stopping, stopped, record_task_rejected, block,
  discard, overwrite, QueueFullPolicy,
}
use cpp_mpmc_thread_pool.Pool.Calls.{
  return_step, exit_push_look, check_state, wait_push_look, post_discard, post_overwrite, dispatch,
}
use cpp_mpmc_thread_pool.Pool.Count.{
  Counted, offered_of, landed_of, replaced_of, weigh, weigh_fewer,
}

module _ {p : Pool} {low n k cap : ℕ} (small : n + k + cap < 2 ^ 63) where
  rejected-Counted : Counted p low 1 n k cap → Counted (record_task_rejected p) low 0 n k cap
  rejected-Counted c = record {
    view = c.view;
    models = c.models;
    same_capacity = c.same_capacity;
    active = c.active;
    ended = c.ended;
    accepted = c.accepted;
    offered = omega (arith, c.offered);
    sent = c.sent;
    reached = c.reached;
    tickets = omega (arith, c.tickets, c.offered);
  }

  pub check_state-Counted :
      (t : SimpleTask) (s : PoolState)
      → Counted p low 1 n k cap
      → Counted (check_state p t s) low 0 n k cap
  unfolding check_state
  check_state-Counted t running c = ground (arith, c)
  check_state-Counted t paused c = ground (arith, c)
  check_state-Counted t created c = rejected-Counted c
  check_state-Counted t shutting_down c = rejected-Counted c
  check_state-Counted t force_stopping c = rejected-Counted c
  check_state-Counted t stopped c = rejected-Counted c

  -- The queue has answered a push with what it became; it holds as many more as the rest of the call
  -- says.
  answered-Counted :
      {a : Adapter Item} {w : View Item} (r : Rest) (c : Counted p low 1 n k cap)
      → Becomes p.queue 1 a w
      → offered_of r ≡ 1
      → length w.items + replaced_of r ≡ length c.view.items + landed_of r
      → Counted (record p { queue = a; returning = r ∷ p.returning }) low 0 n k cap
  answered-Counted {a} {w} r c b one more = record {
    view = w;
    models = b.models;
    same_capacity = b.same_capacity ∙ c.same_capacity;
    active = c.active;
    ended = c.ended;
    accepted = omega (arith, c.accepted, more);
    offered = omega (arith, c.offered, one);
    sent = c.sent;
    reached = c.reached;
    tickets = omega (arith, c.tickets, b.tickets, one);
  }

  -- A closed queue has answered, and did not change.
  refused-Counted :
      Counted p low 1 n k cap
      → Counted (record p { returning = rejects ∷ p.returning }) low 0 n k cap
  refused-Counted c = ground (arith, c)

  pub wait_push_look-Counted :
      (t : SimpleTask)
      → Counted p low 1 n k cap
      → (q : Pool) × (wait_push_look p t ≡ some q) × Counted q low 0 n k cap
  unfolding wait_push_look view_push
  wait_push_look-Counted t c =
      let fits : p.queue.queue.producer_pos + 1 + capacity p.queue < 2 ^ 63 =
        omega (arith, c.offered, c.tickets, c.same_capacity) in
      elim (Bool-cases c.view.closed) [
        | inl is_closed ↦
            let h = attempt_push-closed c.models (omega (arith, fits)) (posted t) is_closed in
            (record p { returning = rejects ∷ p.returning }, ground (arith, h), refused-Counted c)
        | inr is_open ↦ elim (Bool-cases (has_room (capacity p.queue) c.view)) [
          | inl room ↦
              let (a, h, b) =
                attempt_push-room c.models (omega (arith, fits)) (posted t) is_open room in
              (
                record p { queue = a; returning = counts 1 ∷ p.returning },
                ground (arith, h),
                answered-Counted (counts 1) c b refl
                    (ground (arith, length-append c.view.items (posted t ∷ []))),
              )
          | inr full_up ↦
              let h = attempt_push-full c.models (omega (arith, fits)) (posted t) is_open full_up in
              (record p { pushing = t ∷ p.pushing }, ground (arith, h), ground (arith, c))
        ]
      ]

  post_discard-Counted :
      (t : SimpleTask)
      → Counted p low 1 n k cap
      → (q : Pool) × (post_discard p t ≡ some q) × Counted q low 0 n k cap
  unfolding post_discard view_push
  post_discard-Counted t c =
      let (a, h, b) =
        try_push_refines c.models (omega (arith, c.offered, c.tickets, c.same_capacity))
          (posted t) in
      elim (Bool-cases c.view.closed) [
        | inl is_closed ↦ (
          record p { queue = a; returning = discards ∷ p.returning },
          ground (arith, h),
          answered-Counted discards c b refl (ground arith),
        )
        | inr is_open ↦ elim (Bool-cases (has_room (capacity p.queue) c.view)) [
          | inl room ↦ (
            record p { queue = a; returning = counts 1 ∷ p.returning },
            ground (arith, h),
            answered-Counted (counts 1) c b refl
                (ground (arith, length-append c.view.items (posted t ∷ []))),
          )
          | inr full_up ↦ (
            record p { queue = a; returning = discards ∷ p.returning },
            ground (arith, h),
            answered-Counted discards c b refl (ground arith),
          )
        ]
      ]

  post_overwrite-Counted :
      (t : SimpleTask)
      → Counted p low 1 n k cap
      → (q : Pool) × (post_overwrite p t ≡ some q) × Counted q low 0 n k cap
  unfolding post_overwrite view_overwrite view_overwrite_first
  post_overwrite-Counted t c =
      let (a, h, b) =
        overwrite_push_refines c.view c.models
          (omega (arith, c.offered, c.tickets, c.same_capacity)) (posted t) in
      elim (Bool-cases c.view.closed) [
        | inl is_closed ↦ (
          record p { queue = a; returning = discards ∷ p.returning },
          ground (arith, h),
          answered-Counted discards c b refl (ground arith),
        )
        | inr is_open ↦ elim (Bool-cases (has_room (capacity p.queue) c.view)) [
          | inl room ↦ (
            record p { queue = a; returning = counts 1 ∷ p.returning },
            ground (arith, h),
            answered-Counted (counts 1) c b refl
                (ground (arith, length-append c.view.items (posted t ∷ []))),
          )
          | inr full_up ↦ elim (List-cases c.view.items) [
            | inl e ↦ absurd (
                omega (
                  arith,
                  length_of_no_room c.models.holds
                      (omega (arith, c.offered, c.tickets, c.same_capacity)) full_up,
                  ap length e,
                  c.models.holds.large,
                ))
            | inr (y, ys, e) ↦ (
              record p { queue = a; returning = displaced true ∷ p.returning },
              ground (arith, h, e),
              answered-Counted (displaced true) c b refl
                  (ground (arith, e, length-append ys (posted t ∷ []))),
            )
          ]
        ]
      ]

  pub dispatch-Counted :
      (t : SimpleTask) (policy : QueueFullPolicy)
      → Counted p low 1 n k cap
      → (q : Pool) × (dispatch p t policy ≡ some q) × Counted q low 0 n k cap
  unfolding dispatch
  dispatch-Counted t block c = wait_push_look-Counted t c
  dispatch-Counted t discard c = post_discard-Counted t c
  dispatch-Counted t overwrite c = post_overwrite-Counted t c

  pub return_step-Counted :
      (r : Rest) (rest : List Rest)
      → Counted p low 0 n k cap
      → weigh offered_of p.returning ≡ offered_of r + weigh offered_of rest
      → weigh landed_of p.returning ≡ landed_of r + weigh landed_of rest
      → weigh replaced_of p.returning ≡ replaced_of r + weigh replaced_of rest
      → Counted (return_step (record p { returning = rest }) r) low 0 n k cap
  unfolding return_step
  return_step-Counted (counts m) rest c o l d = ground (arith, c, o, l, d)
  return_step-Counted rejects rest c o l d = ground (arith, c, o, l, d)
  return_step-Counted discards rest c o l d = ground (arith, c, o, l, d)
  return_step-Counted (displaced true) rest c o l d = ground (arith, c, o, l, d, weigh_fewer rest)
  return_step-Counted (displaced false) rest c o l d = ground (arith, c, o, l, d, weigh_fewer rest)
  return_step-Counted (overwriting true) rest c o l d = ground (arith, c, o, l, d)
  return_step-Counted (overwriting false) rest c o l d = ground (arith, c, o, l, d)

  exit_stored-Counted :
      {a : Adapter Item} {w : View Item} (rest : List ℕ) (c : Counted p low 0 n k cap)
      → length p.exiting ≡ suc (length rest)
      → Becomes p.queue 1 a w
      → length w.items ≡ suc (length c.view.items)
      → Counted (record p { queue = a; exiting = rest }) low 0 n (k + 1) cap
  exit_stored-Counted {a} {w} rest c l b more = record {
    view = w;
    models = b.models;
    same_capacity = b.same_capacity ∙ c.same_capacity;
    active = c.active;
    ended = c.ended;
    accepted = omega (arith, c.accepted, l, more);
    offered = c.offered;
    sent = omega (arith, c.sent);
    reached = c.reached;
    tickets = omega (arith, c.tickets, b.tickets);
  }

  pub exit_push_look-Counted :
      (slot : ℕ) (rest : List ℕ)
      → Counted p low 0 n k cap
      → length p.exiting ≡ suc (length rest)
      → n + k + 1 + cap < 2 ^ 63
      → (q : Pool) × (exit_push_look (record p { exiting = rest }) slot ≡ some q)
        × Counted q low 0 n (k + 1) cap
  unfolding exit_push_look view_push
  exit_push_look-Counted slot rest c l more =
      let fits : p.queue.queue.producer_pos + 1 + capacity p.queue < 2 ^ 63 =
        omega (arith, c.offered, c.tickets, c.same_capacity) in
      elim (Bool-cases c.view.closed) [
        | inl is_closed ↦
            let h = attempt_push-closed c.models (omega (arith, fits)) (exit_task slot) is_closed in
            (
              record p { exiting = rest; exits_gone = suc p.exits_gone },
              ground (arith, h),
              ground (arith, c, l),
            )
        | inr is_open ↦ elim (Bool-cases (has_room (capacity p.queue) c.view)) [
          | inl room ↦
              let (a, h, b) =
                attempt_push-room c.models (omega (arith, fits)) (exit_task slot) is_open room in
              (
                record p { queue = a; exiting = rest },
                ground (arith, h),
                exit_stored-Counted rest c l b
                    (ground (arith, length-append c.view.items (exit_task slot ∷ []))),
              )
          | inr full_up ↦
              let h =
                attempt_push-full c.models (omega (arith, fits)) (exit_task slot) is_open full_up in
              (record p { exiting = slot ∷ rest }, ground (arith, h), ground (arith, c, l))
        ]
      ]
