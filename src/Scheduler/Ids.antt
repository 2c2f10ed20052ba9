-- ===== src/Scheduler/Ids.antt =====
-- The identifiers that addEvent generates (source/scheduler.cpp, addEvent).
use othire.Base.{
  ℕ, zero, suc, ◌+◌, ◌%◌, ◌≤◌, ◌<◌, ◌≡◌, refl, List, [], ◌∷◌, true, some, arith, ◌≢◌, get_elem?, ap,
  ◌∙◌,
}
use othire.Scheduler.{Scheduler, SchedulerTask, add_event, generate_id, last_id, is_running}

-- addEvent for each of the tasks in turn: the identifiers returned, and the state after.
abbrev pub add_events : List SchedulerTask → Scheduler → List ℕ × Scheduler
add_events [] s = ([], s)
add_events (t ∷ ts) s =
    let r = add_event t s in let rest = add_events ts r.1 in (r.0 ∷ rest.0, rest.1)

-- Tasks that have no identifier yet, as createSchedulerTask gives them.
abbrev pub AreNew : List SchedulerTask → Type 0
AreNew [] = Unit {0}
AreNew (t ∷ ts) = (t.event_id ≡ 0) × AreNew ts

generate_id-new :
    (last : ℕ) → last ≤ last_id → generate_id last 0 ≡ (last % last_id + 1, last % last_id + 1)
unfolding generate_id
generate_id-new last h = ground arith

mod_step : (last i : ℕ) → ((last % last_id + 1) + i) % last_id ≡ (last + suc i) % last_id
mod_step last i = omega arith

add_event-new :
    (t : SchedulerTask) (s : Scheduler)
    → t.event_id ≡ 0
    → s.last_event_id ≤ last_id
    → is_running s.thread_state ≡ true
    → ((add_event t s).0 ≡ s.last_event_id % last_id + 1)
      × ((add_event t s).1.last_event_id ≡ s.last_event_id % last_id + 1)
      × ((add_event t s).1.thread_state ≡ s.thread_state)
unfolding add_event
add_event-new t s e h k =
    let g = generate_id-new s.last_event_id h in
    let p : generate_id s.last_event_id t.event_id
        ≡ (s.last_event_id % last_id + 1, s.last_event_id % last_id + 1) =
      rw e g in
    rw k (ap (λ x. x.0) p, ap (λ x. x.1) p, refl)

-- On a running scheduler, the events of a list added one after the other, all new, get the
-- identifiers that follow m_lastEventId in the cycle from 1 to 0xFFFFFFFF.
pub add_events-cycle :
    (ts : List SchedulerTask) (s : Scheduler) (i id : ℕ)
    → AreNew ts
    → s.last_event_id ≤ last_id
    → is_running s.thread_state ≡ true
    → get_elem? (add_events ts s).0 i ≡ some id
    → id ≡ (s.last_event_id + i) % last_id + 1
add_events-cycle [] s i id n h k g = cc
add_events-cycle (t ∷ ts) s zero id (e, n) h k g =
    let a = add_event-new t s e h k in ground (arith, a, g)
add_events-cycle (t ∷ ts) s (suc i) id (e, n) h k g =
    let (a, b, c) = add_event-new t s e h k in
    let r = add_events-cycle ts (add_event t s).1 i id n (omega (arith, b)) (rw c k) g in
    let m = mod_step s.last_event_id i in r ∙ ap (λ x. x + 1) (ap (λ x. (x + i) % last_id) b ∙ m)

-- On a running scheduler, new events added one after the other, fewer than 0xFFFFFFFF of them, get
-- identifiers that are not 0 and differ from each other.
pub add_events-distinct :
    (ts : List SchedulerTask) (s : Scheduler) (i j id : ℕ)
    → AreNew ts
    → s.last_event_id ≤ last_id
    → is_running s.thread_state ≡ true
    → i < j
    → j < i + last_id
    → get_elem? (add_events ts s).0 i ≡ some id
    → (id ≢ 0) × (get_elem? (add_events ts s).0 j ≢ some id)
add_events-distinct ts s i j id n h k lt far g =
    let a = add_events-cycle ts s i id n h k g in
    (
      (λ z. omega (arith, a, z)),
      (λ q. let b = add_events-cycle ts s j id n h k q in omega (arith, a, b, lt, far)),
    )
