-- ===== src/Download/Scheduler/Counts.antt =====
-- How many tasks run after each part of the scheduler.
use Prim.Native.String.{String}
use gopeed_torbox.Base.{
  ℕ, zero, suc, ◌+◌, ◌-◌, ◌≤◌, ◌≡◌, refl, Bool, false, List, [], ◌∷◌, ◌++◌, if◌then◌else◌, length,
  Bool-cases, inl, inr, arith,
}
use gopeed_torbox.Download.Task.{Status, Task, running, wait, status_eq, put_status, running_count}
use gopeed_torbox.Download.Scheduler.{
  pause_task, do_pause, pause_each, start_task, do_start, start_each, displace, wait_each,
  first_ids, continue_each, is_running_or_done,
}

pub weight : Task → ℕ
weight t = if status_eq t.status running then 1 else 0

pub count-append :
    (ts us : List Task) → running_count (ts ++ us) ≡ running_count ts + running_count us
unfolding running_count
count-append [] us = omega arith
count-append (t ∷ ts) us = omega (arith, count-append ts us)

pub count-put_status :
    (i : String) (s : Status) (ts : List Task)
    → status_eq s running ≡ false
    → running_count (put_status i s ts) ≤ running_count ts
unfolding put_status running_count
count-put_status i s [] h = omega arith
count-put_status i s (t ∷ ts) h = ground (arith, count-put_status i s ts h)

pub count-wait_each :
    (is : List String) (ts : List Task) → running_count (wait_each is ts) ≤ running_count ts
unfolding wait_each
count-wait_each [] ts = omega arith
count-wait_each (i ∷ is) ts =
    omega (arith, count-wait_each is (put_status i wait ts), count-put_status i wait ts refl)

pub count-pause_task : (t : Task) → running_count (pause_task t ∷ []) ≡ 0
unfolding pause_task running_count
count-pause_task t = ground arith

pub count-do_pause :
    (i : String) (ts : List Task) → running_count (do_pause i ts) ≤ running_count ts
unfolding do_pause pause_task running_count
count-do_pause i [] = omega arith
count-do_pause i (t ∷ ts) = ground (arith, count-do_pause i ts)

pub count-pause_each :
    (is : List String) (ts : List Task) → running_count (pause_each is ts) ≤ running_count ts
unfolding pause_each
count-pause_each [] ts = omega arith
count-pause_each (i ∷ is) ts =
    omega (arith, count-pause_each is (do_pause i ts), count-do_pause i ts)

-- Displacing `n` tasks takes `n` running ones away, as far as there are any.
pub count-displace :
    (n : ℕ) (ts : List Task) → running_count (displace n ts).0 ≡ running_count ts - n
unfolding displace running_count
count-displace zero ts = omega arith
count-displace (suc n) [] = omega arith
count-displace (suc n) (t ∷ ts) = elim (Bool-cases (status_eq t.status running)) [
  | inl e ↦ rw (e, displace) (omega (arith, count-displace n ts))
  | inr e ↦ rw (e, displace) (rw e (omega (arith, count-displace (suc n) ts)))
]

pub length-first_ids : (n : ℕ) (is : List String) → length (first_ids n is) ≤ n
unfolding first_ids
length-first_ids zero is = omega arith
length-first_ids (suc n) [] = omega arith
length-first_ids (suc n) (i ∷ is) = omega (arith, length-first_ids n is)

pub continue_each-room : (room : ℕ) (ts : List Task) → length (continue_each room ts).1.0 ≤ room
unfolding continue_each
continue_each-room room [] = omega arith
continue_each-room zero (t ∷ ts) = elim (Bool-cases (is_running_or_done t.status)) [
  | inl e ↦ rw (e, continue_each) (continue_each-room zero ts)
  | inr e ↦ rw (e, continue_each) (continue_each-room zero ts)
]
continue_each-room (suc n) (t ∷ ts) = elim (Bool-cases (is_running_or_done t.status)) [
  | inl e ↦ rw (e, continue_each) (continue_each-room (suc n) ts)
  | inr e ↦ rw (e, continue_each) (omega (arith, continue_each-room n ts))
]

idle_task : (t : Task) → is_running_or_done t.status ≡ false → status_eq t.status running ≡ false
idle_task t h = ground arith

pub continue_each-count :
    (room : ℕ) (ts : List Task) → running_count (continue_each room ts).0 ≡ running_count ts
unfolding continue_each running_count
continue_each-count room [] = refl
continue_each-count zero (t ∷ ts) = elim (Bool-cases (is_running_or_done t.status)) [
  | inl e ↦ rw (e, continue_each) (omega (arith, continue_each-count zero ts))
  | inr e ↦ rw (e, continue_each) (rw (idle_task t e) (omega (arith, continue_each-count zero ts)))
]
continue_each-count (suc n) (t ∷ ts) = elim (Bool-cases (is_running_or_done t.status)) [
  | inl e ↦ rw (e, continue_each) (omega (arith, continue_each-count (suc n) ts))
  | inr e ↦ rw (e, continue_each) (omega (arith, continue_each-count n ts))
]

module _ (restores : String → Bool) where
  count-start_task : (t : Task) → running_count ((start_task restores t).0 ∷ []) ≤ 1
  unfolding start_task running_count
  count-start_task t = ground arith

  pub count-do_start :
      (i : String) (ts : List Task)
      → running_count (do_start restores i ts).0 ≤ running_count ts + 1
  unfolding do_start start_task running_count
  count-do_start i [] = omega arith
  count-do_start i (t ∷ ts) = ground (arith, count-do_start i ts)

  pub count-start_each :
      (is : List String) (ts : List Task)
      → running_count (start_each restores is ts).0 ≤ running_count ts + length is
  unfolding start_each
  count-start_each [] ts = omega arith
  count-start_each (i ∷ is) ts =
      ground (arith, count-start_each is (do_start restores i ts).0, count-do_start i ts)
