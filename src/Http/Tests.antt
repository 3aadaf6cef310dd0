-- ===== src/Http/Tests.antt =====
-- Examples for the HTTP fetcher: one download from its start to its end, and small inputs.
mod Cases
mod Names
mod Requests
use gopeed_torbox.Base.{
  ℕ, zero, suc, ◌+◌, ◌-◌, ◌*◌, ◌/◌, ◌≤◌, ◌<◌, ◌≡◌, ◌≢◌, refl, ap, subst, ◌⊎◌, inl, inr, Bool, true,
  false, not, ◌&&◌, ◌||◌, Option, none, some, List, [], ◌∷◌, arith, get_elem?, set, ltb, leb, ◌==◌,
  if◌then◌else◌,
}
use gopeed_torbox.Http.Chunk.{
  is_failed, Connection, Chunk, Reservation, canceled, request_error, other, primary, worker,
  completed, failed, done, slow_start, resolving, resolved, error, remain, reserve, commit,
  write_at, new_chunk, new_connection,
}
use gopeed_torbox.Http.Steal.{choose, better, steal, steal_score, help_other_connection}
use gopeed_torbox.Http.Steal.Victim.{help-Longest, help-none}
use gopeed_torbox.Http.Finish.{
  check_completion, on_download_complete, state_after, final_error, download_complete,
  total_downloaded, is_forbidden_failure,
}
use gopeed_torbox.Http.Transfer.{
  World, Local, Step, Reach, here, next, open_body, receive, write, account, end_of_body, finish,
  resting, streaming, reserved, written, chunk_done, stopped, request, complete, update,
  after_commit, buffer_size,
}
use gopeed_torbox.Http.Transfer.Invariant.{Good, Inv}
use gopeed_torbox.Http.Transfer.Start.{first_world, first-Inv}
use gopeed_torbox.Http.Transfer.Steps.{Reach-Inv}
use gopeed_torbox.Http.Resume.{resumed, resumed-Inv}
use gopeed_torbox.Http.Finish.Ended.{stopped-check_completion, unfailed-done}
use gopeed_torbox.Http.Finish.Complete.{done-Good, total_downloaded-le}

-- The file on the server, whose byte at `x` is `x`, and the empty file.
abbrev server : ℕ → ℕ
server x = x

abbrev empty_file : ℕ → Option ℕ
empty_file x = none

-- A file of three bytes, fetched by one connection with one read.
start_world : World
start_world = first_world 0 3 empty_file

abbrev first : Connection
unfolding new_connection new_chunk
first = new_connection primary (new_chunk 0 2) 0

abbrev kept_bytes : Reservation
kept_bytes = record { count = 3; offset = 0; finished = false }

abbrev requested : World
unfolding request update
requested = record {
  conns = request first ∷ [];
  locals = update (λ _. resting) 0 (streaming 0 2);
  file = empty_file;
}

abbrev read_world : World
unfolding update
read_world = record requested { locals = update requested.locals 0 (reserved kept_bytes 0 2) }

abbrev written_world : World
unfolding update write_at
written_world = record read_world {
  locals = update read_world.locals 0 (written kept_bytes 0 2);
  file = write_at empty_file (λ k. server (0 + k)) 3 0;
}

abbrev counted_world : World
unfolding commit update after_commit
counted_world = record written_world {
  conns = commit (request first) 3 100 ∷ [];
  locals = update written_world.locals 0 (after_commit false (0 + 3) 2);
}

abbrev ended_world : World
unfolding update
ended_world = record counted_world { locals = update counted_world.locals 0 chunk_done }

abbrev last : Connection
unfolding complete commit request new_connection new_chunk
last = complete (commit (request first) 3 100)

abbrev final_world : World
unfolding complete update
final_world = record ended_world { conns = last ∷ []; locals = update ended_world.locals 0 stopped }

download : Reach server start_world final_world
unfolding start_world first_world new_connection new_chunk request update remain reserve write_at
    commit after_commit complete help_other_connection choose better steal_score
download =
    next
      (next
        (next
          (next
            (next (next here (open_body 0 first refl refl (omega arith))) (
              receive 0 3 0 2 (request first) kept_bytes refl refl (omega arith) (omega arith)
                refl))
            (write 0 0 2 kept_bytes refl))
          (account 0 0 2 100 (request first) kept_bytes refl refl))
        (end_of_body 0 3 2 refl (omega arith)))
      (finish 0 (commit (request first) 3 100) refl refl refl)

start_world-Inv : Inv server 3 start_world
unfolding start_world first_world
start_world-Inv = first-Inv server 3 0 empty_file (omega arith) (λ x h. absurd (omega (arith, h)))

last_not_forbidden : is_forbidden_failure last ≡ false
unfolding is_forbidden_failure last complete
last_not_forbidden = refl

all_stopped :
    (i : ℕ) (c : Connection)
    → get_elem? (last ∷ []) i ≡ some c
    → (final_world.locals i ≡ stopped) × (is_forbidden_failure c ≡ false)
unfolding final_world update
all_stopped zero c e =
    let same : last ≡ c = cc in
    (refl, subst (λ d. is_forbidden_failure d ≡ false) same last_not_forbidden)
all_stopped (suc i) c e = cc

reported_done : (on_download_complete 3 (last ∷ [])).0 ≡ done
unfolding on_download_complete state_after final_error download_complete total_downloaded last
    complete commit request first new_connection
reported_done = refl

done-Good_example : Good server 3 final_world.file 2
unfolding final_world
done-Good_example =
    done-Good server 3 start_world final_world start_world-Inv download all_stopped reported_done 2
      (omega arith)

first-Inv_example : Inv server 3 (first_world 0 3 empty_file)
first-Inv_example = first-Inv server 3 0 empty_file (omega arith) (λ x h. absurd (omega (arith, h)))

Reach-Inv_example : Inv server 3 final_world
Reach-Inv_example = Reach-Inv server 3 download start_world-Inv

resumed-Inv_example : Inv server 3 (resumed final_world)
resumed-Inv_example = resumed-Inv server 3 final_world (Reach-Inv server 3 download start_world-Inv)

each_stopped :
    (i : ℕ) (c : Connection)
    → get_elem? final_world.conns i ≡ some c
    → final_world.locals i ≡ stopped
unfolding final_world
each_stopped i c g = (all_stopped i c g).0

none_failed :
    (i : ℕ) (c : Connection) → get_elem? (last ∷ []) i ≡ some c → is_failed c.state ≡ false
unfolding complete last
none_failed zero c e =
    let same : last ≡ c = cc in subst (λ (d : Connection). is_failed d.state ≡ false) same refl
none_failed (suc i) c e = cc
