-- ===== src/Tests/Served.antt =====
-- HTTP-server-cpp: socket 0 listens; client 1 is accepted, handed to the one thread, and answered.
use high_load_systems.Common.{
  ℕ, ◌+◌, ◌≤◌, ◌⊎◌, ◌≡◌, ◌≢◌, refl, Bool, true, List, [], ◌∷◌, Option, none, some, pos, arith,
  Bytes, codes, count, All, Option-some_inj,
}
use high_load_systems.HttpServer.Cache.{get, cleanup}
use high_load_systems.HttpServer.Server.Events.{Round, visit_fd}
use high_load_systems.HttpServer.ThreadPool.{run_thread, thread_step}
use high_load_systems.HttpServer.System.{
  System, new_system, select_returns, loop_step, visit_next, take_job, read_request, finish_request,
  SystemRun, selects, loops, takes, reads, finishes, no_step, then_step,
}
use high_load_systems.HttpServer.System.Owners.{owned}
use high_load_systems.HttpServer.System.Owned.{watched}
use high_load_systems.HttpServer.System.Closing.{accepted-owned}
use high_load_systems.HttpServer.System.Work.{work_left}
use high_load_systems.HttpServer.System.Settling.{
  WorkRun, no_work_done, works_then, CanWork, work_left-watched,
}
use high_load_systems.HttpServer.System.Working.{IsExpected}
use high_load_systems.HttpServer.System.Replies.{replies-IsExpected}
use high_load_systems.Tests.Select.{tables, tables-IsFdSets}

abbrev no_json : Bytes → Option (List (Bytes × Bytes))
no_json body = none

tables_hold : (i : ℕ) (s : ℕ → Bool) → tables.fd_isset i (tables.fd_set i s) ≡ true
tables_hold i s = ground arith

abbrev arrives : Round tables
arrives = record {
  activity = pos 1;
  read_set = tables.fd_set 0 tables.fd_zero;
  accept_answer = some 1;
  now = 0;
}

abbrev sends : Round tables
sends = record {
  activity = pos 1;
  read_set = tables.fd_clr 0 (tables.fd_set 1 (tables.fd_set 0 tables.fd_zero));
  accept_answer = none;
  now = 1;
}

abbrev s0 : System tables
s0 = new_system tables 0 1

abbrev s1 : System tables
s1 = select_returns tables arrives s0

abbrev s2 : System tables
s2 = loop_step tables 0 arrives 0 s1

abbrev s3 : System tables
s3 = loop_step tables 0 arrives 1 s2

abbrev s4 : System tables
s4 = loop_step tables 0 arrives 2 s3

abbrev s5 : System tables
s5 = select_returns tables sends s4

abbrev s6 : System tables
s6 = loop_step tables 0 sends 0 s5

abbrev s7 : System tables
s7 = loop_step tables 0 sends 1 s6

abbrev s8 : System tables
s8 = take_job tables 0 s7

abbrev request : Bytes
request = codes "GET /a HTTP/1.1"

abbrev s9 : System tables
s9 = read_request tables no_json 0 1 5 request s8

abbrev s10 : System tables
s10 = finish_request tables 0 1 6 request (codes "/a") (codes "Not Founded") s9

is_free : {n : ℕ} → n ≡ 0 → (c : ℕ) → some 1 ≡ some c → (c ≢ 0) × (count c [] ≡ count c [])
is_free own c e = let same = Option-some_inj e in (λ z. omega arith, refl)

no_answer : {n : ℕ} → n ≡ 0 → (c : ℕ) → none ≡ some c → (c ≢ 0) × (count c (1 ∷ []) ≡ count c [])
no_answer own c e = cc

sent_part : (k : ℕ) → sends.read_set k ≡ true → s4.loop.master_set k ≡ true
unfolding loop_step visit_next visit_fd
sent_part k h = ground arith

accepting : SystemRun tables 0 no_json s0 s5
unfolding loop_step visit_next visit_fd
accepting =
    then_step s0 s4 s5
      (then_step s0 s3 s4
        (then_step s0 s2 s3
          (then_step s0 s1 s2 (then_step s0 s0 s1 (no_step s0) (selects s0 arrives refl (λ k h. h)))
            (loops s1 arrives 0 refl is_free))
          (loops s2 arrives 1 refl (λ one. omega arith)))
        (loops s3 arrives 2 refl (λ two. omega arith)))
      (selects s4 sends refl sent_part)

-- The loop has handed the client over.
handed : SystemRun tables 0 no_json s0 s7
unfolding loop_step visit_next visit_fd
handed =
    then_step s0 s6 s7 (then_step s0 s5 s6 accepting (loops s5 sends 0 refl no_answer))
      (loops s6 sends 1 refl (λ one. omega arith))

served : SystemRun tables 0 no_json s0 s10
unfolding loop_step visit_next visit_fd run_thread thread_step read_request get cleanup
served =
    then_step s0 s9 s10
      (then_step s0 s8 s9 (then_step s0 s7 s8 handed (takes s7 0 refl))
        (reads s8 0 1 5 request refl))
      (finishes s9 0 1 6 request (codes "/a") (codes "Not Founded") refl)

worked : WorkRun tables 0 no_json s7 s10 3
unfolding loop_step visit_next visit_fd run_thread thread_step read_request get cleanup
worked =
    works_then s7 s9 s10 2
      (works_then s7 s8 s9 1 (works_then s7 s7 s8 0 (no_work_done s7) (takes s7 0 refl) (λ e. cc))
        (reads s8 0 1 5 request refl) tt)
      (finishes s9 0 1 6 request (codes "/a") (codes "Not Founded") refl) tt

work_left-watched_example :
    (3 + work_left s10.pool ≤ work_left s7.pool)
    × (CanWork tables 0 no_json s10
        ⊎ (count 1 s10.accepted_fds
            ≡ count 1 s10.closed_fds + watched tables tables-IsFdSets tables_hold 0 1 s10.loop))
work_left-watched_example =
    work_left-watched tables tables-IsFdSets tables_hold 0 no_json 0 s7 s10 3 handed worked 1
      (λ z. omega arith)

accepted-owned_example :
    (count 1 s10.accepted_fds
      ≡ count 1 s10.closed_fds
        + (watched tables tables-IsFdSets tables_hold 0 1 s10.loop + owned 1 s10.pool))
    × (watched tables tables-IsFdSets tables_hold 0 1 s10.loop + owned 1 s10.pool ≤ 1)
accepted-owned_example =
    accepted-owned tables tables-IsFdSets tables_hold 0 no_json 1 s10 served 1 (λ z. omega arith)

-- The client is answered, and its socket is closed.
answered : (s10.accepted_fds ≡ 1 ∷ []) × (s10.closed_fds ≡ 1 ∷ [])
unfolding loop_step visit_next visit_fd run_thread thread_step read_request finish_request get
answered = (refl, refl)

replies-IsExpected_example : All (IsExpected tables no_json) s10.replies
replies-IsExpected_example = replies-IsExpected tables 0 no_json 1 s10 served
