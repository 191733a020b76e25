-- ===== src/Tests/Machine.antt =====
-- The sockets of a server and the timers at concrete inputs.
use two_phase_commit_protoco.Base.{List, ℕ, ◌+◌, ◌-◌, ◌≡◌, refl, true, [], ◌∷◌, All, ltb}
use two_phase_commit_protoco.Base.Int.{ℤ, pos, minus_one}
use two_phase_commit_protoco.Socket.Server.{
  HasNagleOn, nagle_is_off, SocketCalls, new_socket, server_socket_default, init_server,
  accept_loop, server_sockets_lem,
}
use two_phase_commit_protoco.Timer.{
  ClientTimer, new_timer, start, end_and_merge, merge, statistics, end_and_merge-merge,
}

abbrev calls : SocketCalls
calls = record {
  socket = pos 3;
  bind = λ fd port. pos 0;
  listen = λ fd backlog. pos 0;
  setsockopt = λ fd option. pos 0;
}

abbrev accepted_fds : List ℤ
accepted_fds = pos 4 ∷ pos 5 ∷ minus_one ∷ pos 6 ∷ []

server_sockets_lem_example :
    let (ok, s) = init_server calls (pos 16000) (new_socket minus_one) in
    (ok ≡ true)
    × (s.is_listening ≡ true)
    × All (HasNagleOn calls) (accept_loop calls accepted_fds s)
    × ((fd : ℤ) → (server_socket_default calls fd).tcp_nodelay ≡ nagle_is_off)
server_sockets_lem_example =
    server_sockets_lem calls minus_one (pos 16000) accepted_fds refl refl refl (λ d v. refl)

-- Durations in whole microseconds.
abbrev elapsed : ℕ → ℕ → ℕ
elapsed earlier later = later - earlier

abbrev measured : ClientTimer ℕ
measured = record {
  sum = 70;
  max = 50;
  min = 20;
  op_count = pos 2;
  start_time = 100;
  elapsed_time = 20;
}

end_and_merge-merge_example :
    statistics 0 9999999999 ◌+◌ ltb elapsed
      (end_and_merge 0 9999999999 ◌+◌ ltb elapsed 115 measured)
    ≡ statistics 0 9999999999 ◌+◌ ltb elapsed (
        merge 0 9999999999 ◌+◌ ltb elapsed measured (
          end_and_merge 0 9999999999 ◌+◌ ltb elapsed 115
            (start 0 9999999999 ◌+◌ ltb elapsed 100 (new_timer 0 9999999999 ◌+◌ ltb elapsed 7 7))))
end_and_merge-merge_example =
    end_and_merge-merge 0 9999999999 ◌+◌ ltb elapsed measured 115 7 refl refl refl
