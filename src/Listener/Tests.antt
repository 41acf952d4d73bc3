-- ===== src/Listener/Tests.antt =====
-- The listener with an acceptor whose state says whether the port is taken.
use qt_web_server_chat.Base.{
  ℕ, ◌+◌, ◌≤◌, ◌≡◌, refl, inl, inr, Bool, true, false, none, some, List, [], ◌∷◌, if◌then◌else◌,
  arith, thrown,
}
use qt_web_server_chat.Listener.{
  operation_aborted, other_error, Acceptor, Listener, construct, run, stop, on_accept,
}
use qt_web_server_chat.Listener.Accepting.{
  Event, accepted, Run, here, accept, sockets, errors, handlers, was_stopped, crashed, run_serves,
  handlers_after_stop,
}

abbrev acceptor : Acceptor Bool
acceptor = record {
  open_acceptor = λ address port taken. (none, taken);
  set_reuse_address = λ taken. (none, taken);
  bind = λ address port taken. (if taken then some (other_error "in use") else none, taken);
  listen = λ taken. (none, taken);
  cancel = λ taken. taken;
  close = λ taken. taken;
}

-- The port is taken, so bind fails.
abbrev unbound : Listener Bool ℕ
unfolding construct
unbound = construct acceptor "0.0.0.0" 8080 true

unbound_reports : unbound.reports ≡ ("bind", "in use") ∷ []
unfolding construct
unbound_reports = refl

abbrev two : List (Event ℕ)
two = accepted (inl (other_error "invalid")) ∷ accepted (inr (7, some "10.0.0.1")) ∷ []

abbrev failed : Listener Bool ℕ
unfolding construct run
failed = record (run unbound) { reports = ("bind", "in use") ∷ ("accept", "invalid") ∷ [] }

abbrev served : Listener Bool ℕ
served = record failed { sessions = 7 ∷ [] }

-- An accept fails, the next one gives a socket.
two_accepts : Run acceptor (run unbound) two served
unfolding construct run on_accept
two_accepts =
    accept (inl (other_error "invalid")) (omega arith) refl
      (accept (inr (7, some "10.0.0.1")) (omega arith) refl here)

run_serves_example :
    (served.sessions ≡ 7 ∷ [])
    × (served.reports ≡ ("bind", "in use") ∷ ("accept", "invalid") ∷ [])
    × (was_stopped two ≡ false → served.pending ≡ 1)
unfolding construct sockets errors crashed
run_serves_example = run_serves acceptor unbound refl two_accepts

-- A client that has gone before its handler runs.
gone : on_accept (inr (8, none)) served ≡ thrown (record served { pending = 0 })
unfolding construct run on_accept
gone = refl

abbrev ended : Listener Bool ℕ
unfolding stop construct run
ended = record (stop acceptor served) { pending = 0 }

handlers_after_stop_example : (ended.accepting ≡ false) × (1 + ended.pending ≤ 1)
unfolding construct run on_accept stop handlers
handlers_after_stop_example =
    handlers_after_stop acceptor unbound refl two_accepts
      (accept (inl operation_aborted) (omega arith) refl here)
