-- ===== src/Listener/Accepting.antt =====
-- What the listener of Services/GateServer/listener.cpp does from its start on, whatever the accepts
-- end with and whenever it is stopped.
use mathlib.Core.List
use qt_web_server_chat.Base.{
  ℕ, ◌+◌, ◌-◌, ◌<◌, ◌≤◌, ◌⊎◌, inl, inr, ◌≡◌, refl, sym, ap, ◌∙◌, subst, String, Bool, true, false,
  none, some, List, [], ◌∷◌, if◌then◌else◌, arith, Outcome, done, thrown, blocked,
}
use qt_web_server_chat.Listener.{
  ErrorCode, operation_aborted, other_error, Accepted, Acceptor, Listener, fail, do_accept, run,
  stop, take, accept_more, on_accept,
}

pub data Event (Socket : Type 0) : Type 0 where
  accepted : ErrorCode ⊎ Accepted Socket → Event Socket
  stopped : Event Socket

module _ {Socket : Type 0} where
  -- The sockets that were accepted and have a remote endpoint.
  unfoldable pub sockets : List (Event Socket) → List Socket
  sockets [] = []
  sockets (accepted (inr (socket, some ep)) ∷ es) = socket ∷ sockets es
  sockets (accepted (inr (socket, none)) ∷ es) = sockets es
  sockets (accepted (inl e) ∷ es) = sockets es
  sockets (stopped ∷ es) = sockets es

  -- The errors other than that of a cancelled operation, as they are reported.
  unfoldable pub errors : List (Event Socket) → List (String × String)
  errors [] = []
  errors (accepted (inl (other_error message)) ∷ es) = ("accept", message) ∷ errors es
  errors (accepted (inl operation_aborted) ∷ es) = errors es
  errors (accepted (inr a) ∷ es) = errors es
  errors (stopped ∷ es) = errors es

  -- The number of handlers that ran.
  unfoldable pub handlers : List (Event Socket) → ℕ
  handlers [] = 0
  handlers (accepted result ∷ es) = handlers es + 1
  handlers (stopped ∷ es) = handlers es

  unfoldable pub was_stopped : List (Event Socket) → Bool
  was_stopped [] = false
  was_stopped (accepted result ∷ es) = was_stopped es
  was_stopped (stopped ∷ es) = true

  -- Was a socket without a remote endpoint accepted?
  unfoldable pub crashed : List (Event Socket) → Bool
  crashed [] = false
  crashed (accepted (inr (socket, some ep)) ∷ es) = crashed es
  crashed (accepted (inr (socket, none)) ∷ es) = true
  crashed (accepted (inl e) ∷ es) = crashed es
  crashed (stopped ∷ es) = crashed es

  sockets-∷ :
      (result : ErrorCode ⊎ Accepted Socket) (es : List (Event Socket))
      → sockets (accepted result ∷ es) ≡ List.◌++◌ (sockets (accepted result ∷ [])) (sockets es)
  unfolding sockets
  sockets-∷ (inl e) es = refl
  sockets-∷ (inr (socket, none)) es = refl
  sockets-∷ (inr (socket, some ep)) es = refl

  errors-∷ :
      (result : ErrorCode ⊎ Accepted Socket) (es : List (Event Socket))
      → errors (accepted result ∷ es) ≡ List.◌++◌ (errors (accepted result ∷ [])) (errors es)
  unfolding errors
  errors-∷ (inl operation_aborted) es = refl
  errors-∷ (inl (other_error message)) es = refl
  errors-∷ (inr a) es = refl

  crashed-∷ :
      (result : ErrorCode ⊎ Accepted Socket) (es : List (Event Socket))
      → crashed (accepted result ∷ es)
        ≡ (if crashed (accepted result ∷ []) then true else crashed es)
  unfolding crashed
  crashed-∷ (inl e) es = refl
  crashed-∷ (inr (socket, none)) es = refl
  crashed-∷ (inr (socket, some ep)) es = refl

appended :
    {A : Type 0} {ys zs all : List A} (xs one more : List A)
    → ys ≡ List.◌++◌ xs one
    → zs ≡ List.◌++◌ ys more
    → all ≡ List.◌++◌ one more
    → zs ≡ List.◌++◌ xs all
appended xs one more p q r =
    q ∙ ap (λ ys. List.◌++◌ ys more) p ∙ List.append_assoc xs one more ∙ ap (List.◌++◌ xs) (sym r)

module _ {Net Socket : Type 0} (acceptor : Acceptor Net) where
  -- A handler runs only for an operation that is pending. What it throws ends the run.
  pub data Run : Listener Net Socket → List (Event Socket) → Listener Net Socket → Type 0 where
    here : {l : Listener Net Socket} → Run l [] l
    accept :
        {l k m : Listener Net Socket} {es : List (Event Socket)}
        (result : ErrorCode ⊎ Accepted Socket)
        → 0 < l.pending
        → on_accept result l ≡ done tt k
        → Run k es m
        → Run l (accepted result ∷ es) m
    crash :
        {l m : Listener Net Socket} (result : ErrorCode ⊎ Accepted Socket)
        → 0 < l.pending
        → on_accept result l ≡ thrown m
        → Run l (accepted result ∷ []) m
    halt :
        {l m : Listener Net Socket} {es : List (Event Socket)}
        → Run (stop acceptor l) es m
        → Run l (stopped ∷ es) m

-- What a handler has done.
pub record Handled {Net Socket : Type 0} (l : Listener Net Socket)
    (result : ErrorCode ⊎ Accepted Socket) (over : Bool) (pending : ℕ) (k : Listener Net Socket)
    : Type 0 where
  pub same : k.accepting ≡ l.accepting
  pub left : k.pending ≡ pending
  pub ended : crashed (accepted result ∷ []) ≡ over
  pub began : k.sessions ≡ List.◌++◌ l.sessions (sockets (accepted result ∷ []))
  pub told : k.reports ≡ List.◌++◌ l.reports (errors (accepted result ∷ []))

module _ {Net Socket : Type 0} where
  -- After `take`, which has left a listener like this.
  again :
      (result : ErrorCode ⊎ Accepted Socket) (l j : Listener Net Socket)
      → 0 < l.pending
      → j.accepting ≡ l.accepting
      → j.pending ≡ l.pending - 1
      → crashed (accepted result ∷ []) ≡ false
      → j.sessions ≡ List.◌++◌ l.sessions (sockets (accepted result ∷ []))
      → j.reports ≡ List.◌++◌ l.reports (errors (accepted result ∷ []))
      → Handled l result false
          (if l.accepting then l.pending else l.pending - 1)
          (if j.accepting then do_accept j else j)
  unfolding do_accept
  again result l j p a n c s t = record {
    same = ground arith;
    left = ground arith;
    ended = c;
    began = ground arith;
    told = ground arith;
  }

  abbrev Explained :
      Listener Net Socket
      → ErrorCode ⊎ Accepted Socket
      → Outcome (Listener Net Socket) (Unit {0})
      → Type 0
  Explained l result (done a k) =
      Handled l result false (if l.accepting then l.pending else l.pending - 1) k
  Explained l result (thrown k) = Handled l result true (l.pending - 1) k
  Explained l result blocked = ⊥

  on_accept-Explained :
      (result : ErrorCode ⊎ Accepted Socket) (l : Listener Net Socket)
      → 0 < l.pending
      → Explained l result (on_accept result l)
  unfolding on_accept take accept_more do_accept fail sockets errors crashed
  on_accept-Explained (inl operation_aborted) l p =
      again (inl operation_aborted) l (record l { pending = l.pending - 1 }) p refl refl refl
        (sym (List.append-nil l.sessions)) (sym (List.append-nil l.reports))
  on_accept-Explained (inl (other_error message)) l p =
      again (inl (other_error message)) l
        (fail (other_error message) "accept" (record l { pending = l.pending - 1 })) p refl refl
        refl (sym (List.append-nil l.sessions)) refl
  on_accept-Explained (inr (socket, none)) l p = record {
    same = refl;
    left = refl;
    ended = refl;
    began = sym (List.append-nil l.sessions);
    told = sym (List.append-nil l.reports);
  }
  on_accept-Explained (inr (socket, some ep)) l p =
      again (inr (socket, some ep)) l
        (record l { pending = l.pending - 1; sessions = List.◌++◌ l.sessions (socket ∷ []) }) p refl
        refl refl refl (sym (List.append-nil l.reports))

  done-Handled :
      (result : ErrorCode ⊎ Accepted Socket) (l k : Listener Net Socket)
      → 0 < l.pending
      → on_accept result l ≡ done tt k
      → Handled l result false (if l.accepting then l.pending else l.pending - 1) k
  done-Handled result l k p e = subst (Explained l result) e (on_accept-Explained result l p)

  thrown-Handled :
      (result : ErrorCode ⊎ Accepted Socket) (l k : Listener Net Socket)
      → 0 < l.pending
      → on_accept result l ≡ thrown k
      → Handled l result true (l.pending - 1) k
  thrown-Handled result l k p e = subst (Explained l result) e (on_accept-Explained result l p)

-- While it accepts, exactly one accept is pending, and else one at most.
pub record IsSteady {Net Socket : Type 0} (l : Listener Net Socket) : Type 0 where
  pub at_most_one : l.pending ≤ 1
  pub one : l.accepting ≡ true → l.pending ≡ 1

module _ {Net Socket : Type 0} (acceptor : Acceptor Net) where
  accept-IsSteady :
      (result : ErrorCode ⊎ Accepted Socket) (l k : Listener Net Socket)
      → 0 < l.pending
      → on_accept result l ≡ done tt k
      → IsSteady l
      → IsSteady k
  accept-IsSteady result l k p e w =
      let h = done-Handled result l k p e in
      record {
        at_most_one = ground (arith, w.at_most_one, w.one, h.same, h.left);
        one = λ a. ground (arith, w.at_most_one, w.one, h.same, h.left, a);
      }

  stop-IsSteady : (l : Listener Net Socket) → IsSteady l → IsSteady (stop acceptor l)
  unfolding stop
  stop-IsSteady l w = record { at_most_one = w.at_most_one; one = ground arith }

  Run-at_most_one :
      {l m : Listener Net Socket} {es : List (Event Socket)}
      → Run acceptor l es m
      → IsSteady l
      → m.pending ≤ 1
  Run-at_most_one here w = w.at_most_one
  Run-at_most_one (accept {l} {k} result p e r) w =
      Run-at_most_one r (accept-IsSteady result l k p e w)
  Run-at_most_one (crash {l} {m} result p e) w =
      let h = thrown-Handled result l m p e in ground (arith, h.left, w.at_most_one)
  Run-at_most_one (halt {l} r) w = Run-at_most_one r (stop-IsSteady l w)

  run-IsSteady : (l : Listener Net Socket) → l.pending ≡ 0 → IsSteady (run l)
  unfolding run do_accept
  run-IsSteady l p = record { at_most_one = omega arith; one = λ b. omega arith }

  -- Once it is stopped it stays so, and each handler that runs is one pending accept less.
  Run-stopped :
      {l m : Listener Net Socket} {es : List (Event Socket)}
      → Run acceptor l es m
      → l.accepting ≡ false
      → (m.accepting ≡ false) × (handlers es + m.pending ≡ l.pending)
  unfolding handlers stop
  Run-stopped here f = (f, omega arith)
  Run-stopped (accept {l} {k} result p e r) f =
      let h = done-Handled result l k p e in
      let (g, n) = Run-stopped r (h.same ∙ f) in (g, ground (arith, h.left, n, f, p))
  Run-stopped (crash {l} {m} result p e) f =
      let h = thrown-Handled result l m p e in (h.same ∙ f, ground (arith, h.left, p))
  Run-stopped (halt r) f = Run-stopped r refl

  Run-pending :
      {l m : Listener Net Socket} {es : List (Event Socket)}
      → Run acceptor l es m
      → IsSteady l
      → l.accepting ≡ true
      → was_stopped es ≡ false
      → m.pending ≡ (if crashed es then 0 else 1)
  unfolding was_stopped crashed
  Run-pending here w a f = w.one a
  Run-pending (accept {l} {k} {es = es} result p e r) w a f =
      let h = done-Handled result l k p e in
      Run-pending r (accept-IsSteady result l k p e w) (h.same ∙ a) f
      ∙ ap (λ (b : Bool). if b then 0 else 1)
          (sym (crashed-∷ result es ∙ ap (λ (b : Bool). if b then true else crashed es) h.ended))
  Run-pending (crash {l} {m} result p e) w a f =
      let h = thrown-Handled result l m p e in
      let one = w.one a in ground (arith, h.left, h.ended, one)
  Run-pending (halt r) w a f = ground arith

  Run-lists :
      {l m : Listener Net Socket} {es : List (Event Socket)}
      → Run acceptor l es m
      → (m.sessions ≡ List.◌++◌ l.sessions (sockets es))
        × (m.reports ≡ List.◌++◌ l.reports (errors es))
  unfolding sockets errors stop
  Run-lists {l} here = (sym (List.append-nil l.sessions), sym (List.append-nil l.reports))
  Run-lists (accept {l} {k} {es = es} result p e r) =
      let h = done-Handled result l k p e in
      let (s, t) = Run-lists r in
      (
        appended l.sessions (sockets (accepted result ∷ [])) (sockets es) h.began s
            (sockets-∷ result es),
        appended l.reports (errors (accepted result ∷ [])) (errors es) h.told t
            (errors-∷ result es),
      )
  Run-lists (crash {l} {m} result p e) = let h = thrown-Handled result l m p e in (h.began, h.told)
  Run-lists (halt r) = Run-lists r

  -- A listener with no accept pending is run, accepts end, and it may be stopped. Then the sessions
  -- that have begun to read are those of the accepted sockets that have a remote endpoint, in their
  -- order, and what it has reported are the errors of accepts other than operation_aborted. If it
  -- has not been stopped, exactly one accept is pending, also if every accept has failed; but none
  -- is if a socket without a remote endpoint was accepted, whose session throws out of the handler.
  pub run_serves :
      (l : Listener Net Socket) {m : Listener Net Socket} {es : List (Event Socket)}
      → l.pending ≡ 0
      → Run acceptor (run l) es m
      → (m.sessions ≡ List.◌++◌ l.sessions (sockets es))
        × (m.reports ≡ List.◌++◌ l.reports (errors es))
        × (was_stopped es ≡ false → m.pending ≡ (if crashed es then 0 else 1))
  unfolding run do_accept
  run_serves l p r =
      let (s, t) = Run-lists r in (s, t, λ f. Run-pending r (run-IsSteady l p) refl f)

  -- A listener with no accept pending is run, accepts end, and it may be stopped, and stopped again.
  -- After this it does not accept, and the handlers that still run, with the accepts still pending,
  -- are one at most.
  pub handlers_after_stop :
      (l : Listener Net Socket) {m n : Listener Net Socket} {es ds : List (Event Socket)}
      → l.pending ≡ 0
      → Run acceptor (run l) es m
      → Run acceptor (stop acceptor m) ds n
      → (n.accepting ≡ false) × (handlers ds + n.pending ≤ 1)
  unfolding stop
  handlers_after_stop l p r q =
      let h = Run-at_most_one r (run-IsSteady l p) in
      let (f, e) = Run-stopped q refl in (f, omega arith)
