-- ===== src/RedisManager/Start.antt =====
-- initialize of Services/utils/redis_manager.cpp calls disconnect, when a connection fails, while it
-- holds the mutex that disconnect takes.
use qt_web_server_chat.Base.{
  ℕ, zero, suc, ◌+◌, ◌≡◌, refl, inl, inr, String, Bool, true, false, Option, none, some, [], ◌∷◌,
  arith, length, Option-cases, blocked, Returns,
}
use qt_web_server_chat.RedisManager.{Hiredis, RedisManager, fill, initialize}

module _ {Net : Type 0} (hiredis : Hiredis Net) (host : String) (port : ℕ) where
  abbrev after_connect : Option (ℕ × Bool) × Net → (Net → Bool) → Bool
  after_connect (none, n) later = false
  after_connect (some (ctx, true), n) later = false
  after_connect (some (ctx, false), n) later = later n

  -- Would this many connections, made one after the other, all be good?
  unfoldable pub all_connect : ℕ → Net → Bool
  all_connect zero n = true
  all_connect (suc k) n = after_connect (hiredis.connect_with_timeout host port n) (all_connect k)

  -- The manager is filled, initialised and within its mutex.
  abbrev IsFilled : ℕ → RedisManager Net → Type 0
  IsFilled size t = (length t.connection_pool ≡ size) × (t.initialized ≡ true) × (t.locked ≡ true)

  fill_good :
      (k : ℕ) (s : RedisManager Net)
      → s.locked ≡ true
      → all_connect k s.net ≡ true
      → Returns (IsFilled (length s.connection_pool + k)) (fill hiredis host port k s)
  unfolding fill all_connect
  fill_good zero s held good = ground arith
  fill_good (suc k) s held good =
      let made = hiredis.connect_with_timeout host port s.net in
      elim (Option-cases made.0) [
        | inl e ↦ ground arith
        | inr ((ctx, true), e) ↦ ground arith
        | inr ((ctx, false), e) ↦ ground (
          arith,
          fill_good k (record s { net = made.1; connection_pool = ctx ∷ s.connection_pool }),
        )
      ]

  fill_bad :
      (k : ℕ) (s : RedisManager Net)
      → s.locked ≡ true
      → all_connect k s.net ≡ false
      → fill hiredis host port k s ≡ blocked
  unfolding fill all_connect
  fill_bad zero s held bad = absurd (cc)
  fill_bad (suc k) s held bad =
      let made = hiredis.connect_with_timeout host port s.net in
      elim (Option-cases made.0) [
        | inl e ↦ ground arith
        | inr ((ctx, true), e) ↦ ground arith
        | inr ((ctx, false), e) ↦ ground (
          arith,
          fill_bad k (record s { net = made.1; connection_pool = ctx ∷ s.connection_pool }),
        )
      ]

module _ {Net : Type 0} (hiredis : Hiredis Net) (host : String) (port size : ℕ)
    (s : RedisManager Net) (free : s.locked ≡ false) (new : s.initialized ≡ false)
    (empty : s.connection_pool ≡ []) where
  abbrev begun : RedisManager Net
  begun = record s { locked = true; host = host; port = port; pool_size = size }

  -- initialize on a manager that is not initialised, with an empty pool and its mutex free: if all
  -- the connections asked for can be made one after the other, it returns with the mutex free, the
  -- manager initialised and that many connections in the pool.
  pub initialize_fills :
      all_connect hiredis host port size s.net ≡ true
      → Returns
          (λ t. (length t.connection_pool ≡ size) × (t.initialized ≡ true) × (t.locked ≡ false))
          (initialize hiredis host port size s)
  unfolding initialize
  initialize_fills good = ground (arith, fill_good hiredis host port size begun refl good)

  -- initialize on a manager that is not initialised, with an empty pool and its mutex free: if one
  -- of the connections asked for cannot be made, it never returns, since disconnect waits for the
  -- mutex that initialize holds.
  pub initialize_deadlocks :
      all_connect hiredis host port size s.net ≡ false
      → initialize hiredis host port size s ≡ blocked
  unfolding initialize
  initialize_deadlocks bad = ground (arith, fill_bad hiredis host port size begun refl bad)
