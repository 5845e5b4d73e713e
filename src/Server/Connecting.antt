-- ===== src/Server/Connecting.antt =====
-- The attempts to reach a process that was started (connectToStream of server/stream.go).
use cc_core_server.Common.{
  ℕ, zero, suc, ◌+◌, ◌<◌, String, GoError, plain, Result, ok, err, ◌⊎◌, inl, inr, ◌≡◌, ◌∙◌, ap,
  refl, arith,
}
use cc_core_server.Launch.{Platform}
use cc_core_server.Server.Start.{connect_from, connect_to_stream}

-- What comes of at most `n` attempts: either an attempt before the last got through, and those
-- before it did not, and what it answered is the outcome; or none did, and the time is up.
pub data Connects (p : Platform) (address : String) (n : ℕ) : Result (Unit {0}) → Type 0 where
  at_attempt :
      (i : ℕ) (closed : Result (Unit {0}))
      → i < n
      → p.dial address i ≡ ok closed
      → ((j : ℕ) → j < i → (e : GoError) × (p.dial address j ≡ err e))
      → Connects p address n closed
  timed_out :
      ((j : ℕ) → j < n → (e : GoError) × (p.dial address j ≡ err e))
      → Connects p address n (err (plain "connection timeout"))

module _ (p : Platform) (address : String) where
  -- The attempts before `i` have failed.
  abbrev Failed : ℕ → Type 0
  Failed i = (j : ℕ) → j < i → (e : GoError) × (p.dial address j ≡ err e)

  one_more : (i : ℕ) (e : GoError) → Failed i → p.dial address i ≡ err e → Failed (suc i)
  one_more i e before h j k = elim (lt_or_eq j i k) [
    | inl less ↦ before j less
    | inr same ↦ (e, ap (p.dial address) same ∙ h)
  ]
    where
      lt_or_eq : (j i : ℕ) → j < suc i → (j < i) ⊎ (j ≡ i)
      lt_or_eq j i k = omega arith

  connect_from-Connects :
      (i left n : ℕ)
      → i + left ≡ n
      → Failed i
      → Connects p address n (connect_from p address i left)
  unfolding connect_from
  connect_from-Connects i zero n e before = timed_out (λ j k. before j (omega (arith, e, k)))
  connect_from-Connects i (suc left) n e before =
      go (p.dial address i) refl (λ f. connect_from-Connects (suc i) left n (omega (arith, e)) f)
    where
      go :
          (o : Result (Result (Unit {0})))
          → p.dial address i ≡ o
          → (Failed (suc i) → Connects p address n (connect_from p address (suc i) left))
          → Connects p address n
              (elim o [ ok closed ↦ closed | err c ↦ connect_from p address (suc i) left ])
      go (ok closed) h more = at_attempt i closed (omega (arith, e)) h before
      go (err c) h more = more (one_more i c before h)

  -- The attempts to reach a process end, after at most as many as are asked for: the first that gets
  -- through decides, by what closing its connection answers, and if none does the outcome is a
  -- timeout.
  pub connect_to_stream-Connects :
      (try_count : ℕ) → Connects p address try_count (connect_to_stream p address try_count)
  unfolding connect_to_stream
  connect_to_stream-Connects try_count =
      connect_from-Connects 0 try_count try_count (omega arith) (λ j k. absurd (omega (arith, k)))
