-- ===== src/Notify/Leaks.antt =====
-- A broker that accepts the consumer's connections and refuses to declare the exchange
-- (src/consumer/NotifyConsumer.cc, line 116 and its like).
use trade_reconcile_system.Base.{
  Bool, List, [], ap, arith, false, length, length-append, not, refl, suc, true, zero, ℕ, ◌%◌, ◌*◌,
  ◌+◌, ◌<◌, ◌==◌, ◌∙◌, ◌∷◌, ◌≡◌,
}
use trade_reconcile_system.Notify.Subscribe.{
  ConsumerCall, OnFailure, Subscriber, authenticate, connect_and_subscribe, connect_socket,
  declare_topic, give_up, main_exchange, make_connection, make_socket, new_subscriber, note_call,
  round_of, run_loop, run_steps, start_channel, subscribe_steps,
}

-- Each round makes six calls, the last of which fails.
abbrev pub refusing : ℕ → Bool
refusing n = not (n % 6 == 5)

-- The connections and calls that `rounds` failed rounds leave.
abbrev HasLeaked : ℕ → Subscriber → Type 0
HasLeaked rounds s = (s.live ≡ rounds) × (length s.history ≡ 6 * rounds)

answered : (n k r : ℕ) → n ≡ 6 * k + r → r < 5 → refusing n ≡ true
answered n k r e l = ground (arith, e, l)

refused : (n k : ℕ) → n ≡ 6 * k + 5 → refusing n ≡ false
refused n k e = ground (arith, e)

step-true :
    (answers : ℕ → Bool) (failure : OnFailure) (c : ConsumerCall)
    (rest : List (OnFailure × ConsumerCall)) (s : Subscriber)
    → answers (length s.history) ≡ true
    → run_steps answers ((failure, c) ∷ rest) s ≡ run_steps answers rest (note_call c s)
unfolding run_steps
step-true answers failure c rest s e = rw e refl

step-false :
    (answers : ℕ → Bool) (failure : OnFailure) (c : ConsumerCall)
    (rest : List (OnFailure × ConsumerCall)) (s : Subscriber)
    → answers (length s.history) ≡ false
    → run_steps answers ((failure, c) ∷ rest) s ≡ (false, give_up failure (note_call c s))
unfolding run_steps
step-false answers failure c rest s e = rw e refl

note_call-length :
    (c : ConsumerCall) (s : Subscriber) → length (note_call c s).history ≡ suc (length s.history)
unfolding note_call
note_call-length c s = omega (arith, length-append s.history (c ∷ []))

-- One accepted call of a round, the call `r` of six.
go_on :
    (k r : ℕ) (failure : OnFailure) (c : ConsumerCall) (rest : List (OnFailure × ConsumerCall))
    (s : Subscriber) {v : Bool × Subscriber}
    → length s.history ≡ 6 * k + r
    → r < 5
    → run_steps refusing rest (note_call c s) ≡ v
    → run_steps refusing ((failure, c) ∷ rest) s ≡ v
go_on k r failure c rest s at early h =
    step-true refusing failure c rest s (answered (length s.history) k r at early) ∙ h

-- The connection of a round after the four calls that the broker grants and the one that it refuses.
abbrev abandoned : Subscriber → Subscriber
abandoned s = note_call (declare_topic main_exchange) (
    note_call start_channel
      (note_call authenticate (note_call connect_socket (note_call make_socket s))))

abandoned-length : (s : Subscriber) → length (abandoned s).history ≡ length s.history + 5
abandoned-length s =
    let a = note_call make_socket s in
    let b = note_call connect_socket a in
    let c = note_call authenticate b in
    let d = note_call start_channel c in
    omega (
      arith,
      note_call-length make_socket s,
      note_call-length connect_socket a,
      note_call-length authenticate b,
      note_call-length start_channel c,
      note_call-length (declare_topic main_exchange) d,
    )

abandons :
    (k : ℕ) (s : Subscriber)
    → length s.history ≡ 6 * k + 1
    → run_steps refusing subscribe_steps s ≡ (false, abandoned s)
unfolding give_up
abandons k s at =
    let a = note_call make_socket s in
    let b = note_call connect_socket a in
    let c = note_call authenticate b in
    let d = note_call start_channel c in
    let at_a = note_call-length make_socket s in
    let at_b = note_call-length connect_socket a in
    let at_c = note_call-length authenticate b in
    let at_d = note_call-length start_channel c in
    go_on k 1 _ _ _ s at (omega arith) (
      go_on k 2 _ _ _ a (omega (arith, at, at_a)) (omega arith) (
        go_on k 3 _ _ _ b (omega (arith, at, at_a, at_b)) (omega arith) (
          go_on k 4 _ _ _ c (omega (arith, at, at_a, at_b, at_c)) (omega arith) (
            step-false refusing _ _ _ d
              (refused (length d.history) k (omega (arith, at, at_a, at_b, at_c, at_d)))))))

round-HasLeaked :
    (k : ℕ) (s : Subscriber)
    → HasLeaked k s
    → HasLeaked (suc k) (round_of (connect_and_subscribe refusing s))
unfolding connect_and_subscribe round_of
round-HasLeaked k s (live, at) =
    let made : Subscriber = record (note_call make_connection s) {
      has_conn = true;
      live = suc s.live;
    } in
    let one = note_call-length make_connection s in
    rw (abandons k made (omega (arith, one, at)))
      (ap suc live, omega (arith, abandoned-length made, one, at))

rounds-HasLeaked :
    (k rounds total : ℕ) (s : Subscriber)
    → total ≡ k + rounds
    → HasLeaked k s
    → HasLeaked total (run_loop refusing rounds s)
unfolding run_loop
rounds-HasLeaked k zero total s e h = (omega (arith, e, h.0), omega (arith, e, h.1))
rounds-HasLeaked k (suc rounds) total s e h =
    rounds-HasLeaked (suc k) rounds total (round_of (connect_and_subscribe refusing s))
      (omega (arith, e)) (round-HasLeaked k s h)

-- With a broker that accepts the connection and refuses the exchange, each round of `runLoop` leaves
-- one more connection that is never destroyed.
pub run_loop-leaks : (rounds : ℕ) → (run_loop refusing rounds new_subscriber).live ≡ rounds
run_loop-leaks rounds =
    (rounds-HasLeaked 0 rounds rounds new_subscriber (omega arith) (refl, refl)).0
