-- ===== src/Application/Session/Fuel.antt =====
-- The loop of `process_read` of src/net/session.cc ends.
use bandchain_legacy.Common.{
  ℕ, zero, suc, ◌+◌, ◌*◌, ◌≤◌, ◌<◌, ◌≡◌, refl, Bool, true, false, [], ◌∷◌, length, length-drop,
  take, drop, bit_and, bit_or, ◌==◌, if◌then◌else◌, arith,
}
use bandchain_legacy.Thrown
use bandchain_legacy.Thrown.{Result, ok, err, Result-cases, Thrown}
use bandchain_legacy.Uint256.{CheckedUint}
use bandchain_legacy.Buffer.{Bytes, consume, int_shift}
use bandchain_legacy.Ledger.Action.{Action, pure, continue_with}
use bandchain_legacy.Listener.Manager.{BaseListener}
use bandchain_legacy.Application.Frame.{
  Ahead, incomplete, complete, negative, finish, read_loop, read_ahead,
}
use bandchain_legacy.Application.Requests.{Request, Answer}
use bandchain_legacy.Application.Session.{
  Session, answer_request, process_ahead, process, process_all,
}
use bandchain_legacy.Application.Session.Runs.{answer_request-keeps}

-- What is ahead is within the buffer, behind a byte of it at least.
abbrev pub IsWithin : Bytes → Ahead → Type 0
IsWithin buf incomplete = Unit {0}
IsWithin buf (negative rest) = Unit {0}
IsWithin buf (complete size rest) = (length rest < length buf) × (size ≤ length rest)

abbrev Within : Bytes → Result Ahead → Type 0
Within buf (ok ahead) = IsWithin buf ahead
Within buf (err thrown) = Unit {0}

finish-IsWithin : (buf : Bytes) (idx value : ℕ) → IsWithin buf (finish buf idx value)
unfolding finish
finish-IsWithin buf idx value = ground (arith, length-drop (1 + idx) buf)

Within->>= :
    (buf : Bytes) (r : Result ℕ) (f : ℕ → Result Ahead)
    → ((value : ℕ) → Within buf (f value))
    → Within buf (Thrown.◌>>=◌ r f)
Within->>= buf (ok value) f h = h value
Within->>= buf (err thrown) f h = tt

Within-if :
    (buf : Bytes) (test : Bool) (x y : Result Ahead)
    → Within buf x
    → Within buf y
    → Within buf (if test then x else y)
Within-if buf true x y hx hy = hx
Within-if buf false x y hx hy = hy

read_loop-Within : (buf bs : Bytes) (idx value : ℕ) → Within buf (read_loop buf bs idx value)
unfolding read_loop
read_loop-Within buf [] idx value = tt
read_loop-Within buf (b ∷ bs) idx value =
    Within->>= buf (int_shift (bit_and b 0x7f) (7 * idx)) _ λ shifted.
      let value' = bit_or value shifted in
      Within-if buf (bit_and b 0x80 == 0) _ _ (finish-IsWithin buf idx value')
        (read_loop-Within buf bs (idx + 1) value')

read_ahead-Within : (buf : Bytes) → Within buf (read_ahead buf)
unfolding read_ahead
read_ahead-Within buf = read_loop-Within buf buf 0 0

module _ ⦃u : CheckedUint⦄ {L : Type 0} (base : BaseListener L) (sha256 : Bytes → Bytes)
    (abi : Result Bytes) (parse : Bytes → Request) (serialize : Answer → Bytes) where
  -- A round goes on only if it has taken bytes.
  abbrev Goes : ℕ → Result Bool × Session L → Type 0
  Goes n (ok true, s) = length s.read_buffer < n
  Goes n (ok false, s) = Unit {0}
  Goes n (err thrown, s) = Unit {0}

  after_answer-Goes :
      (n : ℕ) (r : Result (Unit {0})) (s : Session L)
      → length s.read_buffer < n
      → Goes n (continue_with (λ _. pure true) r s)
  after_answer-Goes n (ok done) s h = h
  after_answer-Goes n (err thrown) s h = tt

  consume-within :
      (size : ℕ) (rest : Bytes) → size ≤ length rest → consume size rest ≡ ok (drop size rest)
  unfolding consume
  consume-within size rest h = ground arith

  process_ahead-Goes :
      (ahead : Ahead) (s : Session L)
      → IsWithin s.read_buffer ahead
      → Goes (length s.read_buffer) (process_ahead base sha256 abi parse serialize ahead s)
  unfolding process_ahead
  process_ahead-Goes incomplete s h = tt
  process_ahead-Goes (negative rest) s h = tt
  process_ahead-Goes (complete size rest) s (shorter, enough) =
      let t : Session L = record s { read_buffer = drop size rest } in
      let p = answer_request base sha256 abi parse serialize (take size rest) t in
      rw (consume-within size rest enough) (
        after_answer-Goes (length s.read_buffer) p.0 p.1 (
          rw (answer_request-keeps base sha256 abi parse serialize (take size rest) t)
            (omega (arith, length-drop size rest))))

  continue-Goes :
      (r : Result Ahead) (s : Session L)
      → Within s.read_buffer r
      → Goes
          (length s.read_buffer)
          (continue_with (process_ahead base sha256 abi parse serialize) r s)
  continue-Goes (ok ahead) s h = process_ahead-Goes ahead s h
  continue-Goes (err thrown) s h = tt

  process-Goes :
      (s : Session L) → Goes (length s.read_buffer) (process base sha256 abi parse serialize s)
  unfolding process
  process-Goes s = continue-Goes (read_ahead s.read_buffer) s (read_ahead-Within s.read_buffer)

  abbrev next_round : ℕ → Bool → Action (Session L) (Unit {0})
  next_round fuel true = process_all base sha256 abi parse serialize fuel
  next_round fuel false = pure tt

  process_all-suc :
      (fuel : ℕ) (s : Session L)
      → process_all base sha256 abi parse serialize (suc fuel) s
        ≡ continue_with
            (next_round fuel)
            (process base sha256 abi parse serialize s).0
            (process base sha256 abi parse serialize s).1
  unfolding process_all
  process_all-suc fuel s = round_lem fuel (process base sha256 abi parse serialize s)
    where
      round_lem :
          (fuel : ℕ) (p : Result Bool × Session L)
          → continue_with
              (λ more. elim more [
                | true ↦ process_all base sha256 abi parse serialize fuel
                | false ↦ pure tt
              ])
              p.0
              p.1
            ≡ continue_with (next_round fuel) p.0 p.1
      round_lem fuel (ok true, t) = refl
      round_lem fuel (ok false, t) = refl
      round_lem fuel (err thrown, t) = refl

  -- The loop of `process_read` as the source has it, with no bound on its rounds: `Ends s out` where
  -- it leaves the session s with the outcome and the session of `out`.
  pub data Ends : Session L → Result (Unit {0}) × Session L → Type 0 where
    stops :
        {s s' : Session L}
        → process base sha256 abi parse serialize s ≡ (ok false, s')
        → Ends s (ok tt, s')
    throws :
        {s s' : Session L} {e : Thrown}
        → process base sha256 abi parse serialize s ≡ (err e, s')
        → Ends s (err e, s')
    again :
        {s s' : Session L} {out : Result (Unit {0}) × Session L}
        → process base sha256 abi parse serialize s ≡ (ok true, s')
        → Ends s' out
        → Ends s out

  round-Ends :
      (fuel : ℕ) (s : Session L) (p : Result Bool × Session L)
      → process base sha256 abi parse serialize s ≡ p
      → Goes (length s.read_buffer) p
      → ((t : Session L)
          → length t.read_buffer < length s.read_buffer
          → Ends t (process_all base sha256 abi parse serialize fuel t))
      → Ends s (continue_with (next_round fuel) p.0 p.1)
  round-Ends fuel s (ok true, t) e goes next = again e (next t goes)
  round-Ends fuel s (ok false, t) e goes next = stops e
  round-Ends fuel s (err thrown, t) e goes next = throws e

  -- The loop of a session ends on any bytes: the loop as the source has it, with no bound on its
  -- rounds, goes on only finitely often until a round finds no whole request or throws, and its
  -- outcome and session are those of process_all at any bound larger than the number of bytes in
  -- the buffer.
  pub process_all-Ends :
      (fuel : ℕ) (s : Session L)
      → length s.read_buffer < fuel
      → Ends s (process_all base sha256 abi parse serialize fuel s)
  process_all-Ends zero s h = absurd (omega arith)
  process_all-Ends (suc fuel) s h = rw (process_all-suc fuel s) (
      round-Ends fuel s (process base sha256 abi parse serialize s) refl (process-Goes s)
        (λ t shorter. process_all-Ends fuel t (omega arith)))
