-- ===== src/Worker/Backoff.antt =====
-- crates/worker/src/main.rs: the loop of `main`, which connects again and again.
use Prim.Native.Nat.{min}
use multinode_controller.Base.{
  ℕ, suc, ◌*◌, ◌^◌, ◌≤◌, ◌≡◌, refl, List, [], ◌∷◌, Result, ok, err, All, arith,
}

-- The seconds slept after each failure, and the backoff in the end, for the results of
-- `run_worker`, one for each connection.
unfoldable pub main_loop : List (Result (Unit {0})) → ℕ → List ℕ × ℕ
main_loop [] backoff = ([], backoff)
main_loop (ok done ∷ results) backoff = main_loop results 1
main_loop (err e ∷ results) backoff =
    let (sleeps, last) = main_loop results (min (backoff * 2) 30) in (backoff ∷ sleeps, last)

-- The failures since the last success.
unfoldable pub streak : ℕ → List (Result (Unit {0})) → ℕ
streak n [] = n
streak n (ok done ∷ results) = streak 0 results
streak n (err e ∷ results) = streak (suc n) results

doubled : (n : ℕ) → min (min (2 ^ n) 30 * 2) 30 ≡ min (2 ^ suc n) 30
doubled n = omega arith

main_loop-within :
    (results : List (Result (Unit {0}))) (backoff : ℕ)
    → 1 ≤ backoff
    → backoff ≤ 30
    → All (λ seconds. (1 ≤ seconds) × (seconds ≤ 30)) (main_loop results backoff).0
unfolding main_loop
main_loop-within [] backoff low high = tt
main_loop-within (ok done ∷ results) backoff low high =
    main_loop-within results 1 (omega arith) (omega arith)
main_loop-within (err e ∷ results) backoff low high =
    ((low, high), main_loop-within results (min (backoff * 2) 30) (omega arith) (omega arith))

main_loop-from :
    (n : ℕ) (results : List (Result (Unit {0}))) (backoff : ℕ)
    → backoff ≡ min (2 ^ n) 30
    → (main_loop results backoff).1 ≡ min (2 ^ streak n results) 30
unfolding main_loop streak
main_loop-from n [] backoff e = e
main_loop-from n (ok done ∷ results) backoff e = main_loop-from 0 results 1 refl
main_loop-from n (err x ∷ results) backoff e =
    main_loop-from (suc n) results (min (backoff * 2) 30) (omega (arith, doubled n))

-- Whatever the results of the connections, the worker sleeps one second at least and thirty at
-- most after a failure, and after n failures in a row the backoff is 2 ^ n seconds, thirty at most.
pub main_loop-streak :
    (results : List (Result (Unit {0})))
    → All (λ seconds. (1 ≤ seconds) × (seconds ≤ 30)) (main_loop results 1).0
      × ((main_loop results 1).1 ≡ min (2 ^ streak 0 results) 30)
main_loop-streak results =
    (main_loop-within results 1 (omega arith) (omega arith), main_loop-from 0 results 1 refl)
