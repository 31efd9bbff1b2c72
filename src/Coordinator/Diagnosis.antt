-- ===== src/Coordinator/Diagnosis.antt =====
-- crates/coordinator/src/main.rs: `build_job_diagnosis`.
use multinode_controller.Base.{
  ℕ, zero, suc, ◌+◌, ◌≡◌, refl, ap, sym, ◌∙◌, Bool, true, false, not, ◌&&◌, ◌||◌, if◌then◌else◌,
  List, [], ◌∷◌, ◌++◌, map, reverse, append-nil, Text, bytes, eq_text, contains_text,
  to_ascii_lowercase, join, show, length, take, select, select-reverse, newest, any, is_empty, leb,
  ltb, arith, Bool-cases, inl, inr,
}
use multinode_controller.Protocol.{LogStream, LogLine, TaskSummary, JobSummary, JobDiagnosis}
use multinode_controller.Store.Queries.{is_pending}

unfoldable pub has_failed : TaskSummary → Bool
has_failed t = eq_text t.status (bytes "failed")

-- `text.contains(a) || text.contains(b) || …`.
unfoldable pub contains_any : Text → List Text → Bool
contains_any text needles = any (contains_text text) needles

unfoldable pub is_error_stream : LogStream → Bool
is_error_stream LogStream.stdout = false
is_error_stream LogStream.stderr = true
is_error_stream LogStream.system = true

unfoldable pub is_error_text : Text → Bool
is_error_text lower = contains_any lower (
    bytes "error"
    ∷ bytes "exception"
    ∷ bytes "traceback"
    ∷ bytes "failed"
    ∷ bytes "killed"
    ∷ bytes "out of memory"
    ∷ bytes "no space left"
    ∷ bytes "permission denied"
    ∷ bytes "module not found"
    ∷ bytes "command not found"
    ∷ bytes "nccl"
    ∷ bytes "cuda"
    ∷ [])

unfoldable pub is_error : LogLine → Bool
is_error line = is_error_stream line.stream || is_error_text (to_ascii_lowercase line.line)

-- The loop over the lines, newest first, that ends with twenty.
unfoldable pub collect_errors : List LogLine → List LogLine → List LogLine
collect_errors [] found = found
collect_errors (line ∷ rest) found =
    let found = if is_error line then found ++ line ∷ [] else found in
    elim (leb 20 (length found)) [ true ↦ found | false ↦ collect_errors rest found ]

unfoldable pub recent_errors : List LogLine → List LogLine
recent_errors logs = reverse (collect_errors (reverse logs) [])

-- `if test { hints.push(hint) }`.
unfoldable pub hint : Bool → Text → List Text → List Text
hint test text hints = if test then hints ++ text ∷ [] else hints

-- The hints that the text of the lines gives, in the order of the source.
unfoldable pub text_hints : Text → List Text
text_hints text =
    let timed_out = contains_text text (bytes "task timed out after") in
    hint (not timed_out && contains_any text (bytes "connection refused" ∷ bytes "timed out" ∷ []))
      (bytes
        "Network connection issue detected; verify ports, hostnames, firewall rules, and rendezvous address.")
      (hint timed_out
        (bytes
          "Runtime timeout killed the job; increase --timeout-seconds or inspect why the task exceeded its limit.")
        (hint (contains_any text (bytes "command not found" ∷ bytes ": not found" ∷ []))
          (bytes "Command lookup failed; verify PATH and installed binaries on every node.")
          (hint (contains_any text (bytes "module not found" ∷ bytes "no module named" ∷ []))
            (bytes "Python dependency issue detected; verify the active environment on every node.")
            (hint (contains_text text (bytes "permission denied"))
              (bytes
                "Permission issue detected; check file ownership, execute bits, and policy rules.")
              (hint (contains_any text (bytes "no space left" ∷ bytes "disk quota" ∷ []))
                (bytes "Disk capacity or quota issue detected; check dataset/cache/output paths.")
                (hint (contains_text text (bytes "nccl"))
                  (bytes
                    "NCCL output detected; check MASTER_ADDR/MASTER_PORT, node reachability, IB/NVLink setup, and matching world size.")
                  (hint
                    (contains_any text (bytes "out of memory" ∷ bytes "cuda out of memory" ∷ []))
                    (bytes
                      "CUDA OOM detected; reduce batch size, sequence length, or per-process GPU memory use.")
                    [])))))))

-- The hints given where there is none yet.
unfoldable pub fallback_hints : ℕ → ℕ → List Text → List Text
fallback_hints failed_tasks running_tasks hints =
    let hints =
      hint (is_empty hints && ltb 0 failed_tasks)
        (bytes
          "One or more tasks failed; inspect recent stderr and worker logs for the root cause.")
        hints in
    let hints =
      hint (is_empty hints && ltb 0 running_tasks)
        (bytes
          "Job is still running or queued; tail logs and check node liveness before intervening.")
        hints in
    hint (is_empty hints) (bytes "No obvious failure pattern found in recent logs.") hints

unfoldable pub job_text : JobSummary → ℕ → ℕ → Text
job_text job failed_tasks running_tasks =
    if eq_text job.status (bytes "succeeded")
    then bytes "job "
      ++ (job.job_id
          ++ (bytes " succeeded across " ++ (show (length job.tasks) ++ bytes " task(s)")))
    else if ltb 0 running_tasks
    then bytes "job "
      ++ (job.job_id
          ++ (bytes " is "
              ++ (job.status
                  ++ (bytes " with " ++ (show running_tasks ++ bytes " running/queued task(s)")))))
    else if ltb 0 failed_tasks
    then bytes "job "
      ++ (job.job_id
          ++ (bytes " failed with "
              ++ (show failed_tasks
                  ++ (bytes " failed task(s) out of " ++ show (length job.tasks)))))
    else bytes "job " ++ (job.job_id ++ (bytes " status is " ++ job.status))

unfoldable pub all_text : List LogLine → Text
all_text logs = join (bytes "\n") (map (λ (line : LogLine). to_ascii_lowercase line.line) logs)

unfoldable pub build_job_diagnosis : JobSummary → List LogLine → JobDiagnosis
build_job_diagnosis job logs =
    let failed_tasks = length (select has_failed job.tasks) in
    let running_tasks = length (select is_pending job.tasks) in
    record {
      job_id = job.job_id;
      status = job.status;
      summary = job_text job failed_tasks running_tasks;
      hints = fallback_hints failed_tasks running_tasks (text_hints (all_text logs));
      recent_errors = recent_errors logs;
      tasks = job.tasks;
    }

length-snoc {ℓ} : {A : Type ℓ} (xs : List A) (x : A) → length (xs ++ x ∷ []) ≡ length xs + 1
length-snoc [] x = refl
length-snoc (y ∷ xs) x = omega (arith, length-snoc xs x)

append-snoc {ℓ} :
    {A : Type ℓ} (xs : List A) (x : A) (ys : List A) → (xs ++ x ∷ []) ++ ys ≡ xs ++ x ∷ ys
append-snoc [] x ys = refl
append-snoc (y ∷ xs) x ys = ap (◌∷◌ y) (append-snoc xs x ys)

take-nil {ℓ} : {A : Type ℓ} (n : ℕ) → take {A = A} n [] ≡ []
unfolding take
take-nil zero = refl
take-nil (suc n) = refl

-- The rest of the loop, once a line is seen.
abbrev next : List LogLine → List LogLine → List LogLine
next rest found = elim (leb 20 (length found)) [ true ↦ found | false ↦ collect_errors rest found ]

next_found :
    (line : LogLine) (rest found : List LogLine) (n : ℕ)
    → length found + suc n ≡ 20
    → ((m : ℕ)
        → length (found ++ line ∷ []) + suc m ≡ 20
        → collect_errors rest (found ++ line ∷ [])
          ≡ (found ++ line ∷ []) ++ take (suc m) (select is_error rest))
    → next rest (found ++ line ∷ []) ≡ found ++ line ∷ take n (select is_error rest)
unfolding take
next_found line rest found zero k more = ground (arith, length-snoc found line)
next_found line rest found (suc n) k more = ground (
  arith,
  length-snoc found line,
  more n (omega (arith, length-snoc found line)),
  append-snoc found line (take (suc n) (select is_error rest)),
)

collect_errors-take :
    (lines found : List LogLine) (n : ℕ)
    → length found + suc n ≡ 20
    → collect_errors lines found ≡ found ++ take (suc n) (select is_error lines)
unfolding collect_errors select take
collect_errors-take [] found n k = sym (append-nil found)
collect_errors-take (line ∷ rest) found n k = elim (Bool-cases (is_error line)) [
  | inl e ↦
      ap (λ b. next rest (if b then found ++ line ∷ [] else found)) e
      ∙ next_found line rest found n k (collect_errors-take rest (found ++ line ∷ []))
      ∙ ap
          (λ b.
            found ++ take (suc n) (if b then line ∷ select is_error rest else select is_error rest))
          (sym e)
  | inr e ↦ ground (arith, e, collect_errors-take rest found n k)
]

fallback_hints-filled : (f r : ℕ) (hints : List Text) → is_empty (fallback_hints f r hints) ≡ false
unfolding fallback_hints hint is_empty
fallback_hints-filled f r [] = ground arith
fallback_hints-filled f r (h ∷ hs) = refl

-- The diagnosis of a job shows the last twenty of its lines that look like errors, oldest first,
-- and always gives a hint.
pub build_job_diagnosis_lem :
    (job : JobSummary) (logs : List LogLine)
    → ((build_job_diagnosis job logs).recent_errors ≡ newest 20 (select is_error logs))
      × (is_empty (build_job_diagnosis job logs).hints ≡ false)
unfolding build_job_diagnosis recent_errors newest
build_job_diagnosis_lem job logs = (
  ap reverse
      (collect_errors-take (reverse logs) [] 19 refl ∙ ap (take 20) (select-reverse is_error logs)),
  fallback_hints-filled (length (select has_failed job.tasks))
      (length (select is_pending job.tasks)) (text_hints (all_text logs)),
)
