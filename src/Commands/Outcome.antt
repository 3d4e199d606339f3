-- ===== src/Commands/Outcome.antt =====
-- app.js, `runCommandFlow`: what a run leaves in each line of the flow.
use log_agent.Prelude.{
  ℕ, suc, Bool, true, false, List, [], ◌∷◌, Option, ◌≡◌, refl, ◌⊎◌, inl, inr, Text, txt,
  if◌then◌else◌, Bool-cases, ◌<◌, ◌≤◌, arith, length, ◌+◌, ap, get_elem?, sym, ◌++◌, ◌==◌,
  length-append, zero, take, drop, length-take, length-drop, nat_eq, ◌∙◌,
}
use log_agent.Commands.{
  begin_line, settle, Executed, has_status, execute_command_line, Line, Status, Stop, Answer,
  is_skipped, run_lines, some, run_command_flow, take, Flow, begin_at, drop, none, run_from,
}

-- A line that the loop passed: skipped and left xs it was, or executed with success.
abbrev pub Passed : Line → Line → Type 0
Passed a b =
    ((is_skipped a ≡ true) × (b ≡ a)) ⊎ ((is_skipped a ≡ false) × (b.status ≡ Status.success))

-- The line at which a run was paused: not begun, or cut short and idle.
abbrev pub Halted : Line → Line → Type 0
Halted a b = (is_skipped a ≡ false) × ((b ≡ a) ⊎ (b.status ≡ Status.idle))

pub data IsRun : ℕ → List Line → Stop → List Line → Type 0 where
  finish : {i : ℕ} → IsRun i [] Stop.finished []
  pass :
      {i : ℕ} {a b : Line} {xs ys : List Line} {s : Stop}
      → Passed a b
      → IsRun (suc i) xs s ys
      → IsRun i (a ∷ xs) s (b ∷ ys)
  fail :
      {i : ℕ} {a b : Line} {xs : List Line}
      → is_skipped a ≡ false
      → b.status ≡ Status.error
      → IsRun i (a ∷ xs) (Stop.failed_at i) (b ∷ xs)
  pause :
      {i : ℕ} {a b : Line} {xs : List Line}
      → Halted a b
      → IsRun i (a ∷ xs) (Stop.paused_at i) (b ∷ xs)

-- How a line that was executed is left: in success, in an error, or idle after a pause.
abbrev pub Settled : Executed → Type 0
Settled d =
    ((d.ok ≡ true) × (d.line.status ≡ Status.success))
    ⊎ ((d.ok ≡ false)
        × (((d.line.status ≡ Status.error) × (has_status Status.error d.line ≡ true))
            ⊎ ((d.line.status ≡ Status.idle) × (has_status Status.error d.line ≡ false))))

settle-Settled : (i : ℕ) (a : Line) (cwd : Option Text) (r : Answer) → Settled (settle i a cwd r)
unfolding settle
settle-Settled i a cwd Answer.uploaded = inl (refl, refl)
settle-Settled i a cwd (Answer.ran path) = inl (refl, refl)
settle-Settled i a cwd Answer.paused = inr (refl, inr (refl, refl))
settle-Settled i a cwd (Answer.failed message code) = inr (refl, inl (refl, refl))

execute_command_line-Settled :
    (has_server : Bool) (answer : Line → Option Text → Answer) (i : ℕ) (a : Line)
    (cwd : Option Text)
    → Settled (execute_command_line has_server answer i a cwd)
unfolding execute_command_line
execute_command_line-Settled has_server answer i a cwd =
    settle-Settled i (begin_line a) cwd
      (if has_server then answer (begin_line a) cwd else Answer.failed (txt "no server") [])

pub run_lines-IsRun :
    (has_server : Bool) (answer : Line → Option Text → Answer) (pause_requested : ℕ → Bool) (i : ℕ)
    (ls : List Line) (cwd : Option Text)
    → let r = run_lines has_server answer pause_requested i ls cwd in IsRun i ls r.stop r.lines
unfolding run_lines
run_lines-IsRun has_server answer pause_requested i [] cwd = IsRun.finish
run_lines-IsRun has_server answer pause_requested i (a ∷ xs) cwd =
    let d = execute_command_line has_server answer i a cwd in
    let rest = run_lines-IsRun has_server answer pause_requested (suc i) xs in
    elim (Bool-cases (is_skipped a)) [
      | inl s ↦ rw (s) (IsRun.pass (inl (s, refl)) (rest cwd))
      | inr s ↦ elim (Bool-cases (pause_requested i)) [
        | inl p ↦ rw (s, p) (IsRun.pause (s, inl refl))
        | inr p ↦ elim (execute_command_line-Settled has_server answer i a cwd) [
          | inl (h, st) ↦ rw (s, p, h) (IsRun.pass (inr (s, st)) (rest d.cwd))
          | inr (h, inl (st, e)) ↦ rw (s, p, h, e) (IsRun.fail s st)
          | inr (h, inr (st, e)) ↦ rw (s, p, h, e) (IsRun.pause (s, inr st))
        ]
      ]
    ]

-- What a run that ended with `s` leaves of the line `a` at `n`.
abbrev pub At : Stop → ℕ → Line → Line → Type 0
At Stop.finished n a b = Passed a b
At (Stop.failed_at k) n a b =
    (n < k → Passed a b)
    × (n ≡ k → (is_skipped a ≡ false) × (b.status ≡ Status.error))
    × (k < n → b ≡ a)
At (Stop.paused_at k) n a b = (n < k → Passed a b) × (n ≡ k → Halted a b) × (k < n → b ≡ a)

abbrev pub StopsIn : ℕ → ℕ → Stop → Type 0
StopsIn lo hi Stop.finished = Unit
StopsIn lo hi (Stop.failed_at k) = (lo ≤ k) × (k < hi)
StopsIn lo hi (Stop.paused_at k) = (lo ≤ k) × (k < hi)

StopsIn-weaken :
    (lo hi lo' hi' : ℕ) (s : Stop) → lo' ≤ lo → hi ≤ hi' → StopsIn lo hi s → StopsIn lo' hi' s
StopsIn-weaken lo hi lo' hi' Stop.finished l h u = u
StopsIn-weaken lo hi lo' hi' (Stop.failed_at k) l h (p, q) = (omega arith, omega arith)
StopsIn-weaken lo hi lo' hi' (Stop.paused_at k) l h (p, q) = (omega arith, omega arith)

At-Passed :
    (n i hi : ℕ) (s : Stop) (a b : Line) → n ≡ i → StopsIn (suc i) hi s → Passed a b → At s n a b
At-Passed n i hi Stop.finished a b en u p = p
At-Passed n i hi (Stop.failed_at k) a b en (l, h) p =
    ((λ q. p), (λ e. absurd (omega arith)), λ e. absurd (omega arith))
At-Passed n i hi (Stop.paused_at k) a b en (l, h) p =
    ((λ q. p), (λ e. absurd (omega arith)), λ e. absurd (omega arith))

pub IsRun-StopsIn :
    (i : ℕ) (xs : List Line) (s : Stop) (ys : List Line)
    → IsRun i xs s ys
    → StopsIn i (i + length xs) s
IsRun-StopsIn i xs s ys IsRun.finish = tt
IsRun-StopsIn i xs s ys (IsRun.pass {xs = xs'} {ys = ys'} p r) =
    StopsIn-weaken (suc i) (suc i + length xs') i (i + length xs) s (omega arith) (omega arith)
      (IsRun-StopsIn (suc i) xs' s ys' r)
IsRun-StopsIn i xs s ys (IsRun.fail p q) = (omega arith, omega arith)
IsRun-StopsIn i xs s ys (IsRun.pause p) = (omega arith, omega arith)

pub IsRun-length :
    (i : ℕ) (xs : List Line) (s : Stop) (ys : List Line) → IsRun i xs s ys → length ys ≡ length xs
IsRun-length i xs s ys IsRun.finish = refl
IsRun-length i xs s ys (IsRun.pass {xs = xs'} {ys = ys'} p r) =
    ap suc (IsRun-length (suc i) xs' s ys' r)
IsRun-length i xs s ys (IsRun.fail p q) = refl
IsRun-length i xs s ys (IsRun.pause p) = refl

some_injective : (x a : Line) → some x ≡ some a → x ≡ a
some_injective x a e = cc

-- What the loop leaves at each place.
pub IsRun-At :
    (i : ℕ) (xs : List Line) (s : Stop) (ys : List Line)
    → IsRun i xs s ys
    → (n j : ℕ) → n ≡ i + j
    → (a : Line) → get_elem? xs j ≡ some a
    → (b : Line) × (get_elem? ys j ≡ some b) × At s n a b
IsRun-At i xs s ys IsRun.finish n j en a e = absurd (ground (arith, e))
IsRun-At i xs s ys (IsRun.pass {a = x} {b = y} {xs = xs'} {ys = ys'} p r) n zero en a e = (
  y,
  refl,
  At-Passed n i (suc i + length xs') s a y (omega arith) (IsRun-StopsIn (suc i) xs' s ys' r)
      (rw (sym (some_injective x a e)) p),
)
IsRun-At i xs s ys (IsRun.pass {a = x} {b = y} {xs = xs'} {ys = ys'} p r) n (suc j) en a e =
    IsRun-At (suc i) xs' s ys' r n j (omega arith) a e
IsRun-At i xs s ys (IsRun.fail {a = x} {b = y} p q) n zero en a e = (
  y,
  refl,
  (
    (λ h. absurd (omega arith)),
    (λ h. (rw (sym (some_injective x a e)) p, q)),
    λ h. absurd (omega arith),
  ),
)
IsRun-At i xs s ys (IsRun.fail p q) n (suc j) en a e =
    (a, e, ((λ h. absurd (omega arith)), (λ h. absurd (omega arith)), λ h. refl))
IsRun-At i xs s ys (IsRun.pause {a = x} {b = y} p) n zero en a e = (
  y,
  refl,
  (
    (λ h. absurd (omega arith)),
    (λ h. rw (sym (some_injective x a e)) p),
    λ h. absurd (omega arith),
  ),
)
IsRun-At i xs s ys (IsRun.pause p) n (suc j) en a e =
    (a, e, ((λ h. absurd (omega arith)), (λ h. absurd (omega arith)), λ h. refl))

-- A place of a list is one before the cut at `b`, or one of what `drop` keeps.
get_elem?-cut :
    (b : ℕ) (xs ys : List Line) (j : ℕ) (a : Line)
    → get_elem? xs j ≡ some a
    → ((j < b) × (get_elem? (take b xs ++ ys) j ≡ some a))
      ⊎ ((k : ℕ) × (j ≡ b + k)
          × (get_elem? (drop b xs) k ≡ some a)
          × (get_elem? (take b xs ++ ys) j ≡ get_elem? ys k))
get_elem?-cut zero xs ys j a e = inr (j, omega arith, e, refl)
get_elem?-cut (suc b) [] ys j a e = absurd (ground (arith, e))
get_elem?-cut (suc b) (x ∷ xs) ys zero a e = inl (omega arith, e)
get_elem?-cut (suc b) (x ∷ xs) ys (suc j) a e = elim (get_elem?-cut b xs ys j a e) [
  | inl (l, g) ↦ inl (omega arith, g)
  | inr (k, ek, g, h) ↦ inr (k, omega arith, g, h)
]

-- After a run of a flow that began at `begin` and ended with `stop`, the flow has as many lines as
-- before; a line before `begin` is as it was. If the run finished, every line from `begin` on is
-- a success, or was skipped and is as it was. If it failed at line k, this holds of the lines from
-- `begin` to k, line k is not a skipped one and has the status error, and the lines behind it are
-- as they were. If it was paused at line k, this holds of the lines from `begin` to k, line k is not a
-- skipped one and is as it was or idle, and the lines behind it are as they were.
pub run_command_flow_lem :
    (has_server : Bool) (answer : Line → Option Text → Answer) (pause_requested : ℕ → Bool)
    (start : ℕ) (exact : Bool) (flow : Flow)
    → let begin = begin_at start exact flow.lines in
      let r = run_command_flow has_server answer pause_requested start exact flow in
      (length r.0.lines ≡ length flow.lines)
      × ((j : ℕ) (a : Line)
          → get_elem? flow.lines j ≡ some a
          → (b : Line) × (get_elem? r.0.lines j ≡ some b)
            × (((j < begin) × (b ≡ a)) ⊎ ((begin ≤ j) × At r.1 j a b)))
unfolding run_command_flow run_from
run_command_flow_lem has_server answer pause_requested start exact flow =
    let begin = begin_at start exact flow.lines in
    let cwd = if begin == 0 then none else flow.run_cwd in
    let rest = drop begin flow.lines in
    let r = run_lines has_server answer pause_requested begin rest cwd in
    let run = run_lines-IsRun has_server answer pause_requested begin rest cwd in
    (
      omega (
        arith,
        IsRun-length begin rest r.stop r.lines run,
        length-append (take begin flow.lines) r.lines,
        length-take begin flow.lines,
        length-drop begin flow.lines,
      ),
      λ j a e. elim (get_elem?-cut begin flow.lines r.lines j a e) [
        | inl (l, g) ↦ (a, g, inl (l, refl))
        | inr (k, ek, g, h) ↦
            let (b, gb, at) = IsRun-At begin rest r.stop r.lines run j k ek a g in
            (b, h ∙ gb, inr (omega arith, at))
      ],
    )
