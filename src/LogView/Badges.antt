-- ===== src/LogView/Badges.antt =====
-- app.js, `filteredLogs`: a level's badge is the number of rows that the level would show.
use log_agent.Prelude.{
  ℕ, ◌+◌, Bool, true, ◌||◌, List, [], ◌∷◌, ◌++◌, ◌≡◌, refl, Text, txt, text_eq, ◌==◌, arith, length,
  length-append, if◌then◌else◌, All, Bool-cases, inl, inr, filterb, append_assoc, ◌∙◌, ap, sym,
  append-nil, ◌⊎◌,
}
use log_agent.LogBuffer.{Log}
use log_agent.LogView.{
  full_range_search_key, logs_for_active_container, container_logs, View, Clock, Counts, one_if,
  count, filter_loop, reversed, source_of, is_match, filtered_logs,
}

-- The rows of a level, without the loop.
abbrev pub shows : Text → Log → Bool
shows level log = level == txt "all" || log.level == level

module _ (keep : Log → Bool) where
  -- How many logs of a level pass the filter.
  abbrev pub tally : (Log → Bool) → List Log → ℕ
  tally p [] = 0
  tally p (log ∷ logs) = (if keep log then one_if (p log) else 0) + tally p logs

  filter_loop-rows :
      (level : Text) (source : List Log) (c : Counts) (results : List Log)
      → (filter_loop keep level source c results).1
        ≡ results ++ filterb (λ log. shows level log) (filterb keep source)
  unfolding filter_loop
  filter_loop-rows level [] c results = sym (append-nil results)
  filter_loop-rows level (log ∷ source) c results = elim (Bool-cases (keep log)) [
    | inr k ↦ rw k (filter_loop-rows level source c results)
    | inl k ↦ elim (Bool-cases (shows level log)) [
      | inl s ↦
          rw (k, s)
            (filter_loop-rows level source (count log c) (results ++ log ∷ [])
              ∙ append_assoc results (log ∷ [])
                  (filterb (λ l. shows level l) (filterb keep source)))
      | inr s ↦ rw (k, s) (filter_loop-rows level source (count log c) results)
    ]
  ]

  length-shown :
      (level : Text) (source : List Log)
      → length (filterb (λ log. shows level log) (filterb keep source))
        ≡ tally (λ log. shows level log) source
  length-shown level [] = refl
  length-shown level (log ∷ source) = ground (arith, length-shown level source)

  filter_loop-counts :
      (level : Text) (source : List Log) (c : Counts) (results : List Log)
      → let r : Counts = (filter_loop keep level source c results).0 in
        (r.all
          ≡ c.all + (tally (λ log. true) source + tally (λ log. log.level == txt "all") source))
        × (r.info ≡ c.info + tally (λ log. log.level == txt "info") source)
        × (r.warn ≡ c.warn + tally (λ log. log.level == txt "warn") source)
        × (r.error ≡ c.error + tally (λ log. log.level == txt "error") source)
  unfolding filter_loop count
  filter_loop-counts level [] c results = (omega arith, omega arith, omega arith, omega arith)
  filter_loop-counts level (log ∷ source) c results =
      let shown =
        if level == txt "all" || log.level == level then results ++ log ∷ [] else results in
      elim (Bool-cases (keep log)) [
        | inr k ↦
            let (a, i, w, e) = filter_loop-counts level source c results in
            rw k (omega (arith, a), omega (arith, i), omega (arith, w), omega (arith, e))
        | inl k ↦
            let (a, i, w, e) = filter_loop-counts level source (count log c) shown in
            rw k (omega (arith, a), omega (arith, i), omega (arith, w), omega (arith, e))
      ]

-- A level that the server gives.
abbrev pub HasLevel : Log → Type 0
HasLevel log = (log.level ≡ txt "info") ⊎ ((log.level ≡ txt "warn") ⊎ (log.level ≡ txt "error"))

one_level :
    (log : Log)
    → HasLevel log
    → (one_if (log.level == txt "info")
          + one_if (log.level == txt "warn")
          + one_if (log.level == txt "error")
        ≡ 1)
      × (one_if (log.level == txt "all") ≡ 0)
one_level log (inl e) = rw e (refl, refl)
one_level log (inr (inl e)) = rw e (refl, refl)
one_level log (inr (inr e)) = rw e (refl, refl)

tally-levels :
    (keep : Log → Bool) (source : List Log)
    → All HasLevel source
    → (tally keep (λ log. log.level == txt "info") source
          + tally keep (λ log. log.level == txt "warn") source
          + tally keep (λ log. log.level == txt "error") source
        ≡ tally keep (λ log. true) source)
      × (tally keep (λ log. log.level == txt "all") source ≡ 0)
tally-levels keep [] h = (refl, refl)
tally-levels keep (log ∷ source) (h, hs) =
    let (sum, none_all) = tally-levels keep source hs in
    let (one, no_all) = one_level log h in
    elim (Bool-cases (keep log)) [
      | inl k ↦ rw k (omega (arith, sum, one), omega (arith, none_all, no_all))
      | inr k ↦ rw k (omega (arith, sum), omega (arith, none_all))
    ]

length-reversed : (logs : List Log) → length (reversed logs) ≡ length logs
unfolding reversed
length-reversed [] = refl
length-reversed (log ∷ logs) =
    omega (arith, length-append (reversed logs) (log ∷ []), length-reversed logs)

-- The number of rows that a level would show.
abbrev pub rows : (Text → Text) → Clock → View → Text → ℕ
rows lower clock v level = length (filtered_logs lower clock (record v { level = level })).1

rows-tally :
    (lower : Text → Text) (clock : Clock) (v : View) (level : Text)
    → rows lower clock v level
      ≡ tally (is_match lower clock v) (λ log. shows level log) (source_of lower v)
unfolding filtered_logs is_match source_of full_range_search_key logs_for_active_container
    container_logs
rows-tally lower clock v level =
    length-reversed _
    ∙ ap length (filter_loop-rows (is_match lower clock v) level (source_of lower v) _ [])
    ∙ length-shown (is_match lower clock v) level (source_of lower v)

-- Where every log to choose from has the level info, warn or error: the badge of each level, and the
-- one of all levels, is the number of rows that this level would show with the other filters as
-- they are, and the badge of all levels is the sum of the three.
pub filtered_logs-badges :
    (lower : Text → Text) (clock : Clock) (v : View)
    → All HasLevel (source_of lower v)
    → let c : Counts = (filtered_logs lower clock v).0 in
      (c.all ≡ rows lower clock v (txt "all"))
      × (c.info ≡ rows lower clock v (txt "info"))
      × (c.warn ≡ rows lower clock v (txt "warn"))
      × (c.error ≡ rows lower clock v (txt "error"))
      × (c.all ≡ c.info + c.warn + c.error)
unfolding filtered_logs
filtered_logs-badges lower clock v h =
    let (a, i, w, e) =
      filter_loop-counts (is_match lower clock v) v.level (source_of lower v)
        (record { all = 0; info = 0; warn = 0; error = 0 }) [] in
    let (sum, none_all) = tally-levels (is_match lower clock v) (source_of lower v) h in
    (
      omega (arith, a, none_all, rows-tally lower clock v (txt "all")),
      omega (arith, i, rows-tally lower clock v (txt "info")),
      omega (arith, w, rows-tally lower clock v (txt "warn")),
      omega (arith, e, rows-tally lower clock v (txt "error")),
      omega (arith, a, i, w, e, sum, none_all),
    )
