-- ===== src/Stream/Queue.antt =====
-- The queue of a batch: it is the end of what came in, and a flush is always due for it.
use log_agent.Prelude.{
  ℕ, zero, suc, ◌+◌, ◌-◌, ◌≤◌, true, false, List, [], ◌∷◌, ◌++◌, ◌≡◌, refl, ap, ◌∙◌, length, drop,
  is_empty, arith, length-append, length-drop, append_assoc, sym, append-nil,
}
use log_agent.LogBuffer.{Log}
use log_agent.Stream.{Stream, max_pending_stream_logs, enqueue_stream_log}

-- The last `n` elements.
abbrev pub last : ℕ → List Log → List Log
last n logs = drop (length logs - n) logs

drop-append_le : (k : ℕ) (xs ys : List Log) → k ≤ length xs → drop k (xs ++ ys) ≡ drop k xs ++ ys
drop-append_le zero xs ys h = refl
drop-append_le (suc k) [] ys h = absurd (omega arith)
drop-append_le (suc k) (x ∷ xs) ys h = drop-append_le k xs ys (omega arith)

drop-nil : (n : ℕ) → drop {A = Log} n [] ≡ []
drop-nil zero = refl
drop-nil (suc n) = refl

drop-drop : (j k m : ℕ) (xs : List Log) → k + j ≡ m → drop j (drop k xs) ≡ drop m xs
drop-drop j zero m xs e = ap (λ n. drop n xs) (omega arith)
drop-drop j (suc k) m [] e = drop-nil j ∙ sym (drop-nil m)
drop-drop j (suc k) zero (x ∷ xs) e = absurd (omega arith)
drop-drop j (suc k) (suc m) (x ∷ xs) e = drop-drop j k m xs (omega arith)

last-append : (n : ℕ) (xs ys : List Log) → last n (last n xs ++ ys) ≡ last n (xs ++ ys)
last-append n xs ys =
    let a = length xs - n in
    let cut : last n xs ++ ys ≡ drop a (xs ++ ys) = sym (drop-append_le a xs ys (omega arith)) in
    rw cut (
      drop-drop (length (drop a (xs ++ ys)) - n) a (length (xs ++ ys) - n) (xs ++ ys)
        (omega (arith, length-drop {0} a (xs ++ ys), length-append {0} xs ys)))

last_of_short : (n : ℕ) (xs : List Log) → length xs ≤ n → last n xs ≡ xs
last_of_short n xs h = let none_cut : length xs - n ≡ 0 = omega arith in rw none_cut

enqueue-last :
    (log : Log) (s : Stream)
    → (enqueue_stream_log log s).pending ≡ last max_pending_stream_logs (s.pending ++ log ∷ [])
unfolding enqueue_stream_log
enqueue-last log s = ground (arith, last_of_short max_pending_stream_logs (s.pending ++ log ∷ []))

-- Logs that arrive one after the other.
pub enqueue_all : List Log → Stream → Stream
unfolding enqueue_stream_log
enqueue_all [] s = s
enqueue_all (log ∷ logs) s = enqueue_all logs (enqueue_stream_log log s)

-- At most 2000 logs wait, and a timer is set while any waits.
pub record IsQueued (s : Stream) : Type 0 where
  pub within : length s.pending ≤ max_pending_stream_logs
  pub due : is_empty s.pending ≡ false → s.timer ≡ true

-- Where at most 2000 logs wait, the queue holds after any number of arrivals the last 2000 of
-- what waited and what arrived.
pub enqueue_all-pending :
    (logs : List Log) (s : Stream)
    → length s.pending ≤ max_pending_stream_logs
    → (enqueue_all logs s).pending ≡ last max_pending_stream_logs (s.pending ++ logs)
unfolding enqueue_all
enqueue_all-pending [] s h = rw append-nil (sym (last_of_short max_pending_stream_logs s.pending h))
enqueue_all-pending (log ∷ logs) s h =
    let t = enqueue_stream_log log s in
    enqueue_all-pending logs t (
      rw (enqueue-last log s) (
        omega (
          arith,
          length-drop {0} (length (s.pending ++ log ∷ []) - max_pending_stream_logs)
              (s.pending ++ log ∷ []),
        )))
    ∙ ap (λ l. last max_pending_stream_logs (l ++ logs)) (enqueue-last log s)
    ∙ last-append max_pending_stream_logs (s.pending ++ log ∷ []) logs
    ∙ ap (last max_pending_stream_logs) (append_assoc s.pending (log ∷ []) logs)

pub enqueue-IsQueued : (log : Log) (s : Stream) → IsQueued (enqueue_stream_log log s)
unfolding enqueue_stream_log
enqueue-IsQueued log s = record {
  within =
      rw (enqueue-last log s, enqueue_stream_log)
        (omega (
          arith,
          length-drop {0} (length (s.pending ++ log ∷ []) - max_pending_stream_logs)
              (s.pending ++ log ∷ []),
        ));
  due = λ h. refl;
}
