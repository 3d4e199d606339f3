-- ===== src/LogView/Viewport.antt =====
-- app.js, `logVirtualWindow`: the rows that are drawn cover what is in view.
use log_agent.Prelude.{ℕ, ◌+◌, ◌*◌, ◌≤◌, ◌<◌, Bool, true, false, ◌≡◌, arith, nat_eq}
use log_agent.LogView.{Window, log_virtual_window}

pub record IsWindow (total height top : ℕ) (stick : Bool) (w : Window) : Type 0 where
  pub ordered : w.start ≤ w.end
  pub within : w.end ≤ total
  pub some_row : 0 < total → w.start < w.end
  pub latest : stick ≡ true → w.end ≡ total
  pub covers :
      (row : ℕ)
      → stick ≡ false
      → row < total
      → top < (row + 1) * 74
      → row * 74 < top + height
      → (w.start ≤ row) × (row < w.end)

-- The window is a range of the rows and empty only if there is none. At the bottom it ends with the
-- last row. Otherwise it has every row of 74 pixels that reaches into the view.
pub log_virtual_window-IsWindow :
    (total height top : ℕ) (stick : Bool)
    → IsWindow total height top stick (log_virtual_window total height top stick)
unfolding log_virtual_window
log_virtual_window-IsWindow total height top stick = record {
  ordered = ground arith;
  within = ground arith;
  some_row = λ h. ground arith;
  latest = λ h. ground arith;
  covers = λ row s r a b. ground arith;
}
