-- ===== src/Limits.antt =====
-- The rolling windows that bound how often something is done: portal/api.py, `_check_email_rate`,
-- `_check_pdf_rate` and their refunds. A window is the list of the times of the slots that one user
-- took, oldest first; the lock around each function makes it one step. Times are seconds of the
-- monotonic clock.
pub mod Window
use claude_pwa_portal.Base.{
  ℕ, zero, suc, ◌+◌, ◌-◌, Bool, true, false, not, ◌&&◌, Option, none, some, List, [], ◌∷◌, ◌++◌,
  leb, ltb, ◌==◌, ℕ-Eq, if◌then◌else◌, length,
}

-- `while dq and dq[0] < cutoff: dq.popleft()`, with `cutoff = now - window`
unfoldable pub drop_old : ℕ → ℕ → List ℕ → List ℕ
drop_old window now [] = []
drop_old window now (t ∷ ts) =
    let rest = drop_old window now ts in if ltb (t + window) now then rest else t ∷ ts

-- `dq.extend([now] * n)`
unfoldable pub extend : ℕ → ℕ → List ℕ → List ℕ
extend now zero dq = dq
extend now (suc n) dq = extend now n (dq ++ (now ∷ []))

abbrev pub email_window : ℕ
email_window = 3600

abbrev pub email_recipients_per_hour : ℕ
email_recipients_per_hour = 100

-- True where the recipients are reserved, false where the code raises 429; the window of the user is
-- pruned either way.
unfoldable pub check_email_rate : ℕ → ℕ → List ℕ → Bool × List ℕ
unfolding drop_old extend
check_email_rate now recipients dq =
    let kept = drop_old email_window now dq in
    if ltb email_recipients_per_hour (length kept + recipients)
    then (false, kept)
    else (true, extend now recipients kept)

-- `if dq: dq.pop()`
unfoldable pub pop : List ℕ → List ℕ
pop [] = []
pop (t ∷ []) = []
pop (t ∷ u ∷ ts) = t ∷ pop (u ∷ ts)

unfoldable pub refund_email_send : ℕ → List ℕ → List ℕ
unfolding pop
refund_email_send zero dq = dq
refund_email_send (suc n) dq = refund_email_send n (pop dq)

unfoldable pub check_pdf_rate : ℕ → List ℕ → Bool × List ℕ
unfolding drop_old
check_pdf_rate now dq =
    let kept = drop_old 3600 now dq in
    if leb 120 (length kept) then (false, kept) else (true, kept ++ (now ∷ []))

unfoldable pub refund_pdf_render : List ℕ → List ℕ
unfolding pop
refund_pdf_render dq = pop dq
