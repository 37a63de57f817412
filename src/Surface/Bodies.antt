-- ===== src/Surface/Bodies.antt =====
-- portal/middleware.py, `BodySizeLimitMiddleware`: how much of a body a handler gets to see.
use claude_pwa_portal.Base.{
  ℕ, ◌+◌, ◌≤◌, Text, ◌≡◌, refl, ap, Bool, false, Option, some, List, [], ◌∷◌, arith, ltb,
  Bool-cases, inl, inr,
}
use claude_pwa_portal.Surface.{body_limit_for, limited_receive, declared_over, limit_body}

unfoldable pub total : List ℕ → ℕ
total [] = 0
total (chunk ∷ chunks) = chunk + total chunks

limited_receive-total :
    (limit received : ℕ) (chunks : List ℕ)
    → received ≤ limit
    → received + total (limited_receive limit received chunks).0 ≤ limit
unfolding limited_receive total
limited_receive-total limit received [] h = omega (arith, h)
limited_receive-total limit received (chunk ∷ chunks) h =
    elim (Bool-cases (ltb limit (received + chunk))) [
      | inl t ↦ rw t (omega (arith, h))
      | inr t ↦
          rw t (
            omega
              (arith, limited_receive-total limit (received + chunk) chunks (ground (arith, t))))
    ]

within :
    (limit received chunk rest : ℕ)
    → received + (chunk + rest) ≤ limit
    → ltb limit (received + chunk) ≡ false
within limit received chunk rest h = ground (arith, h)

limited_receive_whole :
    (limit received : ℕ) (chunks : List ℕ)
    → received + total chunks ≤ limit
    → limited_receive limit received chunks ≡ (chunks, false)
unfolding limited_receive total
limited_receive_whole limit received [] h = refl
limited_receive_whole limit received (chunk ∷ chunks) h =
    rw
      (
        within limit received chunk (total chunks) h,
        limited_receive_whole limit (received + chunk) chunks (omega (arith, h)),
      )
      refl

-- Of a body that is read, the handler gets no more bytes than the limit of the path, however it is
-- sent and whatever length was declared; a body that fits and declares no more than the limit is
-- passed on whole.
pub limit_body-limits :
    (path : Text) (declared : Option ℕ) (chunks : List ℕ)
    → declared_over (body_limit_for path) declared ≡ false
    → (passed : List ℕ) × (exceeded : Bool) × (limit_body path declared chunks
        ≡ some (passed, exceeded))
      × (total passed ≤ body_limit_for path)
      × (total chunks ≤ body_limit_for path → (passed ≡ chunks) × (exceeded ≡ false))
unfolding limit_body
limit_body-limits path declared chunks fair = rw fair (
  (limited_receive (body_limit_for path) 0 chunks).0,
  (limited_receive (body_limit_for path) 0 chunks).1,
  refl,
  omega (arith, limited_receive-total (body_limit_for path) 0 chunks (omega arith)),
  λ h.
      let whole = limited_receive_whole (body_limit_for path) 0 chunks (omega (arith, h)) in
      (ap (λ r. r.0) whole, ap (λ r. r.1) whole),
)
