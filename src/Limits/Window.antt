-- ===== src/Limits/Window.antt =====
-- How much is granted in an hour, over every sequence of requests.
use claude_pwa_portal.Base.{
  ℕ, zero, suc, ◌+◌, ◌≤◌, ◌≡◌, refl, Bool, List, [], ◌∷◌, ◌++◌, leb, ltb, if◌then◌else◌, length,
  arith, Bool-cases, inl, inr,
}
use claude_pwa_portal.Base.Table.{count, count-append}
use claude_pwa_portal.Limits.{
  drop_old, extend, email_window, email_recipients_per_hour, check_email_rate,
}

-- The time is within the last hour.
abbrev pub is_recent : ℕ → ℕ → Bool
is_recent now t = leb now (t + email_window)

drop-recent :
    (now later : ℕ) (dq : List ℕ)
    → now ≤ later
    → count (is_recent later) (drop_old email_window now dq) ≡ count (is_recent later) dq
unfolding count drop_old
drop-recent now later [] h = refl
drop-recent now later (t ∷ ts) h = ground (arith, drop-recent now later ts h)

count-extend :
    (p : ℕ → Bool) (now n : ℕ) (dq : List ℕ)
    → count p (extend now n dq) ≡ count p dq + (if p now then n else 0)
unfolding extend
count-extend p now zero dq = ground arith
count-extend p now (suc n) dq =
    ground (arith, count-extend p now n (dq ++ (now ∷ [])), count-append p dq now)

length-append : (dq : List ℕ) (now : ℕ) → length (dq ++ (now ∷ [])) ≡ suc (length dq)
length-append [] now = refl
length-append (t ∷ ts) now = omega (arith, length-append ts now)

length-extend : (now n : ℕ) (dq : List ℕ) → length (extend now n dq) ≡ length dq + n
unfolding extend
length-extend now zero dq = omega arith
length-extend now (suc n) dq =
    omega (arith, length-extend now n (dq ++ (now ∷ [])), length-append dq now)

count-le_all : (p : ℕ → Bool) (dq : List ℕ) → count p dq ≤ length dq
unfolding count
count-le_all p [] = omega arith
count-le_all p (t ∷ ts) = ground (arith, count-le_all p ts)

-- A history of requests to send: the time of the last, every slot that was ever granted, and the
-- window that the code keeps.
pub data Run : ℕ → List ℕ → List ℕ → Type 0 where
  start : Run 0 [] []
  request :
      {last : ℕ} {granted dq : List ℕ} (now recipients : ℕ)
      → last ≤ now
      → Run last granted dq
      → Run now
          (if (check_email_rate now recipients dq).0
            then extend now recipients granted
            else granted)
          (check_email_rate now recipients dq).1

record Covers (last : ℕ) (granted dq : List ℕ) : Type 0 where
  seen : (later : ℕ) → last ≤ later → count (is_recent later) granted ≤ count (is_recent later) dq
  bounded : length dq ≤ email_recipients_per_hour

drop-length : (now : ℕ) (dq : List ℕ) → length (drop_old email_window now dq) ≤ length dq
unfolding drop_old
drop-length now [] = omega arith
drop-length now (t ∷ ts) = ground (arith, drop-length now ts)

request-Covers :
    (last : ℕ) (granted dq : List ℕ) (now recipients : ℕ)
    → last ≤ now
    → Covers last granted dq
    → Covers now
        (if (check_email_rate now recipients dq).0 then extend now recipients granted else granted)
        (check_email_rate now recipients dq).1
unfolding check_email_rate
request-Covers last granted dq now recipients h c =
    elim (Bool-cases
      (ltb email_recipients_per_hour (length (drop_old email_window now dq) + recipients))) [
        | inl full ↦ rw full (record {
          seen = λ later k.
              omega (arith, h, k, c.seen later (omega (arith, h, k)), drop-recent now later dq k);
          bounded = omega (arith, c.bounded, drop-length now dq);
        })
        | inr room ↦ rw room (record {
          seen = λ later k. omega (
            arith,
            c.seen later (omega (arith, h, k)),
            drop-recent now later dq k,
            count-extend (is_recent later) now recipients granted,
            count-extend (is_recent later) now recipients (drop_old email_window now dq),
          );
          bounded =
              ground (arith, room, length-extend now recipients (drop_old email_window now dq));
        })
      ]

Run-Covers : {last : ℕ} {granted dq : List ℕ} → Run last granted dq → Covers last granted dq
unfolding count
Run-Covers start = record { seen = λ later k. omega arith; bounded = omega arith }
Run-Covers (request {last = last} {granted = granted} {dq = dq} now recipients h r) =
    request-Covers last granted dq now recipients h (Run-Covers r)

-- Over every sequence of requests at times that do not go back, and at every time from the last on,
-- no more than 100 recipients were granted to the user within the last hour.
pub Run-hourly :
    {last : ℕ} {granted dq : List ℕ} (later : ℕ)
    → Run last granted dq
    → last ≤ later
    → count (is_recent later) granted ≤ email_recipients_per_hour
Run-hourly {dq = dq} later r h =
    omega (
      arith,
      (Run-Covers r).seen later h,
      (Run-Covers r).bounded,
      count-le_all (is_recent later) dq,
    )
