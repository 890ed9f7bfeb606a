-- ===== src/Fields/Times.antt =====
-- The time of `NavPosVelTime` (`TryFrom` for `DateTime<Utc>` in ublox/src/ubx_packets/types.rs), over
-- the calendar of the chrono crate.
use ublox.Prelude.{
  ℕ, suc, ◌+◌, ◌↔◌, ◌≢◌, sym, subst, false, ◌<◌, ◌≡◌, inl, inr, refl, Option, none, some, leb,
  if◌then◌else◌, arith, Option-cases, Bool-cases,
}
use ublox.Error.{DateTimeError, invalid_date, invalid_time, invalid_nanoseconds, Result, ok, err}
use ublox.Cfg.Value.{ℤ, pos, negsuc}

-- What is used of chrono: dates and times of day that there may be none of, and their sum with a
-- duration of nanoseconds.
pub record Chrono (Date Time DateTime : Type 0) : Type 0 where
  pub from_ymd_opt : (year month day : ℕ) → Option Date
  pub from_hms_opt : (hour min sec : ℕ) → Option Time
  pub add_nanoseconds : Date → Time → ℤ → DateTime

-- The fields that are read. `nanosecond` is an `i32`.
pub record Sol : Type 0 where
  pub year : ℕ
  pub month : ℕ
  pub day : ℕ
  pub hour : ℕ
  pub min : ℕ
  pub sec : ℕ
  pub nanosecond : ℤ

-- `wrapping_abs() as u32`
unfoldable pub wrapping_abs : ℤ → ℕ
wrapping_abs (pos n) = n
wrapping_abs (negsuc n) = suc n

abbrev nanos_lim : ℕ
nanos_lim = 1_000_000_000

-- More than a second down, and less than one up.
abbrev pub IsBelowSecond : ℤ → Type 0
IsBelowSecond (pos n) = n < 1_000_000_000
IsBelowSecond (negsuc n) = n + 1 < 1_000_000_000

IsBelowSecond-leb : (t : ℤ) → (leb nanos_lim (wrapping_abs t) ≡ false) ↔ IsBelowSecond t
unfolding wrapping_abs
IsBelowSecond-leb (pos n) = (λ e. ground arith, λ h. ground arith)
IsBelowSecond-leb (negsuc n) = (λ e. ground arith, λ h. ground arith)

unfoldable pub ok_or : {A : Type 0} → Option A → DateTimeError → Result A DateTimeError
ok_or none e = err e
ok_or (some a) e = ok a

module _ {Date Time DateTime : Type 0} (chrono : Chrono Date Time DateTime) where
  unfoldable pub with_time : Date → Result Time DateTimeError → ℤ → Result DateTime DateTimeError
  with_time date (err e) nanosecond = err e
  with_time date (ok time) nanosecond =
      if leb nanos_lim (wrapping_abs nanosecond)
      then err invalid_nanoseconds
      else ok (chrono.add_nanoseconds date time nanosecond)

  unfoldable pub with_date :
      Result Date DateTimeError → Option Time → ℤ → Result DateTime DateTimeError
  with_date (err e) time nanosecond = err e
  with_date (ok date) time nanosecond = with_time date (ok_or time invalid_time) nanosecond

  unfoldable pub try_from : Sol → Result DateTime DateTimeError
  try_from sol =
      with_date (ok_or (chrono.from_ymd_opt sol.year sol.month sol.day) invalid_date)
        (chrono.from_hms_opt sol.hour sol.min sol.sec) sol.nanosecond

  -- A date and time of day that there are, less than a second, and what is made of them.
  abbrev pub Added : Sol → Result DateTime DateTimeError → Type 0
  Added sol (err e) = Unit
  Added sol (ok answer) =
      (date : Date) × (time : Time) × (chrono.from_ymd_opt sol.year sol.month sol.day ≡ some date)
      × (chrono.from_hms_opt sol.hour sol.min sol.sec ≡ some time)
      × IsBelowSecond sol.nanosecond
      × (answer ≡ chrono.add_nanoseconds date time sol.nanosecond)

  -- When each answer is given.
  abbrev pub Outcome : Sol → Result DateTime DateTimeError → Type 0
  Outcome sol out =
      ((out ≡ err invalid_date) ↔ (chrono.from_ymd_opt sol.year sol.month sol.day ≡ none))
      × ((out ≡ err invalid_time) ↔ (
          (chrono.from_ymd_opt sol.year sol.month sol.day ≢ none)
          × (chrono.from_hms_opt sol.hour sol.min sol.sec ≡ none)))
      × ((out ≡ err invalid_nanoseconds) ↔ (
          (chrono.from_ymd_opt sol.year sol.month sol.day ≢ none)
          × (chrono.from_hms_opt sol.hour sol.min sol.sec ≢ none)
          × ¬ IsBelowSecond sol.nanosecond))
      × Added sol out

  Outcome-dated :
      (sol : Sol) {date : Date}
      → chrono.from_ymd_opt sol.year sol.month sol.day ≡ some date
      → Outcome sol (try_from sol)
  unfolding try_from with_date with_time ok_or
  Outcome-dated sol {date = date} p =
      let some_date : chrono.from_ymd_opt sol.year sol.month sol.day ≢ none = λ e. cc in
      elim (Option-cases (chrono.from_hms_opt sol.hour sol.min sol.sec)) [
        | inl q ↦
            let run : try_from sol ≡ err invalid_time = rw (p, q) refl in
            subst (Outcome sol) (sym run) (
              (λ e. cc, λ h. absurd (some_date h)),
              (λ e. (some_date, q), λ h. refl),
              (λ e. cc, λ h. absurd (h.1 q)),
              tt,
            )
        | inr (time, q) ↦
            let some_time : chrono.from_hms_opt sol.hour sol.min sol.sec ≢ none = λ e. cc in
            let (below, back) = IsBelowSecond-leb sol.nanosecond in
            elim (Bool-cases (leb nanos_lim (wrapping_abs sol.nanosecond))) [
              | inl big ↦
                  let run : try_from sol ≡ err invalid_nanoseconds = rw (p, q, big) refl in
                  let beyond : ¬ IsBelowSecond sol.nanosecond = λ h. let e = back h in cc in
                  subst (Outcome sol) (sym run) (
                    (λ e. cc, λ h. absurd (some_date h)),
                    (λ e. cc, λ h. absurd (some_time h.1)),
                    (λ e. (some_date, some_time, beyond), λ h. refl),
                    tt,
                  )
              | inr small ↦
                  let run : try_from sol ≡ ok (chrono.add_nanoseconds date time sol.nanosecond) =
                    rw (p, q, small) refl in
                  subst (Outcome sol) (sym run) (
                    (λ e. cc, λ h. absurd (some_date h)),
                    (λ e. cc, λ h. absurd (some_time h.1)),
                    (λ e. cc, λ h. absurd (h.2 (below small))),
                    (date, time, p, q, below small, refl),
                  )
            ]
      ]

  -- Over any calendar, the conversion of a time answers with the error of the date exactly if there
  -- is no such date; with that of the time exactly if there is such a date and no such time of day;
  -- with that of the nanoseconds exactly if there are both, and the nanoseconds are a second or
  -- more, up or down; and else with the nanoseconds added to the date and the time.
  pub Outcome-try_from : (sol : Sol) → Outcome sol (try_from sol)
  unfolding try_from with_date ok_or
  Outcome-try_from sol = elim (Option-cases (chrono.from_ymd_opt sol.year sol.month sol.day)) [
    | inl p ↦
        let run : try_from sol ≡ err invalid_date = rw p refl in
        subst (Outcome sol) (sym run)
          ((λ e. p, λ h. refl), (λ e. cc, λ h. absurd (h.0 p)), (λ e. cc, λ h. absurd (h.0 p)), tt)
    | inr (date, p) ↦ Outcome-dated sol p
  ]
