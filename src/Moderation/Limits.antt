-- ===== src/Moderation/Limits.antt =====
-- The rate limit of `createReport` in src/moderation/moderation.service.ts.
use verity_backend.Prelude.{
  ℕ, ◌+◌, ◌≤◌, ◌≡◌, refl, sym, ap, ◌∙◌, inl, inr, Bool, true, false, Option, none, some, List, [],
  ◌∷◌, ◌++◌, arith, ◌==◌, leb, if◌then◌else◌, filter, length, is_some, Bool-cases,
  length-filter-append,
}
use verity_backend.Exec.{Result, ok, err, self_report, details_too_long, report_limit}
use verity_backend.Services.Redis.{user_queue, truthy}
use verity_backend.Schema.{Report, Block}
use verity_backend.World.{Servers, World}
use verity_backend.Moderation.Blocks.{
  block_of, remove_from_queue_if_present, queue_named, leave_zset,
}
use verity_backend.Moderation.Reports.{
  ReportInput, recent_by, max_reports_per_user_per_day, trimmed, is_too_long, block_again,
  new_report, bump_report_escalation, file_report, create_report,
}

one_at_most : (p : Report → Bool) (r : Report) → length (filter p (r ∷ [])) ≤ 1
one_at_most p r = elim (Bool-cases (p r)) [
  | inl e ↦ rw e (omega arith)
  | inr e ↦ rw e (omega arith)
]

not_full :
    (n : ℕ) → leb max_reports_per_user_per_day n ≡ false → n + 1 ≤ max_reports_per_user_per_day
not_full n h = ground (arith, h)

le_trans : (a c d : ℕ) → a ≤ c → c ≤ d → a ≤ d
le_trans a c d h k = omega (arith, h, k)

module _ {b : Servers} where
  -- The reports of a user within a day.
  abbrev pub reports_today : ℕ → World b → ℕ
  reports_today user w = length (filter (recent_by user w.now) (b.reports.rows w.reports))

  reports-block_again :
      (x y : ℕ) (o : Option Block) (w : World b)
      → ((block_again x y o w).reports ≡ w.reports) × ((block_again x y o w).now ≡ w.now)
  reports-block_again x y none w = (refl, refl)
  reports-block_again x y (some z) w = elim (Bool-cases (is_some z.lifted_at)) [
    | inl e ↦ rw e (refl, refl)
    | inr e ↦ rw e (refl, refl)
  ]

  reports-leave_zset :
      (o : Option ℕ) (user : ℕ) (w : World b)
      → ((leave_zset o user w).reports ≡ w.reports) × ((leave_zset o user w).now ≡ w.now)
  reports-leave_zset none user w = (refl, refl)
  reports-leave_zset (some key) user w = (refl, refl)

  reports-remove :
      (user : ℕ) (w : World b)
      → ((remove_from_queue_if_present user w).reports ≡ w.reports)
        × ((remove_from_queue_if_present user w).now ≡ w.now)
  unfolding remove_from_queue_if_present
  reports-remove user w =
      let raw = b.strings.get w.now (user_queue user) w.strings in
      elim (Bool-cases (truthy raw)) [
        | inl e ↦ rw e (reports-leave_zset (queue_named raw) user w)
        | inr e ↦ rw e (refl, refl)
      ]

  -- The world after the transaction and the count.
  abbrev filed : ℕ → ReportInput → Option (List ℕ) → World b → World b
  filed user input details w = record w {
    reports = (b.reports.create (new_report user input details w) w.reports).1;
  }

  kept-bump :
      (user : ℕ) (w : World b)
      → ((bump_report_escalation user w).reports ≡ w.reports)
        × ((bump_report_escalation user w).now ≡ w.now)
  unfolding bump_report_escalation
  kept-bump user w = (refl, refl)

  reports-file_report :
      (user : ℕ) (input : ReportInput) (details : Option (List ℕ)) (w : World b)
      → (b.reports.rows (file_report user input details w).1.reports
          ≡ b.reports.rows w.reports
            ++ new_report user input details w (b.reports.next_id w.reports) ∷ [])
        × ((file_report user input details w).1.now ≡ w.now)
  unfolding file_report
  reports-file_report user input details w =
      let v = filed user input details w in
      let blocked = block_again user input.reported (block_of user input.reported w) v in
      let (r1, n1) = reports-block_again user input.reported (block_of user input.reported w) v in
      let (r2, n2) = kept-bump input.reported blocked in
      let (r3, n3) =
        reports-remove input.reported (bump_report_escalation input.reported blocked) in
      (
        ap b.reports.rows (r3 ∙ r2 ∙ r1)
            ∙ b.reports.rows-create (new_report user input details w) w.reports,
        n3 ∙ n2 ∙ n1,
      )

  abbrev limited : Bool → Bool → Bool → Report → World b → World b → Result Report × World b
  limited self long full report w v =
      if self
      then (err self_report, w)
      else if long
      then (err details_too_long, w)
      else if full
      then (err report_limit, w)
      else (ok report, v)

  limited-within :
      (user : ℕ) (self long full : Bool) (report : Report) (w v : World b)
      → reports_today user w ≤ max_reports_per_user_per_day
      → (full ≡ false → reports_today user v ≤ max_reports_per_user_per_day)
      → reports_today user (limited self long full report w v).1 ≤ max_reports_per_user_per_day
  limited-within user true long full report w v h k = h
  limited-within user false true full report w v h k = h
  limited-within user false false true report w v h k = h
  limited-within user false false false report w v h k = k refl

  today-file_report :
      (user : ℕ) (input : ReportInput) (details : Option (List ℕ)) (w : World b)
      → reports_today user (file_report user input details w).1 ≤ reports_today user w + 1
  today-file_report user input details w =
      let (rows, now) = reports-file_report user input details w in
      rw (rows, now, length-filter-append)
        (omega (
          arith,
          one_at_most (recent_by user w.now)
              (new_report user input details w (b.reports.next_id w.reports)),
        ))

  -- A user who has made at most ten reports within a day has made at most ten after another one
  -- is tried.
  pub create_report-within :
      (user : ℕ) (input : ReportInput) (w : World b)
      → reports_today user w ≤ max_reports_per_user_per_day
      → reports_today user (create_report user input w).1 ≤ max_reports_per_user_per_day
  unfolding create_report
  create_report-within user input w h =
      let details = trimmed input.details in
      let (report, v) = file_report user input details w in
      limited-within user (user == input.reported) (is_too_long details)
        (leb max_reports_per_user_per_day (b.reports.count (recent_by user w.now) w.reports)) report
        w v h
        λ e.
          le_trans (reports_today user v) (reports_today user w + 1) max_reports_per_user_per_day
            (today-file_report user input details w)
            (not_full (reports_today user w) (
              ap (leb max_reports_per_user_per_day)
                (sym (b.reports.count_lem (recent_by user w.now) w.reports))
              ∙ e))
