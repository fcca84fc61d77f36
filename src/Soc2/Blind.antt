-- ===== src/Soc2/Blind.antt =====
-- enterprise/compliance_as_code/soc2_monitor.py: what a report depends on.
use qervan_ai.Common.{String, List, ok, ◌≡◌, refl, Result-cases, inl, inr}
use qervan_ai.Soc2.{
  Methods, Evidence, Controls, Report, collect_evidence, check_controls, generate_report,
  alert_on_anomalies, monitor,
}

-- Two sets of audits, with the other methods the same.
module _ (m m' : Methods) (regions regions' : List String) where
  check_controls-evidence :
      (e e' : Evidence)
      → m.verify_backups ≡ m'.verify_backups
      → m.check_uptime_compliance ≡ m'.check_uptime_compliance
      → check_controls m e ≡ check_controls m' e'
  unfolding check_controls
  check_controls-evidence e e' backups uptime = rw (backups, uptime) refl

  generate_report-same :
      (now : String) (results : Controls)
      → m.generate_recommendations ≡ m'.generate_recommendations
      → generate_report m now results ≡ generate_report m' now results
  unfolding generate_report
  generate_report-same now results advice = rw advice refl

  -- When the audits of both of two monitors return, whatever they have found and in whichever regions, and their
  -- other methods are the same, the two reports of one time are the same (or the same exception is raised), and
  -- neither run posts an alert.
  pub monitor_blind :
      (now : String) (posted : List Report) {e e' : Evidence}
      → m.verify_backups ≡ m'.verify_backups
      → m.check_uptime_compliance ≡ m'.check_uptime_compliance
      → m.generate_recommendations ≡ m'.generate_recommendations
      → collect_evidence m regions ≡ ok e
      → collect_evidence m' regions' ≡ ok e'
      → ((monitor m regions now posted).0 ≡ (monitor m' regions' now posted).0)
        × ((monitor m regions now posted).1 ≡ posted)
        × ((monitor m' regions' now posted).1 ≡ posted)
  unfolding monitor alert_on_anomalies
  monitor_blind now posted {e} {e'} backups uptime advice audited audited' =
      let same = check_controls-evidence e e' backups uptime in
      elim (Result-cases (check_controls m' e')) [
        | inr (x, raised) ↦ (
          rw (audited, audited', same, raised, monitor) refl,
          rw (audited, same, raised, monitor) refl,
          rw (audited', raised, monitor) refl,
        )
        | inl (results, checked) ↦
            let reported = generate_report-same now results advice in
            elim (Result-cases (generate_report m' now results)) [
              | inr (x, raised) ↦ (
                rw (audited, audited', same, checked, reported, monitor) refl,
                rw (audited, same, checked, reported, raised, monitor) refl,
                rw (audited', checked, raised, monitor) refl,
              )
              | inl (report, given) ↦ (
                rw (audited, audited', same, checked, reported, monitor) refl,
                rw (audited, same, checked, reported, given, monitor) refl,
                rw (audited', checked, given, monitor) refl,
              )
            ]
      ]
