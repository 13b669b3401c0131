-- ===== src/Drill/Undo.antt =====
-- pkg/backup/drill/engine.go: what Recover and Rollback do to the journal.
use cloud_ring.Prelude.{
  ◌≡◌, refl, sym, ap, ◌∙◌, ◌⊎◌, inl, inr, ℕ, suc, String, true, false, List, Bool-cases,
  Option-cases, arith,
}
use cloud_ring.Drill.Types.{Plan, ApprovalReport, JournalEntry}
use cloud_ring.Drill.Plans.{Error}
use cloud_ring.Drill.Binding.{rollback_started, verify_journal_binding}
use cloud_ring.Drill.Store.{
  ok, failed, File, Env, World, absent, damaged, is_fine, load, open_journal, read_clock, readable,
}
use cloud_ring.Drill.Appends.{Result-cases, load_lem, load-readable}
use cloud_ring.Drill.Rounds.{Holds, readable-injective}
use cloud_ring.Drill.Engine.{validate_execution_input, bound_journal, recover}

pub File-cases :
    (f : File)
    → (f ≡ absent) ⊎ (f ≡ damaged) ⊎ ((es : List JournalEntry) × (n : ℕ) × (f ≡ readable es n))
File-cases absent = inl refl
File-cases damaged = inr (inl refl)
File-cases (readable es n) = inr (inr (es, n, refl))

pub open_journal_lem :
    (env : Env) (w : World)
    → ((open_journal env w).0.file ≡ w.file) × ((open_journal env w).0.requests ≡ w.requests)
unfolding open_journal
open_journal_lem env w = elim (Bool-cases (is_fine (env.disk w.disk_uses))) [
  | inr bad ↦ (ground arith, ground arith)
  | inl good ↦ elim (File-cases w.file) [
    | inl f ↦ (ground arith, ground arith)
    | inr (inl f) ↦ (ground arith, ground arith)
    | inr (inr (es, n, f)) ↦ (ground arith, ground arith)
  ]
]

-- The reading of a journal leaves the file and the requests, and returns the journal in the file.
pub bound_journal_lem :
    (env : Env) (plan : Plan) (approval : ApprovalReport) (confirmation : String) (message : Error)
    (w : World)
    → ((bound_journal env plan approval confirmation message w).0.file ≡ w.file)
      × ((bound_journal env plan approval confirmation message w).0.requests ≡ w.requests)
      × ((entries : List JournalEntry)
          → (bound_journal env plan approval confirmation message w).1 ≡ ok entries
          → Holds w entries)
unfolding bound_journal read_clock
bound_journal_lem env plan approval confirmation message w =
    let w1 : World = record w { clock_reads = suc w.clock_reads } in
    let w2 = (open_journal env w1).0 in
    let (file1, requests1) = open_journal_lem env w1 in
    let (file2, requests2) = load_lem env w2 in
    elim (Option-cases
      (validate_execution_input env plan approval confirmation (env.clock w.clock_reads) false)) [
        | inr (e, bad) ↦ (ground arith, ground arith, λ entries h. ground arith)
        | inl input ↦ elim (Result-cases (open_journal env w1).1) [
          | inl (e, bad) ↦ (ground arith, ground arith, λ entries h. ground arith)
          | inr (_, opened) ↦ elim (Result-cases (load env w2).1) [
            | inl (e, bad) ↦ (ground arith, ground arith, λ entries h. ground arith)
            | inr ((read, n), loaded) ↦
                elim (Option-cases (verify_journal_binding env.digest plan approval read)) [
                  | inr (e, bad) ↦ (ground arith, ground arith, λ entries h. ground arith)
                  | inl bound ↦ (
                    ground arith,
                    ground arith,
                    λ entries h.
                        let same : read ≡ entries = ground arith in
                        let (there, _) = load-readable env w2 read n loaded in
                        (n, sym file1 ∙ there ∙ ap (λ l. readable l n) same),
                  )
                ]
          ]
        ]
      ]

-- If the file holds a journal in which a rollback has begun then Recover returns an error, and
-- neither changes the file nor runs the adapter.
pub recover-refuses :
    (env : Env) (plan : Plan) (approval : ApprovalReport) (confirmation : String) (w : World)
    (entries : List JournalEntry)
    → Holds w entries
    → rollback_started entries ≡ true
    → ((e : Error) × ((recover env plan approval confirmation w).1 ≡ failed e))
      × ((recover env plan approval confirmation w).0.file ≡ w.file)
      × ((recover env plan approval confirmation w).0.requests ≡ w.requests)
unfolding recover
recover-refuses env plan approval confirmation w entries (n, here) started =
    let message : Error = "backup drill recovery journal is unavailable" in
    let (file, requests, holds) = bound_journal_lem env plan approval confirmation message w in
    elim (Result-cases (bound_journal env plan approval confirmation message w).1) [
      | inl (e, bad) ↦ ((e, ground arith), ground arith, ground arith)
      | inr (read, good) ↦
          let (m, there) = holds read good in
          let same : read ≡ entries = readable-injective read entries m n (sym there ∙ here) in
          let begun : rollback_started read ≡ true = ap rollback_started same ∙ started in
          (
            ("backup drill recovery rejects a rollback-started run", ground arith),
            ground arith,
            ground arith,
          )
    ]
