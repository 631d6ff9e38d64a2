-- ===== src/Exportjob/Exported.antt =====
-- internal/exportjob/worker.go: the file that a job leaves in the object store.
use iot_backend.Base.{
  false, ◌≢◌, Bool-cases, inl, inr, String, true, List, ◌∷◌, Option, none, some, All, ◌≡◌, refl,
  sym, subst,
}
use iot_backend.Models.{ExportJob, export_succeeded}
use iot_backend.Repository.{Result, ok, err, Env, Db}
use iot_backend.Repository.Jobs.{finish_export_job}
use iot_backend.Storage
use iot_backend.Storage.{Answer, done, refused, Objects, Upload, Stream}
use iot_backend.Archive.{Outside}
use iot_backend.Archive.Csv.{Row, header}
use iot_backend.Archive.Merge.{Written, flushed, text_of, list_matching, merge_csv}
use iot_backend.Archive.Merge.Rows.{IsAsked, IsMerged, merge_csv-IsMerged}
use iot_backend.Exportjob.{
  World, Ran, returned, is_stuck, after_both, query_of, answered, key_of, after_put, after_merge,
  after_list, process,
}

module _ (out : Outside) {S : Type 0} (stream : Stream S) (j : ExportJob) where
  -- The last thing done to the objects was a Put under the key, of a reader that gives the header and
  -- rows of records that the job asks for, and then ends; this has succeeded.
  pub record IsExported (key : String) (s' : S) : Type 0 where
    pub rows : List Row
    pub before : S
    pub asked : All (IsAsked out (query_of j)) rows
    pub accepted : (stream key (out.csv.print_rows (header ∷ rows)) none before).0.error ≡ none
    pub read :
        is_stuck
          (out.csv.print_rows (header ∷ rows))
          (stream key (out.csv.print_rows (header ∷ rows)) none before).0.read_all
        ≡ false
    pub after : s' ≡ (stream key (out.csv.print_rows (header ∷ rows)) none before).1

module _ (out : Outside) (env : Env) {S : Type 0} (objects : Objects S) (stream : Stream S)
    (prefix : String) (j : ExportJob) where
  abbrev key : String
  key = key_of out env objects stream prefix j

  -- What is known of a job that has run: where it answers nil, its file has been put.
  abbrev Goal : Ran × World S → Type 0
  Goal (ran, w) = ran ≡ returned true → IsExported out stream j key w.objects

  same_objects :
      (w : World S) (r : Result (Unit {0}) × Db)
      → (answered out env objects stream prefix w r).1.objects ≡ w.objects
  same_objects w (ok u, db) = refl
  same_objects w (err e, db) = refl

  after_both-objects :
      (w : World S) (e : Option Storage.Error)
      → (after_both out env objects stream prefix j w e none).0 ≡ returned true
      → (e ≡ none) × ((after_both out env objects stream prefix j w e none).1.objects ≡ w.objects)
  after_both-objects w (some e) nil = cc nil
  after_both-objects w none nil =
      (refl, same_objects w (finish_export_job env j.id export_succeeded key "" w.db))

  after_put-IsExported :
      (w : World S) (rows : List Row) (s : S)
      → All (IsAsked out (query_of j)) rows
      → Goal (
          after_put out env objects stream prefix j w
            (out.csv.print_rows (header ∷ rows))
            none
            (stream key (out.csv.print_rows (header ∷ rows)) none s))
  after_put-IsExported w rows s asked =
      let text = out.csv.print_rows (header ∷ rows) in
      let put = stream key text none s in
      elim (Bool-cases (is_stuck text put.0.read_all)) [
        | inl stuck ↦ rw stuck (λ nil. cc nil)
        | inr read ↦ rw read (λ nil.
            let (accepted, same) =
              after_both-objects (record w { objects = put.1 }) put.0.error nil in
            record {
              rows = rows;
              before = s;
              asked = asked;
              accepted = accepted;
              read = read;
              after = same;
            })
      ]

  failed_merge :
      (w : World S) (text : String) (e : Storage.Error) (put : Upload × S)
      → (after_put out env objects stream prefix j w text (some e) put).0 ≢ returned true
  failed_merge w text e (u, s) nil = elim (Bool-cases (is_stuck text u.read_all)) [
    | inl stuck ↦ cc (rw stuck at nil)
    | inr read ↦ at_error u.error (rw read at nil)
  ]
    where
      at_error :
          (o : Option Storage.Error)
          → (after_both out env objects stream prefix j (record w { objects = s }) o (some e)).0
            ≡ returned true
          → ⊥
      at_error none nil = cc nil
      at_error (some f) nil = cc nil

  after_merge-IsExported :
      (w : World S) (r : Option Storage.Error × Written × S)
      → IsMerged out (query_of j) objects r
      → Goal (after_merge out env objects stream prefix j w r)
  after_merge-IsExported w (some e, written, s) h nil =
      absurd
        (failed_merge w (text_of out written) e (stream key (text_of out written) (some e) s) nil)
  after_merge-IsExported w (none, written, s) h nil =
      let same : written ≡ flushed (header ∷ h.rows) = h.whole refl in
      subst (λ written. Goal (after_merge out env objects stream prefix j w (none, written, s)))
        (sym same) (after_put-IsExported w h.rows s h.asked) nil

  after_list-IsExported :
      (w : World S) (r : Answer (List String) × S)
      → Goal (after_list out env objects stream prefix j w r)
  after_list-IsExported w (refused e, s) nil = cc nil
  after_list-IsExported w (done keys, s) nil =
      after_merge-IsExported w (merge_csv out (query_of j) objects keys s)
        (merge_csv-IsMerged out (query_of j) objects keys s) nil

  -- Where the worker's `process` returns without an error, the file of the job has been put under the
  -- key of its organization and identifier, and the file has the header and then only rows of records
  -- of the job's organization, of the devices that it names and in its range.
  pub process-IsExported :
      (w : World S)
      → (process out env objects stream prefix j w).0 ≡ returned true
      → IsExported out stream j
          (key_of out env objects stream prefix j)
          (process out env objects stream prefix j w).1.objects
  unfolding process
  process-IsExported w = after_list-IsExported w (list_matching out (query_of j) objects w.objects)
