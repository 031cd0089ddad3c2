-- ===== src/Examples/Files.antt =====
-- src/agentmarshal/journal/records.py: the theorems on record files at two sample files.
use agentmarshal.Common.{ok, Text, text, text_eq, ◌≡◌, refl, none, some, List, [], ◌∷◌, ◌++◌}
use agentmarshal.Json.{obj, Fields, ◌!◌, text_of}
use agentmarshal.Records.Patterns.{match_record_filename}
use agentmarshal.Records.Files.{with_id, read_records}
use agentmarshal.Records.Files.Kept.{accepted_file_keeps_records}
use agentmarshal.Records.Files.Written.{written_file_keeps_records}
use agentmarshal.Examples.Samples.{sample_review, sample_finding, review_file, finding_file, simple}
use agentmarshal.Examples.Checked.{samples_accepted, sample_types}

accepted_file_keeps_records_example :
    (rs1 : List Fields) × (rs2 : List Fields) × (groups : Text × Text) × (with_id
          (text "01ARZ3NDEKTSV4RRFFQ69G5FAV")
          sample_finding
        ∷ []
      ≡ rs1 ++ rs2)
    × (match_record_filename review_file.file_name ≡ some groups)
    × (read_records simple
          (text_of (sample_review ! "task"))
          ((finding_file ∷ []) ++ review_file ∷ [])
        ≡ ok (rs1 ++ with_id groups.0 sample_review ∷ rs2))
unfolding text_of text ◌!◌ text_eq
accepted_file_keeps_records_example =
    accepted_file_keeps_records simple review_file sample_review (finding_file ∷ []) []
      (with_id (text "01ARZ3NDEKTSV4RRFFQ69G5FAV") sample_finding ∷ []) samples_accepted.4
      samples_accepted.7

written_file_keeps_records_example :
    (rs1 : List Fields) × (rs2 : List Fields) × (with_id
          (text "01ARZ3NDEKTSV4RRFFQ69G5FAV")
          sample_finding
        ∷ []
      ≡ rs1 ++ rs2)
    × (read_records simple (text "CR-1") ((finding_file ∷ []) ++ review_file ∷ [])
        ≡ ok (rs1 ++ with_id (text "01ARZ3NDEKTSV4RRFFQ69G5FAW") sample_review ∷ rs2))
unfolding text_eq text
written_file_keeps_records_example =
    written_file_keeps_records simple none (text "CR-1") (finding_file ∷ []) [] none sample_review
      sample_review review_file (text "01ARZ3NDEKTSV4RRFFQ69G5FAW")
      (with_id (text "01ARZ3NDEKTSV4RRFFQ69G5FAV") sample_finding ∷ []) samples_accepted.5
      sample_types.5 review_content samples_accepted.7
  where
    review_content : simple.json_loads review_file.content ≡ some (obj sample_review)
    review_content = refl
