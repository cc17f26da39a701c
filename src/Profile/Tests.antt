-- ===== src/Profile/Tests.antt =====
-- The theorem applied to concrete needs.
use online_dsl_forge.Base.{◌≡◌, ◌&&◌, ◌||◌, refl, false, true, ◌↔◌, max}
use online_dsl_forge.Profile.{
  BodyNeedSummary, BodyTarget, none, size_only, prefix_bytes, all, allows, merge, merge_target,
  reads_payload,
}
use online_dsl_forge.Profile.Merge.{merge-allows, only, IsCovered, rank, need, IsReading}

abbrev sizes : BodyNeedSummary
sizes = all size_only

abbrev prefix : BodyNeedSummary
prefix = record { request = prefix_bytes; response = none; stream = none }

refused : allows sizes (merge sizes prefix) ≡ false
unfolding allows merge
refused = refl

merge-allows_example :
    ((allows sizes sizes ≡ true) ↔ IsCovered sizes sizes)
    × ((reads_payload sizes ≡ true) ↔ IsReading sizes)
    × (rank (need (merge sizes prefix) BodyTarget.stream)
        ≡ max (rank (need sizes BodyTarget.stream)) (rank (need prefix BodyTarget.stream)))
    × (allows sizes (merge sizes prefix) ≡ (allows sizes sizes && allows sizes prefix))
    × (merge_target sizes BodyTarget.stream prefix_bytes
        ≡ merge sizes (only BodyTarget.stream prefix_bytes))
    × (allows sizes (merge_target sizes BodyTarget.stream prefix_bytes)
        ≡ (allows sizes sizes && allows sizes (only BodyTarget.stream prefix_bytes)))
    × (reads_payload (merge sizes prefix) ≡ (reads_payload sizes || reads_payload prefix))
    × (reads_payload (merge_target sizes BodyTarget.stream prefix_bytes)
        ≡ (reads_payload sizes || reads_payload (only BodyTarget.stream prefix_bytes)))
merge-allows_example = merge-allows sizes sizes prefix BodyTarget.stream prefix_bytes
