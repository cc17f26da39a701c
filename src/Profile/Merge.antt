-- ===== src/Profile/Merge.antt =====
-- Merged needs are allowed exactly where each of them is.
use online_dsl_forge.Base.{refl, ap, Bool, ◌&&◌, ◌||◌, ◌≡◌, arith, ◌∙◌, ℕ, ◌≤◌, max, true, ◌↔◌, ◌⊎◌}
use online_dsl_forge.Profile.{
  BodyAccess, none, size_only, prefix_bytes, access_allows, access_reads_payload, allows,
  reads_payload, BodyTarget, merge_target, merge_access, merge, BodyNeedSummary,
}

allows-merge_access :
    (limit a b : BodyAccess)
    → access_allows limit (merge_access a b) ≡ (access_allows limit a && access_allows limit b)
allows-merge_access none none b = refl
allows-merge_access none size_only none = refl
allows-merge_access none size_only size_only = refl
allows-merge_access none size_only prefix_bytes = refl
allows-merge_access none prefix_bytes b = refl
allows-merge_access size_only none b = refl
allows-merge_access size_only size_only none = refl
allows-merge_access size_only size_only size_only = refl
allows-merge_access size_only size_only prefix_bytes = refl
allows-merge_access size_only prefix_bytes b = refl
allows-merge_access prefix_bytes a b = refl

reads-merge_access :
    (a b : BodyAccess)
    → access_reads_payload (merge_access a b) ≡ (access_reads_payload a || access_reads_payload b)
reads-merge_access none b = refl
reads-merge_access size_only none = refl
reads-merge_access size_only size_only = refl
reads-merge_access size_only prefix_bytes = refl
reads-merge_access prefix_bytes b = refl

and_interchange :
    (a b c d e f : Bool) → ((a && b) && (c && d) && (e && f)) ≡ ((a && c && e) && (b && d && f))
and_interchange a b c d e f = ground arith

or_interchange :
    (a b c d e f : Bool) → ((a || b) || (c || d) || (e || f)) ≡ ((a || c || e) || (b || d || f))
or_interchange a b c d e f = ground arith

allows-merge :
    (limit a b : BodyNeedSummary) → allows limit (merge a b) ≡ (allows limit a && allows limit b)
unfolding allows merge
allows-merge limit a b =
    rw
      (
        allows-merge_access limit.request a.request b.request,
        allows-merge_access limit.response a.response b.response,
        allows-merge_access limit.stream a.stream b.stream,
      )
      (and_interchange (access_allows limit.request a.request)
        (access_allows limit.request b.request) (access_allows limit.response a.response)
        (access_allows limit.response b.response) (access_allows limit.stream a.stream)
        (access_allows limit.stream b.stream))

reads-merge :
    (a b : BodyNeedSummary) → reads_payload (merge a b) ≡ (reads_payload a || reads_payload b)
unfolding reads_payload merge
reads-merge a b =
    rw
      (
        reads-merge_access a.request b.request,
        reads-merge_access a.response b.response,
        reads-merge_access a.stream b.stream,
      )
      (or_interchange (access_reads_payload a.request) (access_reads_payload b.request)
        (access_reads_payload a.response) (access_reads_payload b.response)
        (access_reads_payload a.stream) (access_reads_payload b.stream))

-- The need of one target, and none of the two others.
abbrev pub only : BodyTarget → BodyAccess → BodyNeedSummary
only BodyTarget.request access = record { request = access; response = none; stream = none }
only BodyTarget.response access = record { request = none; response = access; stream = none }
only BodyTarget.stream access = record { request = none; response = none; stream = access }

merge_none : (a : BodyAccess) → merge_access a none ≡ a
merge_none none = refl
merge_none size_only = refl
merge_none prefix_bytes = refl

merge_target-eq :
    (a : BodyNeedSummary) (target : BodyTarget) (access : BodyAccess)
    → merge_target a target access ≡ merge a (only target access)
unfolding merge_target merge
merge_target-eq a BodyTarget.request access = rw (merge_none a.response, merge_none a.stream) refl
merge_target-eq a BodyTarget.response access = rw (merge_none a.request, merge_none a.stream) refl
merge_target-eq a BodyTarget.stream access = rw (merge_none a.request, merge_none a.response) refl

-- How much of a body is read: nothing, its size, or its bytes.
abbrev pub rank : BodyAccess → ℕ
rank none = 0
rank size_only = 1
rank prefix_bytes = 2

abbrev pub need : BodyNeedSummary → BodyTarget → BodyAccess
need a BodyTarget.request = a.request
need a BodyTarget.response = a.response
need a BodyTarget.stream = a.stream

-- For no target more is needed than is there.
abbrev pub IsCovered : BodyNeedSummary → BodyNeedSummary → Type 0
IsCovered needed limit =
    (rank needed.request ≤ rank limit.request)
    × (rank needed.response ≤ rank limit.response)
    × (rank needed.stream ≤ rank limit.stream)

rank-merge_access : (a b : BodyAccess) → rank (merge_access a b) ≡ max (rank a) (rank b)
rank-merge_access none b = omega arith
rank-merge_access size_only none = omega arith
rank-merge_access size_only size_only = omega arith
rank-merge_access size_only prefix_bytes = omega arith
rank-merge_access prefix_bytes none = omega arith
rank-merge_access prefix_bytes size_only = omega arith
rank-merge_access prefix_bytes prefix_bytes = omega arith

rank-merge :
    (a b : BodyNeedSummary) (t : BodyTarget)
    → rank (need (merge a b) t) ≡ max (rank (need a t)) (rank (need b t))
unfolding merge
rank-merge a b BodyTarget.request = rank-merge_access a.request b.request
rank-merge a b BodyTarget.response = rank-merge_access a.response b.response
rank-merge a b BodyTarget.stream = rank-merge_access a.stream b.stream

access_allows_iff :
    (limit needed : BodyAccess) → (access_allows limit needed ≡ true) ↔ (rank needed ≤ rank limit)
access_allows_iff none none = ground arith
access_allows_iff none size_only = ground arith
access_allows_iff none prefix_bytes = ground arith
access_allows_iff size_only none = ground arith
access_allows_iff size_only size_only = ground arith
access_allows_iff size_only prefix_bytes = ground arith
access_allows_iff prefix_bytes none = ground arith
access_allows_iff prefix_bytes size_only = ground arith
access_allows_iff prefix_bytes prefix_bytes = ground arith

allows_iff :
    (limit needed : BodyNeedSummary) → (allows limit needed ≡ true) ↔ IsCovered needed limit
unfolding allows
allows_iff limit needed = ground (
  arith,
  access_allows_iff limit.request needed.request,
  access_allows_iff limit.response needed.response,
  access_allows_iff limit.stream needed.stream,
)

access_reads_iff : (a : BodyAccess) → (access_reads_payload a ≡ true) ↔ (2 ≤ rank a)
access_reads_iff none = ground arith
access_reads_iff size_only = ground arith
access_reads_iff prefix_bytes = ground arith

-- The bytes of some target are needed.
abbrev pub IsReading : BodyNeedSummary → Type 0
IsReading a = (2 ≤ rank a.request) ⊎ (2 ≤ rank a.response) ⊎ (2 ≤ rank a.stream)

reads_iff : (a : BodyNeedSummary) → (reads_payload a ≡ true) ↔ IsReading a
unfolding reads_payload
reads_iff a =
    ground
      (arith, access_reads_iff a.request, access_reads_iff a.response, access_reads_iff a.stream)

-- For each limit, all needs and each target:
-- * a limit allows a need exactly if for no target the need is above the limit;
-- * a need reads the payload exactly if it needs the bytes of some target;
-- * a merge needs of each target the larger of what the two need of it;
-- * merging the access of one target in is the merge with the need that has this access for that
--   target and none for the two others;
-- * the limit allows a merge of two needs exactly if it allows both, and a need with one target merged
--   in exactly if it allows the need and the access of that one target;
-- * a merge reads the payload exactly if one of its parts does.
pub merge-allows :
    (limit a b : BodyNeedSummary) (target : BodyTarget) (access : BodyAccess)
    → ((allows limit a ≡ true) ↔ IsCovered a limit)
      × ((reads_payload a ≡ true) ↔ IsReading a)
      × (rank (need (merge a b) target) ≡ max (rank (need a target)) (rank (need b target)))
      × (allows limit (merge a b) ≡ (allows limit a && allows limit b))
      × (merge_target a target access ≡ merge a (only target access))
      × (allows limit (merge_target a target access)
          ≡ (allows limit a && allows limit (only target access)))
      × (reads_payload (merge a b) ≡ (reads_payload a || reads_payload b))
      × (reads_payload (merge_target a target access)
          ≡ (reads_payload a || reads_payload (only target access)))
merge-allows limit a b target access =
    let alone = merge_target-eq a target access in
    (
      allows_iff limit a,
      reads_iff a,
      rank-merge a b target,
      allows-merge limit a b,
      alone,
      ap (λ need. allows limit need) alone ∙ allows-merge limit a (only target access),
      reads-merge a b,
      ap (λ need. reads_payload need) alone ∙ reads-merge a (only target access),
    )
